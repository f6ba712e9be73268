-- ===== src/Backoffice/Forms/Laws.antt =====
-- What a form checks, and what it sends.
use synkro.Base.{
  String, Bool, false, not, ◌&&◌, ◌||◌, Option, List, [], ◌∷◌, ◌≡◌, inl, inr, refl, ap, arith,
  eq_iff, ◌==◌, if◌then◌else◌, given, every, any_of, Bool-cases,
}
use synkro.Backoffice.Forms.{FormField, Values, put, validate_field, check_fields}

module _ {O : Type 0} (fields : List (FormField O)) where
  -- The field is not checked, or the check finds nothing.
  abbrev pub passes : Values O → FormField O → Bool
  passes values f =
      f.hidden && not f.required || not (given (validate_field fields f.name (values f.name)))

  abbrev pub fails_as : Values O → String → FormField O → Bool
  fails_as values name f = f.name == name && not (passes values f)

  pub check_fields-eq :
      (values : Values O) (fs : List (FormField O)) (errors : String → Option String) (valid : Bool)
      (name : String)
      → let (errors', valid') = check_fields fields values fs (errors, valid) in
        (valid' ≡ (valid && every (passes values) fs))
        × (errors' name ≡ (
            if any_of (fails_as values name) fs
            then validate_field fields name (values name)
            else errors name))
  check_fields-eq values [] errors valid name = (ground arith, refl)
  check_fields-eq values (f ∷ fs) errors valid name =
      elim (Bool-cases (f.hidden && not f.required)) [
        | inl skip ↦
            let (v, e) = check_fields-eq values fs errors valid name in
            rw skip (ground (arith, v), ground (arith, e))
        | inr checked ↦ elim (Bool-cases (given (validate_field fields f.name (values f.name)))) [
          | inl bad ↦
              let found = validate_field fields f.name (values f.name) in
              let (v, e) = check_fields-eq values fs (put f.name found errors) false name in
              let same : f.name ≡ name → found ≡ validate_field fields name (values name) =
                λ h. ap (λ n. validate_field fields n (values n)) h in
              rw (checked, bad) (ground (arith, v), ground (arith, e, same, eq_iff f.name name))
          | inr fine ↦
              let (v, e) = check_fields-eq values fs errors valid name in
              rw (checked, fine) (ground (arith, v), ground (arith, e))
        ]
      ]
