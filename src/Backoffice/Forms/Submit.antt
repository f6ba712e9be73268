-- ===== src/Backoffice/Forms/Submit.antt =====
-- The submission of a form.
use synkro.Base.{
  ℕ, String, true, false, none, some, List, [], ◌∷◌, ◌++◌, ◌≡◌, ◌⊎◌, inl, inr, refl, sym, ◌∙◌,
  if◌then◌else◌, every, any_of, ◌==◌, if-splits, elim-splits, failure, Result, ok, err,
}
use synkro.Backoffice.Forms.{
  FormField, Values, Form, Dates, has_time, validate_field, validate_form, process_values, send,
  handle_submit,
}
use synkro.Backoffice.Forms.Laws.{passes, fails_as, check_fields-eq}
use synkro.Backoffice.Forms.Sending.{
  is_date_field, done, prepared, throws, process_values-done, process_values-sent,
  process_values-good, process_values-bad,
}

-- Nothing was sent.
abbrev pub IsUnsent : {O : Type 0} → Form O → Form O → Type 0
IsUnsent s s' = (s'.submitted ≡ s.submitted) × (s'.invalidated ≡ s.invalidated)

module _ {O : Type 0} (fields : List (FormField O)) (query_keys : List String) where
  -- The values were sent, with the dates ready and the other values as they are.
  abbrev pub IsSent : Dates → Form O → Form O → Type 0
  IsSent dates s s' =
      (p : Values O) × (s'.submitted ≡ s.submitted ++ p ∷ [])
      × (s'.invalidated ≡ s.invalidated ++ query_keys)
      × (every (done p) fields ≡ true)
      × ((name : String)
          → p name ≡ (
              if any_of (is_date_field name) fields
              then prepared dates (s.values name)
              else s.values name))

module _ {O : Type 0} (dates : Dates) (fields : List (FormField O)) (query_keys : List String) where
  -- The form is valid: it was sent, exactly if no date field holds a date that throws.
  abbrev pub IsTried : Form O → Result (Unit {0}) × Form O → Type 0
  IsTried s (r, s') =
      ((any_of (throws dates s.values) fields ≡ true)
        × (r ≡ err (failure "Invalid time value"))
        × IsUnsent s s')
      ⊎ ((any_of (throws dates s.values) fields ≡ false)
          × (r ≡ ok tt)
          × IsSent fields query_keys dates s s')

  abbrev pub IsSubmitted : Form O → Result (Unit {0}) × Form O → Type 0
  IsSubmitted s (r, s') =
      (s'.values ≡ s.values)
      × ((name : String)
          → s'.errors name ≡ (
              if any_of (fails_as fields s.values name) fields
              then validate_field fields name (s.values name)
              else none))
      × (((every (passes fields s.values) fields ≡ false) × (r ≡ ok tt) × IsUnsent s s')
          ⊎ ((every (passes fields s.values) fields ≡ true) × IsTried s (r, s')))

  -- A sent form keeps its values and errors.
  abbrev pub IsDone : Form O → Result (Unit {0}) × Form O → Type 0
  IsDone s (r, s') = (s'.values ≡ s.values) × (s'.errors ≡ s.errors) × IsTried s (r, s')

module _ {O : Type 0} (dates : Dates) (iso-has_time : (ms : ℕ) → has_time (dates.iso ms) ≡ true)
    (day-has_time : (s t : String) → dates.iso_of_day s ≡ some t → has_time t ≡ true)
    (fields : List (FormField O)) (query_keys : List String) where
  send-IsDone : (s : Form O) → IsDone dates fields query_keys s (send dates fields query_keys s)
  unfolding send
  send-IsDone s =
      elim-splits (IsDone dates fields query_keys s) (process_values dates fields s.values) _ _
        (λ e. (
          refl,
          refl,
          inl (
            process_values-bad dates iso-has_time day-has_time fields s.values e,
            refl,
            (refl, refl),
          ),
        ))
        (λ p e. (
          refl,
          refl,
          inr (
            process_values-good dates iso-has_time day-has_time fields s.values p e,
            refl,
            (
              p,
              refl,
              refl,
              process_values-done dates iso-has_time day-has_time fields s.values p e,
              λ name. process_values-sent dates iso-has_time day-has_time fields s.values p name e,
            ),
          ),
        ))

  -- `handleSubmit` keeps the values and sets as errors exactly those of the fields that are checked and
  -- fail (hidden fields are checked if they are required). It sends the values and invalidates the
  -- query keys if no checked field fails, and throws instead exactly if a date field holds an invalid
  -- `Date`, or a text without a time, not empty, that is no day; if one fails it sends nothing. What it sends has a `Date` or a bare day of a date field as its
  -- `toISOString`, and the other values as they are, where the texts of `toISOString` have a time.
  pub handle_submit-IsSubmitted :
      (s : Form O) → IsSubmitted dates fields query_keys s (handle_submit dates fields query_keys s)
  unfolding handle_submit validate_form
  handle_submit-IsSubmitted s =
      let checked =
        λ (name : String). check_fields-eq fields s.values fields (λ n. none) true name in
      let s' : Form O = record s {
        touched = λ name. any_of (λ f. f.name == name) fields;
        errors = (validate_form fields s.values).0;
      } in
      if-splits (IsSubmitted dates fields query_keys s) (validate_form fields s.values).1 _ _
        (λ valid.
          let (values, errors, tried) = send-IsDone s' in
          (
            values,
            (λ name. (λ i. errors i name) ∙ (checked name).1),
            inr (sym (checked "").0 ∙ valid, tried),
          ))
        (λ invalid. (
          refl,
          (λ name. (checked name).1),
          inl (sym (checked "").0 ∙ invalid, refl, (refl, refl)),
        ))
