-- ===== src/Backoffice/Forms/Sending.antt =====
-- The dates that a form sends.
use synkro.Base.{
  ℕ, String, Bool, true, false, not, ◌&&◌, ◌||◌, Option, none, some, is_some, Bool-cases,
  Option-cases, eq_iff, subst, or_else, if◌then◌else◌, List, [], ◌∷◌, ◌≡◌, ◌⊎◌, inl, inr, refl, sym,
  ap, ◌∙◌, arith, ◌==◌, every, any_of, ==_refl, if-holds, if-splits, elim-splits,
}
use mathlib.Core.Option.{some-injective}
use synkro.Backoffice.Forms.{
  FieldValue, undefined, null, boolean, number, date, text, other, FormField, Values, put, Dates,
  has_time, process_date, process_values,
}

-- A date that was processed is no `Date` any more, and a text with a time, if it is not empty.
module _ {O : Type 0} where
  abbrev pub is_ready : FieldValue O → Bool
  is_ready (date ms) = false
  is_ready (text s) = s == "" || has_time s
  is_ready _ = true

  -- A date that throws: an invalid one, or a text without a time that is no day.
  abbrev pub is_bad : Dates → FieldValue O → Bool
  is_bad dates (date none) = true
  is_bad dates (text s) = not (s == "") && not (has_time s) && not (is_some (dates.iso_of_day s))
  is_bad dates v = false

  -- The value of the field is a date that throws.
  abbrev pub throws : Dates → Values O → FormField O → Bool
  throws dates values f = f.type == "date" && is_bad dates (values f.name)

  ready-good : (dates : Dates) (v : FieldValue O) → is_ready v ≡ true → is_bad dates v ≡ false
  ready-good dates undefined h = refl
  ready-good dates null h = refl
  ready-good dates (boolean b) h = refl
  ready-good dates (number n) h = refl
  ready-good dates (date o) h = absurd (ground arith)
  ready-good dates (text s) h = ground arith
  ready-good dates (other o) h = refl

  process_date-bad :
      (dates : Dates) (v : FieldValue O) → process_date dates v ≡ none → is_bad dates v ≡ true
  process_date-bad dates undefined h = absurd (ground arith)
  process_date-bad dates null h = absurd (ground arith)
  process_date-bad dates (boolean b) h = absurd (ground arith)
  process_date-bad dates (number n) h = absurd (ground arith)
  process_date-bad dates (date none) h = refl
  process_date-bad dates (date (some ms)) h = absurd (ground arith)
  process_date-bad dates (text s) h = ground arith
  process_date-bad dates (other o) h = absurd (ground arith)

  process_date-good :
      (dates : Dates) (v w : FieldValue O) → process_date dates v ≡ some w → is_bad dates v ≡ false
  process_date-good dates undefined w h = refl
  process_date-good dates null w h = refl
  process_date-good dates (boolean b) w h = refl
  process_date-good dates (number n) w h = refl
  process_date-good dates (date none) w h = absurd (ground arith)
  process_date-good dates (date (some ms)) w h = refl
  process_date-good dates (text s) w h = ground arith
  process_date-good dates (other o) w h = refl

  -- Changing a value that does not throw to another such value changes nothing.
  throws-put :
      (dates : Dates) (name : String) (w : FieldValue O) (values : Values O)
      → is_bad dates (values name) ≡ false
      → is_bad dates w ≡ false
      → (fs : List (FormField O))
      → any_of (throws dates (put name w values)) fs ≡ any_of (throws dates values) fs
  throws-put dates name w values h k [] = refl
  throws-put dates name w values h k (f ∷ fs) = elim (Bool-cases (name == f.name)) [
    | inl same ↦
        let e : name ≡ f.name = (eq_iff name f.name).0 same in
        let old : is_bad dates (values f.name) ≡ false =
          subst (λ n. is_bad dates (values n) ≡ false) e h in
        rw (same, k, old)
          (ap (λ r. f.type == "date" && false || r) (throws-put dates name w values h k fs))
    | inr differs ↦
        rw differs (ap (λ r. throws dates values f || r) (throws-put dates name w values h k fs))
  ]

  -- A date as it is sent: a `Date` and a bare day by `toISOString`, another text as it is.
  abbrev pub prepared : Dates → FieldValue O → FieldValue O
  prepared dates (date (some ms)) = text (dates.iso ms)
  prepared dates (text s) =
      if s == "" || has_time s then text s else text (or_else (dates.iso_of_day s) s)
  prepared dates v = v

  process_date-prepared :
      (dates : Dates) (v w : FieldValue O) → process_date dates v ≡ some w → w ≡ prepared dates v
  process_date-prepared dates undefined w h = cc
  process_date-prepared dates null w h = cc
  process_date-prepared dates (boolean b) w h = cc
  process_date-prepared dates (number n) w h = cc
  process_date-prepared dates (date none) w h = absurd (ground arith)
  process_date-prepared dates (date (some ms)) w h = cc
  process_date-prepared dates (text s) w h = ground arith
  process_date-prepared dates (other o) w h = cc

  ready-prepared : (dates : Dates) (v : FieldValue O) → is_ready v ≡ true → prepared dates v ≡ v
  ready-prepared dates undefined h = refl
  ready-prepared dates null h = refl
  ready-prepared dates (boolean b) h = refl
  ready-prepared dates (number n) h = refl
  ready-prepared dates (date o) h = absurd (ground arith)
  ready-prepared dates (text s) h = ground arith
  ready-prepared dates (other o) h = refl

  abbrev pub is_date_field : String → FormField O → Bool
  is_date_field name f = f.type == "date" && f.name == name

  abbrev pub done : Values O → FormField O → Bool
  done p f = not (f.type == "date") || is_ready (p f.name)

module _ {O : Type 0} (dates : Dates) (iso-has_time : (ms : ℕ) → has_time (dates.iso ms) ≡ true)
    (day-has_time : (s t : String) → dates.iso_of_day s ≡ some t → has_time t ≡ true) where
  process_text-ready :
      (s : String) (w : FieldValue O) → process_date dates (text s) ≡ some w → is_ready w ≡ true
  process_text-ready s w =
      let Holds = λ (r : Option (FieldValue O)). r ≡ some w → is_ready w ≡ true in
      if-splits Holds (s == "" || has_time s) _ _
        (λ h e. sym (ap is_ready (some-injective _ _ e)) ∙ h)
        (λ h.
          elim-splits Holds (dates.iso_of_day s) _ _ (λ no_day e. absurd (ground arith))
            (λ t known e.
              sym (ap is_ready (some-injective _ _ e)) ∙ ground (arith, day-has_time s t known)))

  process_date-ready : (v w : FieldValue O) → process_date dates v ≡ some w → is_ready w ≡ true
  process_date-ready undefined w e = ground arith
  process_date-ready null w e = ground arith
  process_date-ready (boolean b) w e = ground arith
  process_date-ready (number n) w e = ground arith
  process_date-ready (date (some ms)) w e = ground (arith, iso-has_time ms)
  process_date-ready (date none) w e = absurd (ground arith)
  process_date-ready (text s) w e = process_text-ready s w e
  process_date-ready (other o) w e = ground arith

  -- One round of the loop over the fields.
  process_values-cases :
      (f : FormField O) (fs : List (FormField O)) (values p : Values O)
      → process_values dates (f ∷ fs) values ≡ some p
      → (((f.type == "date") ≡ false) × (process_values dates fs values ≡ some p))
        ⊎ (((f.type == "date") ≡ true)
            × ((w : FieldValue O) × (process_date dates (values f.name) ≡ some w)
                × (process_values dates fs (put f.name w values) ≡ some p)))
  unfolding process_values
  process_values-cases f fs values p =
      let Holds = λ (r : Option (Values O)).
        r ≡ some p
        → (((f.type == "date") ≡ false) × (process_values dates fs values ≡ some p))
          ⊎ (((f.type == "date") ≡ true)
              × ((w : FieldValue O) × (process_date dates (values f.name) ≡ some w)
                  × (process_values dates fs (put f.name w values) ≡ some p))) in
      if-splits Holds (f.type == "date") _ _
        (λ h.
          elim-splits Holds (process_date dates (values f.name)) _ _
            (λ none_left e. absurd (ground arith)) (λ w known e. inr (h, (w, known, e))))
        (λ h e. inl (h, e))

  -- A value that is ready stays so.
  process_values-keeps :
      (fs : List (FormField O)) (values p : Values O) (name : String)
      → process_values dates fs values ≡ some p
      → is_ready (values name) ≡ true
      → is_ready (p name) ≡ true
  unfolding process_values
  process_values-keeps [] values p name e h =
      ap (λ q. is_ready (q name)) (sym (some-injective _ _ e)) ∙ h
  process_values-keeps (f ∷ fs) values p name e h = elim (process_values-cases f fs values p e) [
    | inl (skip, rest) ↦ process_values-keeps fs values p name rest h
    | inr (is_date, (w, known, rest)) ↦ process_values-keeps fs (put f.name w values) p name rest (
        if-holds (λ v. is_ready v ≡ true) (f.name == name) w (values name)
          (process_date-ready (values f.name) w known) h)
  ]

  pub process_values-done :
      (fs : List (FormField O)) (values p : Values O)
      → process_values dates fs values ≡ some p
      → every (done p) fs ≡ true
  process_values-done [] values p e = refl
  process_values-done (f ∷ fs) values p e = elim (process_values-cases f fs values p e) [
    | inl (skip, rest) ↦ rw skip (process_values-done fs values p rest)
    | inr (is_date, (w, known, rest)) ↦
        let own : put f.name w values f.name ≡ w = rw (==_refl f.name) refl in
        let ready =
          process_values-keeps fs (put f.name w values) p f.name rest
            (ap is_ready own ∙ process_date-ready (values f.name) w known) in
        ground (arith, ready, process_values-done fs (put f.name w values) p rest)
  ]

  abbrev sent_value : List (FormField O) → Values O → String → FieldValue O
  sent_value fs values name =
      if any_of (is_date_field name) fs then prepared dates (values name) else values name

  -- What is sent in a field: its date, prepared, or its value as it is.
  pub process_values-sent :
      (fs : List (FormField O)) (values p : Values O) (name : String)
      → process_values dates fs values ≡ some p
      → p name ≡ sent_value fs values name
  unfolding process_values
  process_values-sent [] values p name e = ap (λ q. q name) (sym (some-injective _ _ e))
  process_values-sent (f ∷ fs) values p name e = elim (process_values-cases f fs values p e) [
    | inl (skip, rest) ↦ rw skip (process_values-sent fs values p name rest)
    | inr (is_date, (w, known, rest)) ↦
        let after = process_values-sent fs (put f.name w values) p name rest in
        elim (Bool-cases (f.name == name)) [
          | inr differs ↦ rw (is_date, differs) (after ∙ rw differs refl)
          | inl same ↦
              let at : f.name ≡ name = (eq_iff f.name name).0 same in
              let ready = process_date-ready (values f.name) w known in
              let settled : (if any_of (is_date_field name) fs then prepared dates w else w) ≡ w =
                if-splits (λ v. v ≡ w) (any_of (is_date_field name) fs) (prepared dates w) w
                  (λ h. ready-prepared dates w ready) (λ h. refl) in
              rw (is_date, same)
                (after
                  ∙ rw same settled
                  ∙ process_date-prepared dates (values f.name) w known
                  ∙ ap (λ n. prepared dates (values n)) at)
        ]
  ]

  -- The loop throws exactly if some date field holds a date that does.
  pub process_values-good :
      (fs : List (FormField O)) (values p : Values O)
      → process_values dates fs values ≡ some p
      → any_of (throws dates values) fs ≡ false
  process_values-good [] values p e = refl
  process_values-good (f ∷ fs) values p e = elim (process_values-cases f fs values p e) [
    | inl (skip, rest) ↦ rw skip (process_values-good fs values p rest)
    | inr (is_date, (w, known, rest)) ↦
        let good = process_date-good dates (values f.name) w known in
        let ready = ready-good dates w (process_date-ready (values f.name) w known) in
        rw (is_date, good)
          (sym (throws-put dates f.name w values good ready fs)
            ∙ process_values-good fs (put f.name w values) p rest)
  ]

  pub process_values-bad :
      (fs : List (FormField O)) (values : Values O)
      → process_values dates fs values ≡ none
      → any_of (throws dates values) fs ≡ true
  unfolding process_values
  process_values-bad [] values e = absurd (ground arith)
  process_values-bad (f ∷ fs) values e = elim (Bool-cases (f.type == "date")) [
    | inr skip ↦ rw skip (process_values-bad fs values (sym (rw skip refl) ∙ e))
    | inl is_date ↦ elim (Option-cases (process_date dates (values f.name))) [
      | inl none_left ↦ rw (is_date, process_date-bad dates (values f.name) none_left) refl
      | inr (w, known) ↦
          let good = process_date-good dates (values f.name) w known in
          let ready = ready-good dates w (process_date-ready (values f.name) w known) in
          rw (is_date, good)
            (sym (throws-put dates f.name w values good ready fs)
              ∙ process_values-bad fs (put f.name w values) (sym (rw (is_date, known) refl) ∙ e))
    ]
  ]
