-- ===== src/Backoffice/Forms.antt =====
-- frontend-dashboard/src/backoffice/hooks/useFormActions.ts: the values, errors and touched fields of a
-- form, its validation and its submission. `toISOString` of a `Date` that is valid and of the first moment of a day,
-- `none` where it throws for a text that is no day, are built in, and parameters.
pub mod Laws
pub mod Sending
pub mod Submit
use Prim.Native.String.{[], ◌∷◌}
use synkro.Base.{
  ℕ, String, code, Bool, true, false, not, ◌&&◌, ◌||◌, Option, none, some, List, ◌++◌, ◌==◌, eqb,
  if◌then◌else◌, truthy, given, or_else, template, find, any_of, map, Failure, failure, Result, ok,
  err,
}

-- A value of a field; a `Date` is its number of milliseconds, or none for an invalid date.
pub data FieldValue (O : Type 0) : Type 0 where
  undefined null : FieldValue O
  boolean : Bool → FieldValue O
  number : ℕ → FieldValue O
  date : Option ℕ → FieldValue O
  text : String → FieldValue O
  other : O → FieldValue O

pub record FormField (O : Type 0) : Type 0 where
  pub name : String
  pub label : String
  pub type : String
  pub required : Bool
  pub hidden : Bool
  pub validation : Option (FieldValue O → Option String)

abbrev pub Values : Type 0 → Type 0
Values O = String → FieldValue O

-- `{ ...values, [name]: value }`
abbrev pub put : {A : Type 0} → String → A → (String → A) → String → A
put name a f other_name = if name == other_name then a else f other_name

-- The state of the form, with what it has submitted and invalidated.
pub record Form (O : Type 0) : Type 0 where
  pub values : Values O
  pub errors : String → Option String
  pub touched : String → Bool
  pub submitted : List (Values O)
  pub invalidated : List String

pub record Dates : Type 0 where
  pub iso : ℕ → String
  pub iso_of_day : String → Option String

-- `value === undefined || value === null || value === ""`
abbrev pub is_blank : {O : Type 0} → FieldValue O → Bool
is_blank undefined = true
is_blank null = true
is_blank (text s) = s == ""
is_blank _ = false

-- `s.includes("T")`
abbrev pub has_time : String → Bool
has_time [] = false
has_time (c ∷ s) = eqb (code c) b'T' || has_time s

module _ {O : Type 0} (fields : List (FormField O)) where
  unfoldable pub validate_field : String → FieldValue O → Option String
  validate_field name value = elim (find (λ f. f.name == name) fields) [
    | none ↦ none
    | some f ↦
        if f.required && is_blank value
        then some (template f.label " is required" "")
        else elim f.validation [ none ↦ none | some check ↦ check value ]
  ]

  -- one field of the loop of `validateForm`
  abbrev pub check_field :
      Values O → FormField O → (String → Option String) × Bool → (String → Option String) × Bool
  check_field values f (errors, valid) =
      if f.hidden && not f.required
      then (errors, valid)
      else if given (validate_field f.name (values f.name))
      then (put f.name (validate_field f.name (values f.name)) errors, false)
      else (errors, valid)

  abbrev pub check_fields :
      Values O
      → List (FormField O)
      → (String → Option String) × Bool
      → (String → Option String) × Bool
  check_fields values List.[] found = found
  check_fields values (List.◌∷◌ f fs) found = check_fields values fs (check_field values f found)

  -- `validateForm`: the errors that it sets, and its answer
  unfoldable pub validate_form : Values O → (String → Option String) × Bool
  validate_form values = check_fields values fields (λ name. none, true)

  unfoldable pub handle_value_change : String → FieldValue O → Form O → Form O
  handle_value_change name value s = record s {
    values = put name value s.values;
    touched = put name true s.touched;
    errors = put name (some (or_else (validate_field name value) "")) s.errors;
  }

-- `handleChange` of an input: its value and its `checked`, where `to_number` is `Number`.
abbrev pub changed_value :
    {O : Type 0} → (String → FieldValue O) → String → String → Bool → FieldValue O
changed_value to_number type value checked =
    if type == "checkbox"
    then boolean checked
    else if type == "number"
    then (if value == "" then text "" else to_number value)
    else text value

unfoldable pub handle_change :
    {O : Type 0}
    → (String → FieldValue O)
    → List (FormField O)
    → String
    → String
    → String
    → Bool
    → Form O
    → Form O
unfolding handle_value_change
handle_change to_number fields name type value checked s =
    handle_value_change fields name (changed_value to_number type value checked) s

-- What happens when `initialValues` change.
abbrev pub new_initial_values : {O : Type 0} → Values O → Form O → Form O
new_initial_values initial s = record s { values = initial }

-- The value of one date field, ready to be sent.
abbrev pub process_date : {O : Type 0} → Dates → FieldValue O → Option (FieldValue O)
process_date dates (date (some ms)) = some (text (dates.iso ms))
process_date dates (date none) = none
process_date dates (text s) =
    if s == "" || has_time s
    then some (text s)
    else elim (dates.iso_of_day s) [ none ↦ none | some t ↦ some (text t) ]
process_date dates value = some value

-- `none` where a date throws
unfoldable pub process_values :
    {O : Type 0} → Dates → List (FormField O) → Values O → Option (Values O)
process_values dates List.[] values = some values
process_values dates (List.◌∷◌ f fs) values =
    if f.type == "date"
    then elim (process_date dates (values f.name)) [
      | none ↦ none
      | some value ↦ process_values dates fs (put f.name value values)
    ]
    else process_values dates fs values

module _ {O : Type 0} (dates : Dates) (fields : List (FormField O)) (query_keys : List String) where
  -- what follows where the form is valid
  unfoldable pub send : Form O → Result (Unit {0}) × Form O
  unfolding process_values
  send s = elim (process_values dates fields s.values) [
    | none ↦ (err (failure "Invalid time value"), s)
    | some processed ↦ (
      ok tt,
      record s {
        submitted = s.submitted ++ List.◌∷◌ processed List.[];
        invalidated = s.invalidated ++ query_keys;
      },
    )
  ]

  unfoldable pub handle_submit : Form O → Result (Unit {0}) × Form O
  unfolding validate_form send
  handle_submit s =
      let (errors, valid) = validate_form fields s.values in
      let s' : Form O = record s {
        touched = λ name. any_of (λ f. f.name == name) fields;
        errors = errors;
      } in
      if valid then send s' else (ok tt, s')

abbrev pub reset_form : {O : Type 0} → Values O → Form O → Form O
reset_form initial s = record s { values = initial; errors = λ name. none; touched = λ name. false }
