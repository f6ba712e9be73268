-- ===== src/Analytics/Methods.antt =====
-- What the methods of frontend-dashboard/src/hooks/useAnalytics.ts share: a request, what is made of its
-- response, and the answer where any of this throws.
use synkro.Base.{String, not, ◌&&◌, Option, none, some, if◌then◌else◌, Result, ok, err, List}
use synkro.Analytics.Values.{
  Value, array, object, Fields, field, end, BuiltIns, type_error, ◌>>=◌, get_field, set_field,
  property, opt_field, list_of, holds, value_holds,
}
use synkro.Analytics.Validation.{validate_chart_data}

-- `on_response` is the body of the `try` after the request, `on_error` that of the `catch`.
pub record Method (N : Type 0) : Type 0 where
  pub path : String
  pub on_response : Value N → Result (Value N)
  pub on_error : Result (Value N)

-- `try { ... } catch { ... }`
abbrev pub recover : {A : Type 0} → Result A → Result A → Result A
recover (ok a) other = ok a
recover (err e) other = other

module _ {N : Type 0} where
  abbrev pub answer : Method N → Result (Value N) → Result (Value N)
  answer m response = recover (response >>= m.on_response) m.on_error

  -- The items of an array; nothing else has `map`, `reduce` or `sort`.
  abbrev pub array_items : Value N → Result (List (Value N))
  array_items (array vs) = ok (list_of vs)
  array_items _ = err type_error

  -- A change of `response.metadata`. Fields of an array are lost in the copy that follows, and a
  -- primitive value takes none.
  unfoldable pub update_metadata : (Fields N → Result (Fields N)) → Value N → Result (Value N)
  update_metadata change (object fs) = elim (get_field "metadata" fs) [
    | some (object meta) ↦
        change meta >>= λ done. ok (object (set_field "metadata" (object done) fs))
    | some (array vs) ↦ change end >>= λ done. ok (object fs)
    | _ ↦ err type_error
  ]
  update_metadata change _ = err type_error

  -- `response.data = v`
  abbrev pub set_data : Value N → Value N → Value N
  set_data v (object fs) = object (set_field "data" v fs)
  set_data v response = response

module _ {N : Type 0} (js : BuiltIns N) where
  -- `if (response && response.data) { ... } return validateChartData(sample)`
  unfoldable pub if_data :
      (Value N → Value N → Result (Value N)) → Value N → Value N → Result (Value N)
  if_data use_data sample response = elim (property "data" response) [
    | none ↦ validate_chart_data js sample
    | some v ↦ if value_holds js v then use_data v response else validate_chart_data js sample
  ]

  -- a method that validates the response as it comes
  abbrev pub validated : String → Value N → Method N
  validated path sample = record {
    path = path;
    on_response = if_data (λ v response. validate_chart_data js response) sample;
    on_error = validate_chart_data js sample;
  }

  -- `a || b`
  abbrev pub or_option : Option (Value N) → Option (Value N) → Option (Value N)
  or_option a b = if holds js a then a else b

  -- metadata at the top level of the response, moved below `metadata`
  unfoldable pub restructure : (Value N → Fields N) → Value N → Result (Value N)
  restructure metadata_of response =
      if holds js (property "data" response)
        && holds js (property "type" response)
        && not (holds js (property "metadata" response))
      then validate_chart_data js (
          object (
            opt_field "data" (property "data" response) (
              field "metadata"
                (object (opt_field "type" (property "type" response) (metadata_of response))) end)))
      else validate_chart_data js response

  abbrev pub restructured : String → (Value N → Fields N) → Value N → Method N
  restructured path metadata_of sample = record {
    path = path;
    on_response = restructure metadata_of;
    on_error = validate_chart_data js sample;
  }

  -- a method that gives what the server answers
  abbrev pub direct : String → Value N → Method N
  direct path sample = record { path = path; on_response = ok; on_error = ok sample }
