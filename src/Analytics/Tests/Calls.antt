-- ===== src/Analytics/Tests/Calls.antt =====
-- Calls and the validation of charts at concrete inputs.
use synkro.Base.{
  All, ℕ, String, true, false, Option, none, some, [], ◌∷◌, ◌≡◌, refl, failure, ok, err,
}
use synkro.Http.{FetchCall, Outcome, failed, responded}
use synkro.Http.Hooks.{new_hook}
use synkro.Analytics.{get_order_flow, get_stock_level_trends, call}
use synkro.Analytics.Values.{
  Value, text, object, fields, Fields, get_field, set_field, delete_field, copy_fields, json_copy,
}
use synkro.Analytics.Validation.{validate_chart_data}
use synkro.Analytics.Validation.Laws.{Has}
use synkro.Analytics.Validation.Unchanged.{IsReady, validate-ready}
use synkro.Analytics.Methods.{if_data}
use synkro.Analytics.Calls.{run_call, call-ends, call-IsFilledIn}
use synkro.Analytics.Tests.{
  js, inputs, dates, numbers, auth, codec, browser, service, window, counts, sankey_of_counts,
  answer_fields,
}

-- no route to the server
abbrev unreachable : FetchCall (Value ℕ) → Outcome (Value ℕ)
unreachable c = failed (failure "Failed to fetch")

abbrev pub answered : FetchCall (Value ℕ) → Outcome (Value ℕ)
answered c = responded (record {
  status = 200;
  content_type_json = true;
  json = ok (object answer_fields);
  text = err (failure "not read");
  message = none;
})

abbrev pub plain_url : String → Option (Unit {0}) → String
plain_url address params = address

abbrev pub show : ℕ → String
show n = "n"

call-ends_example :
    (v : Value ℕ) × ((run_call js inputs dates numbers auth codec browser plain_url show service
        unreachable get_order_flow new_hook window).0
      ≡ ok v)
    × ((run_call js inputs dates numbers auth codec browser plain_url show service unreachable
          get_order_flow new_hook window).1
        ≡ record new_hook { loading = false; error = none })
call-ends_example =
    call-ends js inputs dates numbers auth codec browser plain_url show service unreachable
      get_order_flow new_hook window

-- the metadata that the counts end with
abbrev pie_metadata : Fields ℕ
pie_metadata = fields (
    ("type", text "pie")
    ∷ ("value", text "count")
    ∷ ("dimension", text "status")
    ∷ ("metric", text "count")
    ∷ [])

abbrev pie_answer : Value ℕ
pie_answer = object (set_field "metadata" (object pie_metadata) (copy_fields js answer_fields))

counts_validated : validate_chart_data js (object answer_fields) ≡ ok pie_answer
unfolding validate_chart_data json_copy get_field set_field delete_field
counts_validated = refl

counts_drawn :
    (run_call js inputs dates numbers auth codec browser plain_url show service answered
      get_stock_level_trends new_hook window).0
    ≡ ok pie_answer
unfolding call validate_chart_data json_copy get_field set_field if_data delete_field
counts_drawn = refl

at_pie :
    get_field "metadata" (set_field "metadata" (object pie_metadata) (copy_fields js answer_fields))
    ≡ some (object pie_metadata)
unfolding get_field set_field json_copy
at_pie = refl

pie_typed : get_field "type" pie_metadata ≡ some (text "pie")
unfolding get_field
pie_typed = refl

call-IsFilledIn_example : All (Has js pie_metadata) ("dimension" ∷ "metric" ∷ [])
call-IsFilledIn_example =
    call-IsFilledIn js inputs dates numbers auth codec browser plain_url show service answered
      get_stock_level_trends new_hook window
      (set_field "metadata" (object pie_metadata) (copy_fields js answer_fields)) pie_metadata "pie"
      refl counts_drawn at_pie pie_typed refl

at_sankey : get_field "metadata" answer_fields ≡ some (object sankey_of_counts)
unfolding get_field
at_sankey = refl

sankey_typed : Has js sankey_of_counts "type"
unfolding get_field
sankey_typed = refl

abbrev pie_fields : Fields ℕ
pie_fields = fields (("data", counts) ∷ ("metadata", object pie_metadata) ∷ [])

pie-IsReady : IsReady js pie_fields pie_metadata
unfolding get_field json_copy
pie-IsReady = record {
  finite = refl;
  finite_metadata = refl;
  at_metadata = refl;
  typed = refl;
  no_x_axis = refl;
  no_y_axis = refl;
  no_group_by = refl;
  complete = (refl, (refl, tt));
  no_status = refl;
}

validate-ready_example : validate_chart_data js (object pie_fields) ≡ ok (object pie_fields)
validate-ready_example = validate-ready js pie_fields pie_metadata pie-IsReady
