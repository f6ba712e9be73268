-- ===== src/Analytics/Orders.antt =====
-- The order charts of frontend-dashboard/src/hooks/useAnalytics.ts, and what their methods make of an
-- answer that has counts by status instead of the chart.
pub mod Counts
use Prim.Native.Nat.{Ordering}
use synkro.Base.Sorting.{sort}
use synkro.Analytics.Validation.{has_counts}
use synkro.Base.{
  ℕ, ◌+◌, String, Bool, not, ◌&&◌, Option, none, some, List, [], ◌∷◌, map, if◌then◌else◌, Result,
  ok,
}
use synkro.Analytics.Values.{
  Value, number, text, object, Fields, field, end, BuiltIns, ◌>>=◌, arr, obj, chart, num, get_field,
  set_text, delete_field, property, get_property, opt_field, first_item, holds, has_items, is_type,
  or_value,
}
use synkro.Analytics.Methods.{Method, array_items, update_metadata, set_data, if_data, validated}
use synkro.Analytics.Validation.{validate_chart_data}

module _ {N : Type 0} (js : BuiltIns N) where
  abbrev pub order_flow_sample : Value N
  order_flow_sample =
      chart
        (arr (
          obj
            (("source", text "pending") ∷ ("target", text "processing") ∷ ("value", num js 5) ∷ [])
          ∷ obj (
              ("source", text "processing")
              ∷ ("target", text "shipped")
              ∷ ("value", num js 15)
              ∷ [])
          ∷ obj
              (("source", text "shipped") ∷ ("target", text "delivered") ∷ ("value", num js 8) ∷ [])
          ∷ obj (
              ("source", text "delivered")
              ∷ ("target", text "completed")
              ∷ ("value", num js 87)
              ∷ [])
          ∷ []))
        (obj (
          ("type", text "sankey")
          ∷ ("source", text "source")
          ∷ ("target", text "target")
          ∷ ("value", text "value")
          ∷ []))

  abbrev pub order_pipeline_sample : Value N
  order_pipeline_sample =
      chart
        (arr (
          obj (("stage", text "New") ∷ ("count", num js 120) ∷ [])
          ∷ obj (("stage", text "Processing") ∷ ("count", num js 80) ∷ [])
          ∷ obj (("stage", text "Shipped") ∷ ("count", num js 60) ∷ [])
          ∷ obj (("stage", text "Delivered") ∷ ("count", num js 40) ∷ [])
          ∷ obj (("stage", text "Completed") ∷ ("count", num js 20) ∷ [])
          ∷ []))
        (obj
          (("type", text "funnel") ∷ ("dimension", text "stage") ∷ ("metric", text "count") ∷ []))

  abbrev pub order_lifecycle_sample : Value N
  order_lifecycle_sample =
      chart
        (arr (
          obj (
            ("status", text "Processing")
            ∷ ("time", number (js.hundredths 1770))
            ∷ ("count", num js 15)
            ∷ [])
          ∷ obj (
              ("status", text "Shipped")
              ∷ ("time", number (js.hundredths 1910))
              ∷ ("count", num js 8)
              ∷ [])
          ∷ obj (
              ("status", text "Pending")
              ∷ ("time", number (js.hundredths 2510))
              ∷ ("count", num js 5)
              ∷ [])
          ∷ obj (
              ("status", text "Delivered")
              ∷ ("time", number (js.hundredths 6030))
              ∷ ("count", num js 87)
              ∷ [])
          ∷ []))
        (obj (
          ("type", text "funnel")
          ∷ ("dimension", text "status")
          ∷ ("metric", text "count")
          ∷ ("metrics", arr (text "count" ∷ text "time" ∷ []))
          ∷ []))

  abbrev pub get_order_pipeline : Method N
  get_order_pipeline = validated js "/api/analytics/orders/pipeline" order_pipeline_sample

  abbrev pub get_order_lifecycle : Method N
  get_order_lifecycle = validated js "/api/analytics/orders/lifecycle" order_lifecycle_sample

  -- an item's field, which `null` has not
  abbrev pub each_property : String → List (Value N) → Result (List (Option (Value N)))
  each_property k [] = ok []
  each_property k (v ∷ vs) =
      get_property k (some v) >>= λ p. each_property k vs >>= λ ps. ok (p ∷ ps)

  -- `data.find((item) => item.status === status)?.count || 0`
  abbrev pub count_of : Option (Value N) → List (Value N) → Value N
  count_of status [] = num js 0
  count_of status (v ∷ vs) =
      if js.strictly_equal (property "status" v) status
      then or_value js (property "count" v) (num js 0)
      else count_of status vs

  abbrev pub flow_value : Value N → Value N → Value N
  flow_value a b =
      let least : Value N = number (js.minimum a b) in if js.positive least then least else num js 5

  -- a link from each status to the next one
  unfoldable pub flow_links : List (Value N) → List (Option (Value N)) → List (Value N)
  flow_links vs [] = []
  flow_links vs (s ∷ []) = []
  flow_links vs (s ∷ t ∷ ss) =
      object (
        opt_field "source" s
          (opt_field "target" t (field "value" (flow_value (count_of s vs) (count_of t vs)) end)))
      ∷ flow_links vs (t ∷ ss)

  abbrev pub by_count_descending : Value N → Value N → Ordering
  by_count_descending a b = js.compare_values (property "count" b) (property "count" a)

  -- Items that are `null` make the sorting throw, or the reading of the statuses.
  unfoldable pub flow_data : Value N → Result (Value N)
  unfolding flow_links
  flow_data dat = do
    vs ← array_items dat
    statuses ← each_property "status" (sort by_count_descending vs)
    ok (arr (flow_links vs statuses))

  -- `!data[0].source && !data[0].target`
  abbrev pub has_no_links : Value N → Bool
  has_no_links v =
      not (holds js (elim (first_item v) [ none ↦ none | some u ↦ property "source" u ]))
      && not (holds js (elim (first_item v) [ none ↦ none | some u ↦ property "target" u ]))

  abbrev pub sankey_metadata : Fields N → Fields N
  sankey_metadata meta = delete_field "metric" (
      delete_field "dimension" (
        set_text "value" "value" (
          set_text "target" "target" (set_text "source" "source" (set_text "type" "sankey" meta)))))

  unfoldable pub use_flow : Value N → Value N → Result (Value N)
  unfolding flow_data
  use_flow dat response =
      if holds js (property "metadata" response)
      then (has_counts js dat >>= λ counts.
          if counts && has_no_links dat
          then (flow_data dat >>= λ links.
              update_metadata (λ meta. ok (sankey_metadata meta)) (set_data links response)
              >>= λ done. validate_chart_data js done)
          else validate_chart_data js response)
      else validate_chart_data js response

  abbrev pub get_order_flow : Method N
  get_order_flow = record {
    path = "/api/analytics/orders/flow";
    on_response = if_data js use_flow order_flow_sample;
    on_error = validate_chart_data js order_flow_sample;
  }
