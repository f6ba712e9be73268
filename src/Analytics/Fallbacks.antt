-- ===== src/Analytics/Fallbacks.antt =====
-- frontend-dashboard/src/hooks/useAnalytics.ts: a call of any method ends, and what it answers with where
-- its request fails.
use synkro.Base.{
  String, Bool, true, false, ◌&&◌, ◌||◌, Option, none, some, List, [], ◌∷◌, ◌==◌, if◌then◌else◌,
  ◌≡◌, refl, arith, Result, ok, err, every, inl, inr, Bool-cases,
}
use synkro.Analytics.{
  AnalyticsMethod, method, get_stock_level_trends, get_inventory_distribution,
  get_warehouse_distribution, get_reorder_points, get_order_flow, get_order_pipeline,
  get_order_lifecycle, get_order_volume_trends, get_order_value_distribution, get_order_peak_times,
  get_transaction_volume, get_stock_movements, get_transaction_metrics, get_transaction_patterns,
  get_transaction_clusters, get_transaction_flow, get_real_time_metrics, get_performance_trends,
  get_system_health, get_resource_utilization, get_financial_analytics, get_revenue_analysis,
  get_hierarchical_data, get_forecast_data, get_trend_predictions,
}
use synkro.Analytics.Values.{
  Value, null, object, array, cons, BuiltIns, get_field, set_field, text, holds, json_copy,
}
use synkro.Analytics.Validation.{validate_chart_data}
use synkro.Charts.{DateFns, Numbers}
use synkro.Charts.Volume.{TimeInputs}

abbrev pub value_of_result : {N : Type 0} → Result (Value N) → Value N
value_of_result (ok v) = v
value_of_result (err e) = null

-- The fields of the metadata that frontend-dashboard/src/components/builders/D3Chart.tsx reads to draw a
-- chart of a type, those that have a default in it included; `none` for a type that it does not support.
abbrev pub drawn_fields : String → Option (List String)
drawn_fields t =
    if t == "line" || t == "area" || t == "bar" || t == "combo"
    then some ("xAxis" ∷ "yAxis" ∷ [])
    else if t == "pie" || t == "funnel"
    then some ("dimension" ∷ "metric" ∷ [])
    else if t == "sankey"
    then some ("source" ∷ "target" ∷ "value" ∷ [])
    else if t == "stacked-bar"
    then some ("xAxis" ∷ "yAxis" ∷ "groupBy" ∷ [])
    else if t == "gauge"
    then some []
    else none

module _ {N : Type 0} (js : BuiltIns N) where
  abbrev pub has_rows : Option (Value N) → Bool
  has_rows (some (array (cons v vs))) = true
  has_rows _ = false

  -- `D3Chart` supports the type, and the fields that it reads by their names in the metadata are there.
  abbrev pub draws : Option (Value N) → Bool
  draws (some (object meta)) = elim (get_field "type" meta) [
    | some (text t) ↦ elim (drawn_fields t) [
      | none ↦ false
      | some ks ↦ every (λ k. holds js (get_field k meta)) ks
    ]
    | _ ↦ false
  ]
  draws _ = false

  -- Data that is not empty, with metadata of a chart that can be drawn.
  abbrev pub is_chart : Value N → Bool
  is_chart (object fs) = has_rows (get_field "data" fs) && draws (get_field "metadata" fs)
  is_chart _ = false

module _ {N : Type 0} (js : BuiltIns N) (inputs : TimeInputs N) (dates : DateFns)
    (numbers : Numbers N) where
  abbrev pub fallback : AnalyticsMethod → Result (Value N)
  fallback m = (method js inputs dates numbers m).on_error

  pub fallback-is_chart :
      (m : AnalyticsMethod)
      → (fallback m ≡ ok (value_of_result (fallback m)))
        × (is_chart js (value_of_result (fallback m)) ≡ true)
  unfolding validate_chart_data json_copy get_field set_field
  fallback-is_chart get_stock_level_trends = (refl, refl)
  fallback-is_chart get_inventory_distribution = (refl, refl)
  fallback-is_chart get_warehouse_distribution = (refl, refl)
  fallback-is_chart get_reorder_points = (refl, refl)
  fallback-is_chart get_order_flow = (refl, refl)
  fallback-is_chart get_order_pipeline = elim (Bool-cases (js.parses (text "New"))) [
    | inl p ↦ ground (arith, p)
    | inr p ↦ ground (arith, p)
  ]
  fallback-is_chart get_order_lifecycle = (refl, refl)
  fallback-is_chart get_order_volume_trends = (refl, refl)
  fallback-is_chart get_order_value_distribution = (refl, refl)
  fallback-is_chart get_order_peak_times = (refl, refl)
  fallback-is_chart get_transaction_volume = (refl, refl)
  fallback-is_chart get_stock_movements = (refl, refl)
  fallback-is_chart get_transaction_metrics = (refl, refl)
  fallback-is_chart get_transaction_patterns = (refl, refl)
  fallback-is_chart get_transaction_clusters = (refl, refl)
  fallback-is_chart get_transaction_flow = (refl, refl)
  fallback-is_chart get_real_time_metrics = (refl, refl)
  fallback-is_chart get_performance_trends = (refl, refl)
  fallback-is_chart get_system_health = (refl, refl)
  fallback-is_chart get_resource_utilization = (refl, refl)
  fallback-is_chart get_financial_analytics = (refl, refl)
  fallback-is_chart get_revenue_analysis = (refl, refl)
  fallback-is_chart get_hierarchical_data = (refl, refl)
  fallback-is_chart get_forecast_data = (refl, refl)
  fallback-is_chart get_trend_predictions = (refl, refl)
