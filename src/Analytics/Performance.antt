-- ===== src/Analytics/Performance.antt =====
-- The performance charts of frontend-dashboard/src/hooks/useAnalytics.ts, which are not validated.
use synkro.Base.{
  ℕ, suc, ◌-◌, String, Option, none, some, List, [], ◌∷◌, if◌then◌else◌, Result, ok, err, length,
}
use synkro.Analytics.Values.{
  Value, null, number, text, BuiltIns, type_error, ◌>>=◌, arr, obj, chart, num, property,
  get_property, first_item, value_holds, or_value,
}
use synkro.Analytics.Methods.{Method, array_items}

module _ {N : Type 0} (js : BuiltIns N) where
  abbrev pub real_time_metrics_sample : Value N
  real_time_metrics_sample =
      chart
        (arr (
          obj (
            ("total_orders", num js 0)
            ∷ ("completed_orders", num js 0)
            ∷ ("completion_rate", num js 0)
            ∷ [])
          ∷ []))
        (obj (
          ("type", text "gauge")
          ∷ (
            "metrics",
            arr (text "total_orders" ∷ text "completed_orders" ∷ text "completion_rate" ∷ []),
          )
          ∷ []))

  abbrev pub performance_trends_sample : Value N
  performance_trends_sample =
      chart
        (arr (
          obj (("date", text "2023-01-01") ∷ ("orders", num js 3) ∷ ("completion", num js 0) ∷ [])
          ∷ obj
              (("date", text "2023-01-02") ∷ ("orders", num js 1) ∷ ("completion", num js 10) ∷ [])
          ∷ obj
              (("date", text "2023-01-03") ∷ ("orders", num js 2) ∷ ("completion", num js 15) ∷ [])
          ∷ []))
        (obj (
          ("type", text "line")
          ∷ ("xAxis", text "date")
          ∷ ("yAxis", text "orders")
          ∷ ("metrics", arr (text "orders" ∷ text "completion" ∷ []))
          ∷ []))

  abbrev pub system_health_sample : Value N
  system_health_sample =
      chart
        (arr (
          obj (
            ("total_orders", num js 99)
            ∷ ("completed_orders", num js 84)
            ∷ ("completion_rate", number (js.hundredths 85))
            ∷ [])
          ∷ []))
        (obj (
          ("type", text "gauge")
          ∷ (
            "metrics",
            arr (text "total_orders" ∷ text "completed_orders" ∷ text "completion_rate" ∷ []),
          )
          ∷ []))

  abbrev pub resource_utilization_sample : Value N
  resource_utilization_sample =
      chart
        (arr (
          obj (("resource", text "Orders") ∷ ("used", num js 376) ∷ ("available", num js 624) ∷ [])
          ∷ obj (("resource", text "System") ∷ ("used", num js 72) ∷ ("available", num js 28) ∷ [])
          ∷ []))
        (obj (
          ("type", text "stacked-bar")
          ∷ ("xAxis", text "resource")
          ∷ ("yAxis", text "value")
          ∷ ("groupBy", text "type")
          ∷ []))

  -- `if (response && response.data) { ... } return sample`
  abbrev pub unvalidated : String → (Value N → Result (Value N)) → Value N → Method N
  unvalidated path use_data sample = record {
    path = path;
    on_response = λ response. elim (property "data" response) [
      | none ↦ ok sample
      | some v ↦ if value_holds js v then use_data v else ok sample
    ];
    on_error = ok sample;
  }

  abbrev pub gauge : Value N
  gauge = obj (
      ("type", text "gauge")
      ∷ (
        "metrics",
        arr (text "total_orders" ∷ text "completed_orders" ∷ text "completion_rate" ∷ []),
      )
      ∷ [])

  abbrev pub get_real_time_metrics : Method N
  get_real_time_metrics =
      unvalidated "/api/analytics/performance/metrics" (λ v. ok (chart v gauge))
        real_time_metrics_sample

  -- `data.map(f)`, where `f` reads fields of each item
  unfoldable pub map_items : (ℕ → Value N → Value N) → ℕ → List (Value N) → Result (List (Value N))
  map_items f n [] = ok []
  map_items f n (null ∷ vs) = err type_error
  map_items f n (v ∷ vs) = map_items f (suc n) vs >>= λ us. ok (f n v ∷ us)

  -- `Math.min(high, Math.max(low, v))`
  abbrev pub clamp : Value N → Value N → Value N → Value N
  clamp low high v = number (js.minimum high (number (js.maximum low v)))

  abbrev pub completion : Option (Value N) → Value N
  completion none = num js 0
  completion (some rate) =
      if value_holds js rate then clamp (number (js.negative 100)) (num js 100) rate else num js 0

  abbrev pub trend : ℕ → ℕ → Value N → Value N
  trend total n item = obj (
      ("date", text (js.days_ago (total - n)))
      ∷ ("orders", or_value js (property "total_orders" item) (num js 0))
      ∷ ("completion", completion (property "completion_rate" item))
      ∷ [])

  abbrev pub trend_metadata : Value N
  trend_metadata = obj (
      ("type", text "line")
      ∷ ("xAxis", text "date")
      ∷ ("yAxis", text "orders")
      ∷ ("metrics", arr (text "orders" ∷ text "completion" ∷ []))
      ∷ [])

  unfoldable pub performance_trends : Value N → Result (Value N)
  unfolding map_items
  performance_trends dat = do
    vs ← array_items dat
    rows ← map_items (trend (length vs)) 0 vs
    ok (chart (arr rows) trend_metadata)

  abbrev pub get_performance_trends : Method N
  get_performance_trends =
      unvalidated "/api/analytics/performance/trends" performance_trends performance_trends_sample

  abbrev pub health : ℕ → Value N → Value N
  health n item =
      let total : Value N = or_value js (property "total_orders" item) (num js 1) in
      let rate : Value N =
        or_value js (property "completion_rate" item) (number (js.hundredths 85)) in
      obj (
        ("total_orders", total)
        ∷ ("completed_orders", number (js.round (js.multiply rate total)))
        ∷ ("completion_rate", rate)
        ∷ [])

  unfoldable pub system_health : Value N → Result (Value N)
  unfolding map_items
  system_health dat = do
    vs ← array_items dat
    rows ← map_items health 0 vs
    ok (chart (arr rows) gauge)

  abbrev pub get_system_health : Method N
  get_system_health =
      unvalidated "/api/analytics/performance/health" system_health system_health_sample

  abbrev pub utilization_rate : Option (Value N) → N
  utilization_rate none = js.of_nat 40
  utilization_rate (some rate) =
      if value_holds js rate
      then js.minimum (num js 100)
          (number (js.maximum (num js 0) (number (js.multiply rate (num js 100)))))
      else js.of_nat 40

  abbrev pub resource_row : String → Value N → Value N → Value N
  resource_row name total used = obj (
      ("resource", text name)
      ∷ ("used", used)
      ∷ ("available", number (js.subtract total used))
      ∷ [])

  unfoldable pub resource_utilization : Value N → Result (Value N)
  resource_utilization dat = do
    orders ← get_property "total_orders" (first_item dat)
    completed ← get_property "completed_orders" (first_item dat)
    rate ← get_property "completion_rate" (first_item dat)
    ok (
        chart
          (arr (
            resource_row "Orders" (or_value js orders (num js 1000))
              (or_value js completed (num js 0))
            ∷ resource_row "System" (num js 100) (number (js.round (utilization_rate rate)))
            ∷ []))
          (obj (
            ("type", text "stacked-bar")
            ∷ ("xAxis", text "resource")
            ∷ ("yAxis", text "value")
            ∷ ("groupBy", text "type")
            ∷ [])))

  abbrev pub get_resource_utilization : Method N
  get_resource_utilization =
      unvalidated "/api/analytics/performance/resources" resource_utilization
        resource_utilization_sample
