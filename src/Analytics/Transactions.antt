-- ===== src/Analytics/Transactions.antt =====
-- The transaction charts of frontend-dashboard/src/hooks/useAnalytics.ts, but for the volume.
use synkro.Base.{ℕ, String, List, [], ◌∷◌}
use synkro.Analytics.Values.{
  Value, text, Fields, field, end, BuiltIns, arr, obj, chart, num, property, opt_field, or_value,
}
use synkro.Analytics.Methods.{Method, or_option, restructured}

module _ {N : Type 0} (js : BuiltIns N) where
  abbrev pub transaction_metrics_sample : Value N
  transaction_metrics_sample =
      chart
        (arr (
          obj (("metric", text "Processed") ∷ ("value", num js 85) ∷ [])
          ∷ obj (("metric", text "Pending") ∷ ("value", num js 12) ∷ [])
          ∷ obj (("metric", text "Failed") ∷ ("value", num js 3) ∷ [])
          ∷ []))
        (obj (("type", text "pie") ∷ ("dimension", text "metric") ∷ ("metric", text "value") ∷ []))

  abbrev pub transaction_patterns_sample : Value N
  transaction_patterns_sample =
      chart
        (arr (
          obj (("hour", text "00:00") ∷ ("count", num js 20) ∷ [])
          ∷ obj (("hour", text "04:00") ∷ ("count", num js 10) ∷ [])
          ∷ obj (("hour", text "08:00") ∷ ("count", num js 50) ∷ [])
          ∷ obj (("hour", text "12:00") ∷ ("count", num js 80) ∷ [])
          ∷ obj (("hour", text "16:00") ∷ ("count", num js 70) ∷ [])
          ∷ obj (("hour", text "20:00") ∷ ("count", num js 40) ∷ [])
          ∷ []))
        (obj (("type", text "line") ∷ ("xAxis", text "hour") ∷ ("yAxis", text "count") ∷ []))

  abbrev pub transaction_clusters_sample : Value N
  transaction_clusters_sample =
      chart
        (arr (
          obj (("group", text "Group A") ∷ ("value", num js 45) ∷ [])
          ∷ obj (("group", text "Group B") ∷ ("value", num js 25) ∷ [])
          ∷ obj (("group", text "Group C") ∷ ("value", num js 15) ∷ [])
          ∷ obj (("group", text "Group D") ∷ ("value", num js 15) ∷ [])
          ∷ []))
        (obj (("type", text "pie") ∷ ("dimension", text "group") ∷ ("metric", text "value") ∷ []))

  abbrev pub transaction_flow_sample : Value N
  transaction_flow_sample =
      chart
        (arr (
          obj (
            ("source", text "Initiation")
            ∷ ("target", text "Processing")
            ∷ ("value", num js 100)
            ∷ [])
          ∷ obj (
              ("source", text "Processing")
              ∷ ("target", text "Validation")
              ∷ ("value", num js 90)
              ∷ [])
          ∷ obj (
              ("source", text "Validation")
              ∷ ("target", text "Approval")
              ∷ ("value", num js 80)
              ∷ [])
          ∷ obj (
              ("source", text "Approval")
              ∷ ("target", text "Completion")
              ∷ ("value", num js 75)
              ∷ [])
          ∷ []))
        (obj (
          ("type", text "sankey")
          ∷ ("nodes", text "source")
          ∷ ("source", text "source")
          ∷ ("target", text "target")
          ∷ ("value", text "value")
          ∷ []))

  abbrev pub axis_metadata : Value N → Fields N
  axis_metadata response =
      opt_field "xAxis" (or_option js (property "x_axis" response) (property "xAxis" response)) (
        opt_field "yAxis" (or_option js (property "y_axis" response) (property "yAxis" response))
          end)

  abbrev pub grouped_metadata : Value N → Fields N
  grouped_metadata response =
      opt_field "groupBy"
        (or_option js (property "group_by" response) (property "groupBy" response))
        (axis_metadata response)

  abbrev pub pie_metadata : Value N → Fields N
  pie_metadata response =
      opt_field "dimension" (property "dimension" response)
        (opt_field "metric" (property "metric" response) end)

  abbrev pub flow_metadata : Value N → Fields N
  flow_metadata response = opt_field "nodes" (property "nodes" response) (
      field "source" (or_value js (property "source" response) (text "source")) (
        field "target" (or_value js (property "target" response) (text "target"))
          (field "value" (or_value js (property "value" response) (text "value")) end)))

  abbrev pub movements : List (String × ℕ × ℕ)
  movements =
      ("Electronics", 320, 280)
      ∷ ("Clothing", 240, 220)
      ∷ ("Home Goods", 180, 170)
      ∷ ("Books", 120, 90)
      ∷ []

  -- two rows for each category
  abbrev pub movement_rows : List (String × ℕ × ℕ) → List (Value N)
  movement_rows [] = []
  movement_rows ((category, inbound, outbound) ∷ ms) =
      obj (("category", text category) ∷ ("type", text "Inbound") ∷ ("value", num js inbound) ∷ [])
      ∷ obj (
          ("category", text category) ∷ ("type", text "Outbound") ∷ ("value", num js outbound) ∷ [])
      ∷ movement_rows ms

  abbrev pub stock_movements_sample : Value N
  stock_movements_sample = chart (arr (movement_rows movements)) (
      obj (
        ("type", text "stacked-bar")
        ∷ ("xAxis", text "category")
        ∷ ("yAxis", text "value")
        ∷ ("groupBy", text "type")
        ∷ []))

  abbrev pub get_stock_movements : Method N
  get_stock_movements =
      restructured js "/api/analytics/transactions/stock-movements" grouped_metadata
        stock_movements_sample

  abbrev pub get_transaction_metrics : Method N
  get_transaction_metrics =
      restructured js "/api/analytics/transactions/metrics" pie_metadata transaction_metrics_sample

  abbrev pub get_transaction_patterns : Method N
  get_transaction_patterns =
      restructured js "/api/analytics/transactions/patterns" axis_metadata
        transaction_patterns_sample

  abbrev pub get_transaction_clusters : Method N
  get_transaction_clusters =
      restructured js "/api/analytics/transactions/clusters" pie_metadata
        transaction_clusters_sample

  abbrev pub get_transaction_flow : Method N
  get_transaction_flow =
      restructured js "/api/analytics/transactions/flow" flow_metadata transaction_flow_sample
