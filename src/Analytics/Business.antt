-- ===== src/Analytics/Business.antt =====
-- The business charts of frontend-dashboard/src/hooks/useAnalytics.ts, given as the server answers.
use synkro.Base.{[], ◌∷◌}
use synkro.Analytics.Values.{Value, null, text, BuiltIns, arr, obj, chart, num}
use synkro.Analytics.Methods.{Method, direct}

module _ {N : Type 0} (js : BuiltIns N) where
  abbrev pub financial_analytics_sample : Value N
  financial_analytics_sample =
      chart
        (arr (
          obj (
            ("quarter", text "Q1")
            ∷ ("revenue", num js 15000)
            ∷ ("expenses", num js 12000)
            ∷ ("profit", num js 3000)
            ∷ [])
          ∷ obj (
              ("quarter", text "Q2")
              ∷ ("revenue", num js 18000)
              ∷ ("expenses", num js 13500)
              ∷ ("profit", num js 4500)
              ∷ [])
          ∷ obj (
              ("quarter", text "Q3")
              ∷ ("revenue", num js 21000)
              ∷ ("expenses", num js 15000)
              ∷ ("profit", num js 6000)
              ∷ [])
          ∷ obj (
              ("quarter", text "Q4")
              ∷ ("revenue", num js 25000)
              ∷ ("expenses", num js 17500)
              ∷ ("profit", num js 7500)
              ∷ [])
          ∷ []))
        (obj (("type", text "combo") ∷ ("xAxis", text "quarter") ∷ ("yAxis", text "revenue") ∷ []))

  abbrev pub revenue_analysis_sample : Value N
  revenue_analysis_sample =
      chart
        (arr (
          obj (("category", text "Product A") ∷ ("revenue", num js 28000) ∷ [])
          ∷ obj (("category", text "Product B") ∷ ("revenue", num js 22000) ∷ [])
          ∷ obj (("category", text "Product C") ∷ ("revenue", num js 18000) ∷ [])
          ∷ obj (("category", text "Product D") ∷ ("revenue", num js 12000) ∷ [])
          ∷ []))
        (obj
          (("type", text "pie") ∷ ("dimension", text "category") ∷ ("metric", text "revenue") ∷ []))

  abbrev pub hierarchical_data_sample : Value N
  hierarchical_data_sample =
      chart
        (arr (
          obj (("from", text "Company") ∷ ("to", text "Division A") ∷ ("value", num js 50) ∷ [])
          ∷ obj (("from", text "Company") ∷ ("to", text "Division B") ∷ ("value", num js 30) ∷ [])
          ∷ obj (("from", text "Company") ∷ ("to", text "Division C") ∷ ("value", num js 20) ∷ [])
          ∷ obj (("from", text "Division A") ∷ ("to", text "Product X") ∷ ("value", num js 30) ∷ [])
          ∷ obj (("from", text "Division A") ∷ ("to", text "Product Y") ∷ ("value", num js 20) ∷ [])
          ∷ []))
        (obj (
          ("type", text "sankey")
          ∷ ("nodes", text "from")
          ∷ ("source", text "from")
          ∷ ("target", text "to")
          ∷ ("value", text "value")
          ∷ []))

  abbrev pub forecast_data_sample : Value N
  forecast_data_sample =
      chart
        (arr (
          obj (("month", text "Jan") ∷ ("actual", num js 8500) ∷ ("forecast", num js 8000) ∷ [])
          ∷ obj (("month", text "Feb") ∷ ("actual", num js 9000) ∷ ("forecast", num js 8800) ∷ [])
          ∷ obj (("month", text "Mar") ∷ ("actual", num js 9500) ∷ ("forecast", num js 9200) ∷ [])
          ∷ obj (("month", text "Apr") ∷ ("actual", num js 9800) ∷ ("forecast", num js 9600) ∷ [])
          ∷ obj (("month", text "May") ∷ ("actual", num js 10200) ∷ ("forecast", num js 10000) ∷ [])
          ∷ obj (("month", text "Jun") ∷ ("actual", null) ∷ ("forecast", num js 10500) ∷ [])
          ∷ obj (("month", text "Jul") ∷ ("actual", null) ∷ ("forecast", num js 11000) ∷ [])
          ∷ []))
        (obj (("type", text "line") ∷ ("xAxis", text "month") ∷ ("yAxis", text "actual") ∷ []))

  abbrev pub trend_predictions_sample : Value N
  trend_predictions_sample =
      chart
        (arr (
          obj (("period", text "2022-Q4") ∷ ("value", num js 100) ∷ [])
          ∷ obj (("period", text "2023-Q1") ∷ ("value", num js 115) ∷ [])
          ∷ obj (("period", text "2023-Q2") ∷ ("value", num js 130) ∷ [])
          ∷ obj (("period", text "2023-Q3") ∷ ("value", num js 142) ∷ [])
          ∷ obj (("period", text "2023-Q4") ∷ ("value", num js 160) ∷ [])
          ∷ obj (("period", text "2024-Q1") ∷ ("value", num js 175) ∷ [])
          ∷ []))
        (obj (("type", text "area") ∷ ("xAxis", text "period") ∷ ("yAxis", text "value") ∷ []))

  abbrev pub get_financial_analytics : Method N
  get_financial_analytics = direct js "/api/analytics/business/financial" financial_analytics_sample

  abbrev pub get_revenue_analysis : Method N
  get_revenue_analysis = direct js "/api/analytics/business/revenue" revenue_analysis_sample

  abbrev pub get_hierarchical_data : Method N
  get_hierarchical_data = direct js "/api/analytics/business/hierarchical" hierarchical_data_sample

  abbrev pub get_forecast_data : Method N
  get_forecast_data = direct js "/api/analytics/business/forecast" forecast_data_sample

  abbrev pub get_trend_predictions : Method N
  get_trend_predictions = direct js "/api/analytics/business/trends" trend_predictions_sample
