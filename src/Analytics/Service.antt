-- ===== src/Analytics/Service.antt =====
-- frontend-dashboard/src/services/analytics.service.ts, controllers/analytics.controller.ts, the endpoints of
-- utils/constants.ts and `formatChartData` of utils/helpers.ts. Fields of rows that are `undefined` are
-- left out; names of fields that are no texts make the model throw.
pub mod Formatting
pub mod Groups
use synkro.Base.{
  ℕ, String, Bool, true, false, ◌||◌, Option, none, some, List, [], ◌∷◌, map, if◌then◌else◌,
  Failure, Result, ok, err, all_of,
}
use synkro.Http.{FetchCall, Outcome, ApiService}
use synkro.Http.Calls.{get}
use synkro.Http.BaseService.{new_service, base_perform}
use synkro.Charts.Volume.{field_name}
use synkro.Analytics.{
  AnalyticsMethod, get_stock_level_trends, get_inventory_distribution, get_warehouse_distribution,
  get_reorder_points, get_order_flow, get_order_pipeline, get_order_lifecycle,
  get_order_volume_trends, get_order_value_distribution, get_order_peak_times,
  get_transaction_volume, get_stock_movements, get_transaction_metrics, get_transaction_patterns,
  get_transaction_clusters, get_transaction_flow, get_real_time_metrics, get_performance_trends,
  get_system_health, get_resource_utilization, get_financial_analytics, get_revenue_analysis,
  get_hierarchical_data, get_forecast_data, get_trend_predictions,
}
use synkro.Analytics.Values.{
  Value, null, array, object, Fields, end, BuiltIns, type_error, ◌>>=◌, property, get_property,
  opt_field, list_of, is_type, arr, chart, field,
}

-- `ANALYTICS_CONFIG.endpoints`
abbrev pub endpoint : AnalyticsMethod → String
endpoint get_stock_level_trends = "/api/analytics/inventory/stock-trends"
endpoint get_inventory_distribution = "/api/analytics/inventory/distribution"
endpoint get_warehouse_distribution = "/api/analytics/inventory/warehouse-distribution"
endpoint get_reorder_points = "/api/analytics/inventory/reorder-points"
endpoint get_order_flow = "/api/analytics/orders/flow"
endpoint get_order_pipeline = "/api/analytics/orders/pipeline"
endpoint get_order_lifecycle = "/api/analytics/orders/lifecycle"
endpoint get_order_volume_trends = "/api/analytics/orders/volume-trends"
endpoint get_order_value_distribution = "/api/analytics/orders/value-distribution"
endpoint get_order_peak_times = "/api/analytics/orders/peak-times"
endpoint get_transaction_volume = "/api/analytics/transactions/volume"
endpoint get_stock_movements = "/api/analytics/transactions/stock-movements"
endpoint get_transaction_metrics = "/api/analytics/transactions/metrics"
endpoint get_transaction_patterns = "/api/analytics/transactions/patterns"
endpoint get_transaction_clusters = "/api/analytics/transactions/clusters"
endpoint get_transaction_flow = "/api/analytics/transactions/flow"
endpoint get_real_time_metrics = "/api/analytics/performance/metrics"
endpoint get_performance_trends = "/api/analytics/performance/trends"
endpoint get_system_health = "/api/analytics/performance/health"
endpoint get_resource_utilization = "/api/analytics/performance/resources"
endpoint get_financial_analytics = "/api/analytics/business/financial"
endpoint get_revenue_analysis = "/api/analytics/business/revenue"
endpoint get_hierarchical_data = "/api/analytics/business/hierarchical"
endpoint get_forecast_data = "/api/analytics/business/forecast"
endpoint get_trend_predictions = "/api/analytics/business/trends"

-- what each method of `AnalyticsController` asks for
pub data AnalyticsGroup : Type 0 where
  inventory orders transactions performance business : AnalyticsGroup

abbrev pub group_methods : AnalyticsGroup → List AnalyticsMethod
group_methods inventory =
    get_stock_level_trends ∷ get_inventory_distribution ∷ get_warehouse_distribution
    ∷ get_reorder_points ∷ []
group_methods orders =
    get_order_flow ∷ get_order_pipeline ∷ get_order_lifecycle ∷ get_order_volume_trends
    ∷ get_order_value_distribution ∷ get_order_peak_times ∷ []
group_methods transactions =
    get_transaction_volume ∷ get_stock_movements ∷ get_transaction_metrics
    ∷ get_transaction_patterns ∷ get_transaction_clusters ∷ get_transaction_flow ∷ []
group_methods performance =
    get_real_time_metrics ∷ get_performance_trends ∷ get_system_health ∷ get_resource_utilization
    ∷ []
group_methods business =
    get_financial_analytics ∷ get_revenue_analysis ∷ get_hierarchical_data ∷ get_forecast_data
    ∷ get_trend_predictions ∷ []

module _ {N : Type 0} where
  -- the fields of a row by name, where an item that is `null` throws
  abbrev pub pick : List (String × String) → Value N → Result (Fields N)
  pick [] item = ok end
  pick ((k, name) ∷ ks) item =
      get_property name (some item) >>= λ v. pick ks item >>= λ fs. ok (opt_field k v fs)

  -- `data.map((item) => ({ ... }))`
  abbrev pub format_rows : List (String × String) → List (Value N) → Result (List (Value N))
  format_rows ks [] = ok []
  format_rows ks (v ∷ vs) = pick ks v >>= λ fs. format_rows ks vs >>= λ rows. ok (object fs ∷ rows)

  abbrev pub formatted :
      List (Value N) → Value N → Result (List (String × String)) → Result (Value N)
  formatted vs metadata names =
      names >>= λ ks. format_rows ks vs >>= λ rows. ok (chart (arr rows) metadata)

module _ {N : Type 0} (js : BuiltIns N) where
  -- the fields of a row `{ a: item[metadata.k || a], b: item[metadata.l || b] }`
  abbrev pub two_names :
      String → String → String → String → Value N → Result (List (String × String))
  two_names a k b l metadata = do
    first ← field_name js (property k metadata) none a
    second ← field_name js (property l metadata) none b
    ok ((a, first) ∷ (b, second) ∷ [])

  abbrev pub tree_names : Value N → Result (List (String × String))
  tree_names metadata = field_name js (property "value" metadata) none "value" >>= λ name.
      ok (("id", "id") ∷ ("parent", "parent") ∷ ("value", name) ∷ [])

  abbrev pub format_items : List (Value N) → Option (Value N) → Value N → Result (Value N)
  format_items vs kind metadata =
      if is_type "line" kind || is_type "bar" kind
      then formatted vs metadata (two_names "x" "xAxis" "y" "yAxis" metadata)
      else if is_type "pie" kind || is_type "donut" kind
      then formatted vs metadata (two_names "label" "dimension" "value" "metric" metadata)
      else if is_type "tree" kind || is_type "network" kind
      then formatted vs metadata (tree_names metadata)
      else ok (chart (arr vs) metadata)

  -- `formatChartData`
  unfoldable pub format_chart_data : Option (Value N) → Option (Value N) → Result (Value N)
  format_chart_data (some (array vs)) (some null) = err type_error
  format_chart_data (some (array vs)) none = err type_error
  format_chart_data (some (array vs)) (some metadata) =
      format_items (list_of vs) (property "type" metadata) metadata
  format_chart_data dat metadata =
      ok (object (field "data" (arr []) (opt_field "metadata" metadata end)))

  -- `formatChartData(response.data.data, response.data.metadata)`
  unfoldable pub format_response : Value N → Result (Value N)
  unfolding format_chart_data
  format_response body = do
    dat ← get_property "data" (some body)
    metadata ← get_property "metadata" (some body)
    format_chart_data dat metadata

module _ {N : Type 0} (js : BuiltIns N) (url : String → Option (Unit {0}) → String)
    (show : ℕ → String) (base_url : String) where
  -- a method of `AnalyticsService`
  unfoldable pub get_chart :
      (FetchCall (Value N) → Outcome (Value N)) → AnalyticsMethod → Result (Value N)
  unfolding base_perform format_response
  get_chart fetch m =
      base_perform url show (new_service base_url none none) (λ (d : Value N). d) (λ d. false) fetch
        (get (endpoint m) none)
      >>= format_response js

  -- a method of `AnalyticsController`: the charts in the order of its fields
  unfoldable pub get_group :
      (FetchCall (Value N) → Outcome (Value N)) → AnalyticsGroup → Result (List (Value N))
  unfolding get_chart
  get_group fetch g = all_of (map (get_chart fetch) (group_methods g))
