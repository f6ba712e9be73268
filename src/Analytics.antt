-- ===== src/Analytics.antt =====
-- frontend-dashboard/src/hooks/useAnalytics.ts: a method makes one request between two updates of
-- `loading`, and answers with a chart of its own where the server gives none. Here, a call of a method;
-- the children have the values, the validation and the methods.
pub mod Values
pub mod Validation
pub mod Methods
pub mod Inventory
pub mod Orders
pub mod Transactions
pub mod Volume
pub mod Performance
pub mod Business
pub mod Soundness
pub mod Answers
pub mod Fallbacks
pub mod Calls
pub mod Service
pub mod Tests
use synkro.Base.{ℕ, ◌-◌, String, Bool, false, Option, none, Result}
use synkro.AuthApp.Store.{Json}
use synkro.AuthApp.Messaging.{Person}
use synkro.Dashboard.Session.{AuthConfig, Browser}
use synkro.Http.{FetchCall, Outcome, ApiService, Window}
use synkro.Http.Calls.{get, perform}
use synkro.Http.Hooks.{Hook, begin}
use synkro.Charts.{DateFns, Numbers}
use synkro.Charts.Volume.{TimeInputs}
use synkro.Analytics.Values.{Value, BuiltIns}
use synkro.Analytics.Methods.{Method, answer}
use synkro.Analytics.Inventory
use synkro.Analytics.Orders
use synkro.Analytics.Orders.Counts
use synkro.Analytics.Transactions
use synkro.Analytics.Performance
use synkro.Analytics.Business
use synkro.Analytics.Volume

-- the methods that the hook returns
pub data AnalyticsMethod : Type 0 where
  get_stock_level_trends get_inventory_distribution get_warehouse_distribution : AnalyticsMethod
  get_reorder_points get_order_flow get_order_pipeline get_order_lifecycle : AnalyticsMethod
  get_order_volume_trends get_order_value_distribution get_order_peak_times : AnalyticsMethod
  get_transaction_volume get_stock_movements get_transaction_metrics get_transaction_patterns :
      AnalyticsMethod
  get_transaction_clusters get_transaction_flow get_real_time_metrics get_performance_trends :
      AnalyticsMethod
  get_system_health get_resource_utilization get_financial_analytics get_revenue_analysis :
      AnalyticsMethod
  get_hierarchical_data get_forecast_data get_trend_predictions : AnalyticsMethod

module _ {N : Type 0} (js : BuiltIns N) (inputs : TimeInputs N) (dates : DateFns)
    (numbers : Numbers N) where
  abbrev pub method : AnalyticsMethod → Method N
  method get_stock_level_trends = Inventory.get_stock_level_trends js
  method get_inventory_distribution = Inventory.get_inventory_distribution js
  method get_warehouse_distribution = Inventory.get_warehouse_distribution js
  method get_reorder_points = Inventory.get_reorder_points js
  method get_order_flow = Orders.get_order_flow js
  method get_order_pipeline = Orders.get_order_pipeline js
  method get_order_lifecycle = Orders.get_order_lifecycle js
  method get_order_volume_trends = Counts.get_order_volume_trends js
  method get_order_value_distribution = Counts.get_order_value_distribution js
  method get_order_peak_times = Counts.get_order_peak_times js
  method get_transaction_volume = Volume.get_transaction_volume js inputs dates numbers
  method get_stock_movements = Transactions.get_stock_movements js
  method get_transaction_metrics = Transactions.get_transaction_metrics js
  method get_transaction_patterns = Transactions.get_transaction_patterns js
  method get_transaction_clusters = Transactions.get_transaction_clusters js
  method get_transaction_flow = Transactions.get_transaction_flow js
  method get_real_time_metrics = Performance.get_real_time_metrics js
  method get_performance_trends = Performance.get_performance_trends js
  method get_system_health = Performance.get_system_health js
  method get_resource_utilization = Performance.get_resource_utilization js
  method get_financial_analytics = Business.get_financial_analytics js
  method get_revenue_analysis = Business.get_revenue_analysis js
  method get_hierarchical_data = Business.get_hierarchical_data js
  method get_forecast_data = Business.get_forecast_data js
  method get_trend_predictions = Business.get_trend_predictions js

-- `finally`: no method sets an error
unfoldable pub conclude : Hook → Hook
conclude h = record h { loading = false; waiting = h.waiting - 1 }

module _ {N : Type 0} (auth : AuthConfig) (codec : Json Person) (browser : Browser)
    (url : String → Option (Unit {0}) → String) (show : ℕ → String) (service : ApiService) where
  -- the request of a method
  abbrev pub ask :
      (FetchCall (Value N) → Outcome (Value N)) → Method N → Window → Result (Value N) × Window
  ask fetch m w =
      perform auth codec browser url show service (λ (d : Value N). d) (λ d. false) fetch
        (get m.path none) w

  -- A method, whose call is not overlapped by another one.
  unfoldable pub call :
      (FetchCall (Value N) → Outcome (Value N))
      → Method N
      → Hook
      → Window
      → Result (Value N) × Hook × Window
  unfolding perform begin conclude
  call fetch m h w = let (r, w') = ask fetch m w in (answer m r, conclude (begin h), w')
