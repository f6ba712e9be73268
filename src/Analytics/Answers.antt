-- ===== src/Analytics/Answers.antt =====
-- frontend-dashboard/src/hooks/useAnalytics.ts: every method that validates its charts answers with
-- sound ones.
use synkro.Base.{
  String, Bool, true, false, not, ◌&&◌, ◌≡◌, if◌then◌else◌, Result, ok, err, if-holds, elim-holds,
}
use synkro.Analytics.{
  AnalyticsMethod, method, get_stock_level_trends, get_inventory_distribution,
  get_warehouse_distribution, get_reorder_points, get_order_flow, get_order_pipeline,
  get_order_lifecycle, get_order_volume_trends, get_order_value_distribution, get_order_peak_times,
  get_transaction_volume, get_stock_movements, get_transaction_metrics, get_transaction_patterns,
  get_transaction_clusters, get_transaction_flow, get_real_time_metrics, get_performance_trends,
  get_system_health, get_resource_utilization, get_financial_analytics, get_revenue_analysis,
  get_hierarchical_data, get_forecast_data, get_trend_predictions,
}
use synkro.Analytics.Values.{
  Value, Fields, BuiltIns, ◌>>=◌, property, value_holds, holds, is_type, num, is_nonempty, or_value,
}
use synkro.Analytics.Validation.{validate_chart_data, has_counts}
use synkro.Analytics.Validation.Laws.{>>=-inv}
use synkro.Analytics.Soundness.{IsSound, validate-IsSound}
use synkro.Analytics.Methods.{recover, if_data, restructure, update_metadata, set_data, array_items}
use synkro.Analytics.Orders.{flow_data, sankey_metadata, has_no_links, use_flow}
use synkro.Analytics.Orders.Counts.{
  type_of, total_count, use_volume_trends, use_value_distribution, use_peak_times, use_counts,
}
use synkro.Analytics.Volume.{use_volume, data_of, hourly_metadata, transaction_volume_sample}
use synkro.Charts.{DateFns, Numbers}
use synkro.Charts.Volume.{TimeInputs, transform_transaction_volume_data}

-- Whether a method validates what it answers.
abbrev pub validates : AnalyticsMethod → Bool
validates get_real_time_metrics = false
validates get_performance_trends = false
validates get_system_health = false
validates get_resource_utilization = false
validates get_financial_analytics = false
validates get_revenue_analysis = false
validates get_hierarchical_data = false
validates get_forecast_data = false
validates get_trend_predictions = false
validates _ = true

module _ {N : Type 0} (js : BuiltIns N) where
  abbrev pub AllSound : Result (Value N) → Type 0
  AllSound r = (v : Value N) → r ≡ ok v → IsSound js v

  pub validate-AllSound : (u : Value N) → AllSound (validate_chart_data js u)
  validate-AllSound u v e = validate-IsSound js u v e

  pub bind-AllSound :
      {A : Type 0} (r : Result A) (f : A → Result (Value N))
      → ((a : A) → AllSound (f a))
      → AllSound (r >>= f)
  bind-AllSound r f h v e = let (a, _, g) = >>=-inv r f v e in h a v g

  if-AllSound :
      (b : Bool) (r q : Result (Value N)) → AllSound r → AllSound q → AllSound (if b then r else q)
  if-AllSound b r q h k = if-holds AllSound b r q h k

  pub recover-AllSound : (r q : Result (Value N)) → AllSound r → AllSound q → AllSound (recover r q)
  recover-AllSound (ok v) q h k = h
  recover-AllSound (err e) q h k = k

  if_data-AllSound :
      (use_data : Value N → Value N → Result (Value N)) (sample response : Value N)
      → ((v : Value N) → AllSound (use_data v response))
      → AllSound (if_data js use_data sample response)
  unfolding if_data
  if_data-AllSound use_data sample response h =
      elim-holds AllSound (property "data" response) _ _ (validate-AllSound sample)
        (λ v e. if-AllSound (value_holds js v) _ _ (h v) (validate-AllSound sample))

  restructure-AllSound :
      (metadata_of : Value N → Fields N) (response : Value N)
      → AllSound (restructure js metadata_of response)
  unfolding restructure
  restructure-AllSound metadata_of response =
      if-AllSound _ _ _ (validate-AllSound _) (validate-AllSound response)

  use_flow-AllSound : (dat response : Value N) → AllSound (use_flow js dat response)
  unfolding use_flow
  use_flow-AllSound dat response =
      if-AllSound (holds js (property "metadata" response)) _ _
        (bind-AllSound (has_counts js dat) _ λ counts.
          if-AllSound (counts && has_no_links js dat) _ _
            (bind-AllSound (flow_data js dat) _ λ links.
              bind-AllSound
                (update_metadata (λ meta. ok (sankey_metadata js meta)) (set_data links response)) _
                λ done. validate-AllSound done)
            (validate-AllSound response))
        (validate-AllSound response)

  use_volume_trends-AllSound :
      (dat response : Value N) → AllSound (use_volume_trends js dat response)
  unfolding use_volume_trends
  use_volume_trends-AllSound dat response =
      if-AllSound _ _ _ (bind-AllSound _ _ λ done. validate-AllSound done)
        (validate-AllSound response)

  use_counts-AllSound :
      (kind : String) (spread : Value N → Value N) (change : Fields N → Fields N)
      (dat response : Value N)
      → AllSound (use_counts js kind spread change dat response)
  use_counts-AllSound kind spread change dat response =
      if-AllSound
        (holds js (property "metadata" response) && not (is_type kind (type_of js response))) _ _
        (bind-AllSound (has_counts js dat) _ λ counts.
          if-AllSound counts _ _
            (bind-AllSound (array_items dat) _ λ vs.
              bind-AllSound (total_count js (num js 0) vs) _ λ total.
                bind-AllSound
                  (update_metadata (λ meta. ok (change meta)) (set_data (spread total) response)) _
                  λ done. validate-AllSound done)
            (validate-AllSound response))
        (validate-AllSound response)

  use_value_distribution-AllSound :
      (dat response : Value N) → AllSound (use_value_distribution js dat response)
  unfolding use_value_distribution
  use_value_distribution-AllSound dat response = use_counts-AllSound "pie" _ _ dat response

  use_peak_times-AllSound : (dat response : Value N) → AllSound (use_peak_times js dat response)
  unfolding use_peak_times
  use_peak_times-AllSound dat response = use_counts-AllSound "line" _ _ dat response

module _ {N : Type 0} (js : BuiltIns N) (inputs : TimeInputs N) (dates : DateFns)
    (numbers : Numbers N) where
  use_volume-AllSound :
      (response : Value N) → AllSound js (use_volume js inputs dates numbers response)
  unfolding use_volume
  use_volume-AllSound response =
      if-AllSound js (is_nonempty js (property "data" response)) _ _
        (bind-AllSound js
          (transform_transaction_volume_data inputs dates numbers js (data_of js response)
            (or_value js (property "metadata" response) (hourly_metadata js)))
          _ λ done. validate-AllSound js done)
        (validate-AllSound js (transaction_volume_sample js))

  pub on_response-AllSound :
      (m : AnalyticsMethod) (response : Value N)
      → validates m ≡ true
      → AllSound js ((method js inputs dates numbers m).on_response response)
  on_response-AllSound get_stock_level_trends r h =
      if_data-AllSound js _ _ r (λ v. validate-AllSound js r)
  on_response-AllSound get_inventory_distribution r h =
      if_data-AllSound js _ _ r (λ v. validate-AllSound js r)
  on_response-AllSound get_warehouse_distribution r h =
      if_data-AllSound js _ _ r (λ v. validate-AllSound js r)
  on_response-AllSound get_reorder_points r h =
      if_data-AllSound js _ _ r (λ v. validate-AllSound js r)
  on_response-AllSound get_order_flow r h =
      if_data-AllSound js _ _ r (λ v. use_flow-AllSound js v r)
  on_response-AllSound get_order_pipeline r h =
      if_data-AllSound js _ _ r (λ v. validate-AllSound js r)
  on_response-AllSound get_order_lifecycle r h =
      if_data-AllSound js _ _ r (λ v. validate-AllSound js r)
  on_response-AllSound get_order_volume_trends r h =
      if_data-AllSound js _ _ r (λ v. use_volume_trends-AllSound js v r)
  on_response-AllSound get_order_value_distribution r h =
      if_data-AllSound js _ _ r (λ v. use_value_distribution-AllSound js v r)
  on_response-AllSound get_order_peak_times r h =
      if_data-AllSound js _ _ r (λ v. use_peak_times-AllSound js v r)
  on_response-AllSound get_transaction_volume r h = use_volume-AllSound r
  on_response-AllSound get_stock_movements r h = restructure-AllSound js _ r
  on_response-AllSound get_transaction_metrics r h = restructure-AllSound js _ r
  on_response-AllSound get_transaction_patterns r h = restructure-AllSound js _ r
  on_response-AllSound get_transaction_clusters r h = restructure-AllSound js _ r
  on_response-AllSound get_transaction_flow r h = restructure-AllSound js _ r
  on_response-AllSound get_real_time_metrics r h = cc
  on_response-AllSound get_performance_trends r h = cc
  on_response-AllSound get_system_health r h = cc
  on_response-AllSound get_resource_utilization r h = cc
  on_response-AllSound get_financial_analytics r h = cc
  on_response-AllSound get_revenue_analysis r h = cc
  on_response-AllSound get_hierarchical_data r h = cc
  on_response-AllSound get_forecast_data r h = cc
  on_response-AllSound get_trend_predictions r h = cc

  pub on_error-AllSound :
      (m : AnalyticsMethod)
      → validates m ≡ true
      → AllSound js ((method js inputs dates numbers m).on_error)
  on_error-AllSound get_stock_level_trends h = validate-AllSound js _
  on_error-AllSound get_inventory_distribution h = validate-AllSound js _
  on_error-AllSound get_warehouse_distribution h = validate-AllSound js _
  on_error-AllSound get_reorder_points h = validate-AllSound js _
  on_error-AllSound get_order_flow h = validate-AllSound js _
  on_error-AllSound get_order_pipeline h = validate-AllSound js _
  on_error-AllSound get_order_lifecycle h = validate-AllSound js _
  on_error-AllSound get_order_volume_trends h = validate-AllSound js _
  on_error-AllSound get_order_value_distribution h = validate-AllSound js _
  on_error-AllSound get_order_peak_times h = validate-AllSound js _
  on_error-AllSound get_transaction_volume h = validate-AllSound js _
  on_error-AllSound get_stock_movements h = validate-AllSound js _
  on_error-AllSound get_transaction_metrics h = validate-AllSound js _
  on_error-AllSound get_transaction_patterns h = validate-AllSound js _
  on_error-AllSound get_transaction_clusters h = validate-AllSound js _
  on_error-AllSound get_transaction_flow h = validate-AllSound js _
  on_error-AllSound get_real_time_metrics h = cc
  on_error-AllSound get_performance_trends h = cc
  on_error-AllSound get_system_health h = cc
  on_error-AllSound get_resource_utilization h = cc
  on_error-AllSound get_financial_analytics h = cc
  on_error-AllSound get_revenue_analysis h = cc
  on_error-AllSound get_hierarchical_data h = cc
  on_error-AllSound get_forecast_data h = cc
  on_error-AllSound get_trend_predictions h = cc
