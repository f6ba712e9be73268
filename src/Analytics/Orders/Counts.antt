-- ===== src/Analytics/Orders/Counts.antt =====
-- The orders' volume, values and peak times of frontend-dashboard/src/hooks/useAnalytics.ts.
use synkro.Analytics.Validation.{has_counts}
use synkro.Base.{
  ℕ, ◌+◌, String, not, ◌&&◌, Option, none, some, List, [], ◌∷◌, map, if◌then◌else◌, Result, ok,
}
use synkro.Analytics.Values.{
  chart, set_text, Value, number, text, Fields, BuiltIns, ◌>>=◌, arr, obj, num, get_field,
  delete_field, property, get_property, first_item, holds, has_items, is_type,
}
use synkro.Analytics.Methods.{Method, array_items, update_metadata, set_data, if_data}
use synkro.Analytics.Validation.{validate_chart_data}

module _ {N : Type 0} (js : BuiltIns N) where
  abbrev pub order_volume_trends_sample : Value N
  order_volume_trends_sample =
      chart
        (arr (
          obj (("date", text "2023-01-01") ∷ ("count", num js 120) ∷ [])
          ∷ obj (("date", text "2023-02-01") ∷ ("count", num js 145) ∷ [])
          ∷ obj (("date", text "2023-03-01") ∷ ("count", num js 165) ∷ [])
          ∷ obj (("date", text "2023-04-01") ∷ ("count", num js 190) ∷ [])
          ∷ obj (("date", text "2023-05-01") ∷ ("count", num js 220) ∷ [])
          ∷ []))
        (obj (("type", text "line") ∷ ("xAxis", text "date") ∷ ("yAxis", text "count") ∷ []))

  abbrev pub order_value_distribution_sample : Value N
  order_value_distribution_sample =
      chart
        (arr (
          obj (("range", text "$0-$50") ∷ ("count", num js 120) ∷ [])
          ∷ obj (("range", text "$51-$100") ∷ ("count", num js 80) ∷ [])
          ∷ obj (("range", text "$101-$200") ∷ ("count", num js 60) ∷ [])
          ∷ obj (("range", text "$201-$500") ∷ ("count", num js 40) ∷ [])
          ∷ obj (("range", text "$501+") ∷ ("count", num js 20) ∷ [])
          ∷ []))
        (obj (("type", text "pie") ∷ ("dimension", text "range") ∷ ("metric", text "count") ∷ []))

  abbrev pub order_peak_times_sample : Value N
  order_peak_times_sample =
      chart
        (arr (
          obj (("hour", text "00:00") ∷ ("count", num js 12) ∷ [])
          ∷ obj (("hour", text "04:00") ∷ ("count", num js 5) ∷ [])
          ∷ obj (("hour", text "08:00") ∷ ("count", num js 25) ∷ [])
          ∷ obj (("hour", text "12:00") ∷ ("count", num js 48) ∷ [])
          ∷ obj (("hour", text "16:00") ∷ ("count", num js 35) ∷ [])
          ∷ obj (("hour", text "20:00") ∷ ("count", num js 22) ∷ [])
          ∷ []))
        (obj (("type", text "line") ∷ ("xAxis", text "hour") ∷ ("yAxis", text "count") ∷ []))

  -- `if (!metadata[axis] && data.length > 0 && data[0][key]) metadata[axis] = key`
  abbrev pub axis_from : String → String → Value N → Fields N → Result (Fields N)
  axis_from axis key dat meta =
      if not (holds js (get_field axis meta)) && has_items js dat
      then (get_property key (first_item dat) >>= λ v.
          ok (if holds js v then set_text axis key meta else meta))
      else ok meta

  abbrev pub line_metadata : Value N → Fields N → Result (Fields N)
  line_metadata dat meta = axis_from "xAxis" "date" dat (set_text "type" "line" meta) >>= λ m.
      axis_from "yAxis" "count" dat m

  abbrev pub type_of : Value N → Option (Value N)
  type_of response = elim (property "metadata" response) [
    | none ↦ none
    | some meta ↦ property "type" meta
  ]

  unfoldable pub use_volume_trends : Value N → Value N → Result (Value N)
  use_volume_trends dat response =
      if holds js (property "metadata" response) && not (is_type "line" (type_of response))
      then (update_metadata (line_metadata dat) response >>= λ done. validate_chart_data js done)
      else validate_chart_data js response

  abbrev pub get_order_volume_trends : Method N
  get_order_volume_trends = record {
    path = "/api/analytics/orders/volume-trends";
    on_response = if_data js use_volume_trends order_volume_trends_sample;
    on_error = validate_chart_data js order_volume_trends_sample;
  }

  -- `data.reduce((sum, item) => sum + item.count, 0)`
  unfoldable pub total_count : Value N → List (Value N) → Result (Value N)
  total_count sum [] = ok sum
  total_count sum (v ∷ vs) =
      get_property "count" (some v) >>= λ count. total_count (js.plus sum count) vs

  -- `Math.round(total * share)`, with the share in hundredths
  abbrev pub value_range : Value N → String × ℕ → Value N
  value_range total (range, share) = obj (
      ("range", text range)
      ∷ (
        "count",
        if js.positive total
            then number (js.round (js.multiply total (number (js.hundredths share))))
            else num js 0,
      )
      ∷ [])

  abbrev pub value_ranges : List (String × ℕ)
  value_ranges =
      ("$0-$50", 35) ∷ ("$51-$100", 25) ∷ ("$101-$200", 20) ∷ ("$201-$500", 15) ∷ ("$501+", 5) ∷ []

  -- The counts are replaced by those that `spread_over` makes of their total.
  abbrev pub use_counts :
      String → (Value N → Value N) → (Fields N → Fields N) → Value N → Value N → Result (Value N)
  use_counts kind spread_over change dat response =
      if holds js (property "metadata" response) && not (is_type kind (type_of response))
      then (has_counts js dat >>= λ counts.
          if counts
          then (array_items dat >>= λ vs. total_count (num js 0) vs >>= λ total.
              update_metadata (λ meta. ok (change meta)) (set_data (spread_over total) response)
              >>= λ done. validate_chart_data js done)
          else validate_chart_data js response)
      else validate_chart_data js response

  abbrev pub range_metadata : Fields N → Fields N
  range_metadata meta = delete_field "value" (
      delete_field "nodes"
        (set_text "metric" "count" (set_text "dimension" "range" (set_text "type" "pie" meta))))

  abbrev pub value_data : Value N → Value N
  value_data total = arr (map (value_range total) value_ranges)

  unfoldable pub use_value_distribution : Value N → Value N → Result (Value N)
  unfolding total_count
  use_value_distribution = use_counts "pie" value_data range_metadata

  abbrev pub get_order_value_distribution : Method N
  get_order_value_distribution = record {
    path = "/api/analytics/orders/value-distribution";
    on_response = if_data js use_value_distribution order_value_distribution_sample;
    on_error = validate_chart_data js order_value_distribution_sample;
  }

  abbrev pub hourly_data : List (String × ℕ)
  hourly_data =
      ("00:00", 12)
      ∷ ("04:00", 5)
      ∷ ("08:00", 25)
      ∷ ("12:00", 48)
      ∷ ("16:00", 35)
      ∷ ("20:00", 22)
      ∷ []

  abbrev pub hourly_total : List (String × ℕ) → ℕ
  hourly_total [] = 0
  hourly_total ((h, n) ∷ hs) = n + hourly_total hs

  -- `Math.round(item.count * ratio)`, with the ratio of the total to that of the sample
  abbrev pub hourly_count : Value N → String × ℕ → Value N
  hourly_count total (hour, n) = obj (
      ("hour", text hour)
      ∷ (
        "count",
        if js.positive total
            then number (
                js.round (
                  js.multiply (num js n)
                    (number (js.divide total (num js (hourly_total hourly_data))))))
            else num js n,
      )
      ∷ [])

  abbrev pub peak_data : Value N → Value N
  peak_data total = arr (map (hourly_count total) hourly_data)

  abbrev pub hour_metadata : Fields N → Fields N
  hour_metadata meta = delete_field "value" (
      delete_field "nodes"
        (set_text "yAxis" "count" (set_text "xAxis" "hour" (set_text "type" "line" meta))))

  unfoldable pub use_peak_times : Value N → Value N → Result (Value N)
  unfolding total_count
  use_peak_times = use_counts "line" peak_data hour_metadata

  abbrev pub get_order_peak_times : Method N
  get_order_peak_times = record {
    path = "/api/analytics/orders/peak-times";
    on_response = if_data js use_peak_times order_peak_times_sample;
    on_error = validate_chart_data js order_peak_times_sample;
  }
