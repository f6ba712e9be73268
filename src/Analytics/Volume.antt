-- ===== src/Analytics/Volume.antt =====
-- The chart of the transaction volume of frontend-dashboard/src/hooks/useAnalytics.ts.
use synkro.Base.{none, some, [], ◌∷◌, if◌then◌else◌, Result}
use synkro.Analytics.Values.{
  Value, text, BuiltIns, ◌>>=◌, arr, obj, chart, num, property, is_nonempty, or_value, null,
}
use synkro.Analytics.Validation.{validate_chart_data}
use synkro.Analytics.Methods.{Method}
use synkro.Charts.{DateFns, Numbers}
use synkro.Charts.Volume.{TimeInputs, transform_transaction_volume_data}

module _ {N : Type 0} (js : BuiltIns N) where
  abbrev pub transaction_volume_sample : Value N
  transaction_volume_sample =
      chart
        (arr (
          obj (
            ("period", text "May 25")
            ∷ ("count", num js 420)
            ∷ ("timestamp", text "2024-05-25T00:00:00.000Z")
            ∷ [])
          ∷ obj (
              ("period", text "May 26")
              ∷ ("count", num js 530)
              ∷ ("timestamp", text "2024-05-26T00:00:00.000Z")
              ∷ [])
          ∷ obj (
              ("period", text "May 27")
              ∷ ("count", num js 380)
              ∷ ("timestamp", text "2024-05-27T00:00:00.000Z")
              ∷ [])
          ∷ obj (
              ("period", text "May 28")
              ∷ ("count", num js 610)
              ∷ ("timestamp", text "2024-05-28T00:00:00.000Z")
              ∷ [])
          ∷ obj (
              ("period", text "May 29")
              ∷ ("count", num js 540)
              ∷ ("timestamp", text "2024-05-29T00:00:00.000Z")
              ∷ [])
          ∷ obj (
              ("period", text "May 30")
              ∷ ("count", num js 490)
              ∷ ("timestamp", text "2024-05-30T00:00:00.000Z")
              ∷ [])
          ∷ obj (
              ("period", text "May 31")
              ∷ ("count", num js 720)
              ∷ ("timestamp", text "2024-05-31T00:00:00.000Z")
              ∷ [])
          ∷ []))
        (obj (("type", text "line") ∷ ("xAxis", text "period") ∷ ("yAxis", text "count") ∷ []))

  abbrev pub hourly_metadata : Value N
  hourly_metadata =
      obj
        (("type", text "line") ∷ ("xAxis", text "hour") ∷ ("yAxis", text "transaction_count") ∷ [])

  abbrev pub data_of : Value N → Value N
  data_of response = elim (property "data" response) [ none ↦ null | some v ↦ v ]

module _ {N : Type 0} (js : BuiltIns N) (inputs : TimeInputs N) (dates : DateFns)
    (numbers : Numbers N) where
  unfoldable pub use_volume : Value N → Result (Value N)
  use_volume response =
      if is_nonempty js (property "data" response)
      then (transform_transaction_volume_data inputs dates numbers js (data_of js response)
            (or_value js (property "metadata" response) (hourly_metadata js))
          >>= λ done. validate_chart_data js done)
      else validate_chart_data js (transaction_volume_sample js)

  abbrev pub get_transaction_volume : Method N
  get_transaction_volume = record {
    path = "/api/analytics/transactions/volume";
    on_response = use_volume;
    on_error = validate_chart_data js (transaction_volume_sample js);
  }
