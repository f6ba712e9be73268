-- ===== src/Charts/Volume.antt =====
-- frontend-dashboard/src/utils/chartHelpers.ts: how `aggregateTimeSeries` reads the items, and
-- `transformTransactionVolumeData`. An invalid date makes `format` throw. The names of fields that the
-- metadata gives are texts, as its interface says; with other ones the model throws.
use Prim.Native.Nat.{Ordering, compare}
use Prim.Native.String
use Prim.Native.Char.{Char, code}
use synkro.Base.{
  ℕ, ◌-◌, ◌/◌, String, Bool, true, false, ◌&&◌, ◌||◌, Option, none, some, List, [], ◌∷◌, map,
  if◌then◌else◌, ltb, leb, eqb, Result, ok, err, length, is_some,
}
use synkro.Base.Sorting.{sort}
use synkro.Charts.{
  AggregationPeriod, hour, day, week, month, DateFns, Numbers, Point, AggregatedDataPoint,
  aggregate_time_series,
}
use synkro.Analytics.Values.{
  Value, null, number, text, array, BuiltIns, type_error, ◌>>=◌, property, get_property, list_of,
  holds, arr, obj, chart,
}

-- `parseISO` and `new Date` (a number of milliseconds, or none for an invalid date), `toUpperCase` of a
-- letter, `toLowerCase`, and `parseFloat(v) || 0`
pub record TimeInputs (N : Type 0) : Type 0 where
  pub parse_iso : String → Option ℕ
  pub new_date : Value N → Option ℕ
  pub to_upper : Char → Char
  pub to_lower : String → String
  pub parse_number : Value N → N

abbrev pub is_lower : Char → Bool
is_lower c = leb b'a' (code c) && leb (code c) b'z'

abbrev pub is_upper : Char → Bool
is_upper c = leb b'A' (code c) && leb (code c) b'Z'

-- `field.includes("_")`, `/[A-Z]/.test(field)`
abbrev pub has_char : (Char → Bool) → String → Bool
has_char p String.[] = false
has_char p (String.◌∷◌ c s) = p c || has_char p s

-- `field.replace(/_([a-z])/g, (_, p1) => p1.toUpperCase())`
abbrev pub camel_case : (Char → Char) → String → String
camel_case upper String.[] = String.[]
camel_case upper (String.◌∷◌ c String.[]) = String.◌∷◌ c String.[]
camel_case upper (String.◌∷◌ c (String.◌∷◌ d s)) =
    let joined = String.◌∷◌ (upper d) (camel_case upper s) in
    let kept = String.◌∷◌ c (camel_case upper (String.◌∷◌ d s)) in
    if eqb (code c) b'_' && is_lower d then joined else kept

-- `field.replace(/([A-Z])/g, "_$1")`
abbrev pub underscored : String → String
underscored String.[] = String.[]
underscored (String.◌∷◌ c s) =
    let rest = underscored s in
    if is_upper c then String.◌++◌ "_" (String.◌∷◌ c rest) else String.◌∷◌ c rest

module _ {N : Type 0} (inputs : TimeInputs N) where
  -- `getFieldValue`; a field that is `null` counts as there
  unfoldable pub get_field_value : Value N → String → Result (Value N)
  get_field_value item name = elim (get_property name (some item)) [
    | err e ↦ err e
    | ok (some v) ↦ ok v
    | ok none ↦
        let camel : Option (Value N) =
          if has_char (λ c. eqb (code c) b'_') name
          then property (camel_case inputs.to_upper name) item
          else none in
        let snake : Option (Value N) =
          if has_char is_upper name
          then property (inputs.to_lower (underscored name)) item
          else none in
        ok (elim camel [ some v ↦ v | none ↦ elim snake [ some v ↦ v | none ↦ null ] ])
  ]

  abbrev pub time_of : Value N → Option ℕ
  time_of (text s) = inputs.parse_iso s
  time_of v = inputs.new_date v

  abbrev pub value_of : Value N → N
  value_of (number n) = n
  value_of v = inputs.parse_number v

  abbrev pub valid_time : Option ℕ → Result ℕ
  valid_time none = err type_error
  valid_time (some t) = ok t

  -- `data.map((item) => ...)`
  unfoldable pub read_points : String → String → List (Value N) → Result (List (Point N (Value N)))
  unfolding get_field_value
  read_points timestamp_field value_field [] = ok []
  read_points timestamp_field value_field (item ∷ items) = do
    time ← get_field_value item timestamp_field
    t ← valid_time (time_of time)
    v ← get_field_value item value_field
    points ← read_points timestamp_field value_field items
    ok (record { timestamp = t; value = value_of v; original = item } ∷ points)

  -- `new Date(item[field]).getTime()`
  abbrev pub field_time : String → Value N → Option ℕ
  field_time name item = elim (property name item) [ none ↦ none | some v ↦ inputs.new_date v ]

  -- `timeA - timeB`, where `NaN` counts as 0
  abbrev pub compare_hours : Value N → Value N → Ordering
  compare_hours a b = elim (field_time "hour" a) [
    | none ↦ Ordering.eq
    | some t ↦ elim (field_time "hour" b) [ none ↦ Ordering.eq | some u ↦ compare t u ]
  ]

-- a day, in milliseconds
abbrev pub day_length : ℕ
day_length = 86400000

-- A negative number of days is at most 2, as 0 is; a comparison with `NaN` fails.
unfoldable pub range_period : Option ℕ → Option ℕ → AggregationPeriod
range_period (some first) (some last) =
    let days = (last - first) / day_length in
    if ltb 60 days then month else if ltb 14 days then week else if leb days 2 then hour else day
range_period _ _ = day

unfoldable pub choose_period : ℕ → Option ℕ → Option ℕ → AggregationPeriod
unfolding range_period
choose_period count first last =
    if ltb 100 count
    then month
    else if ltb 50 count
    then week
    else if ltb 1 count
    then range_period first last
    else day

module _ {N : Type 0} where
  abbrev char_items : String → List (Value N)
  char_items String.[] = []
  char_items (String.◌∷◌ c s) = text (String.◌∷◌ c String.[]) ∷ char_items s

  -- `[...data]`
  abbrev pub spread_items : Value N → Result (List (Value N))
  spread_items (array vs) = ok (list_of vs)
  spread_items (text s) = ok (char_items s)
  spread_items _ = err type_error

  -- the name of the field that has the count
  abbrev pub value_field : String → Value N → String
  value_field name item =
      if is_some (property "transaction_count" item)
      then "transaction_count"
      else if is_some (property "transactionCount" item)
      then "transactionCount"
      else if is_some (property "count" item)
      then "count"
      else if is_some (property "value" item)
      then "value"
      else name

  abbrev pub last_item : Value N → List (Value N) → Value N
  last_item v [] = v
  last_item v (u ∷ us) = last_item u us

  abbrev pub text_of : Option (Value N) → Result String
  text_of (some (text s)) = ok s
  text_of _ = err type_error

module _ {N : Type 0} (js : BuiltIns N) where
  -- `a || b || name`
  abbrev pub field_name : Option (Value N) → Option (Value N) → String → Result String
  field_name a b name = if holds js a then text_of a else if holds js b then text_of b else ok name

  -- where the first item has an hour; a comparison of an item that is `null` throws, and so does the
  -- reading of the items that follows
  abbrev pub sorted_items : TimeInputs N → List (Value N) → List (Value N)
  sorted_items inputs [] = []
  sorted_items inputs (v ∷ vs) =
      if holds js (property "hour" v) then sort (compare_hours inputs) (v ∷ vs) else v ∷ vs

module _ {N : Type 0} (inputs : TimeInputs N) (dates : DateFns) (numbers : Numbers N) where
  -- an item of the aggregated data
  abbrev pub volume_row : AggregatedDataPoint N (Value N) → Value N
  volume_row row = obj (
      ("period", text row.period)
      ∷ ("count", number row.value)
      ∷ ("timestamp", text (dates.to_iso_string row.timestamp))
      ∷ [])

  unfoldable pub volume_chart : String → String → List (Value N) → Result (Value N)
  unfolding read_points choose_period
  volume_chart time_field name [] = err type_error
  volume_chart time_field name (v ∷ vs) = do
    points ← read_points inputs time_field (value_field name v) (v ∷ vs)
    let first = field_time inputs time_field v
    let last = field_time inputs time_field (last_item v vs)
    let period = choose_period (length (v ∷ vs)) first last
    ok (
        chart (arr (map volume_row (aggregate_time_series numbers dates period true points)))
          (obj (("type", text "line") ∷ ("xAxis", text "period") ∷ ("yAxis", text "count") ∷ [])))

  -- `transformTransactionVolumeData`, for data that has items, with the fields that it reads of the
  -- metadata
  unfoldable pub transform_transaction_volume_data :
      BuiltIns N → Value N → Value N → Result (Value N)
  unfolding volume_chart
  transform_transaction_volume_data js dat metadata = do
    items ← spread_items dat
    time_field ← field_name js (property "xAxis" metadata) (property "x_axis" metadata) "hour"
    name ←
        field_name js (property "yAxis" metadata) (property "y_axis" metadata) "transaction_count"
    volume_chart time_field name (sorted_items js inputs items)
