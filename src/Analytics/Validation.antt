-- ===== src/Analytics/Validation.antt =====
-- `validateChartData` of frontend-dashboard/src/hooks/useAnalytics.ts. What the function throws is an
-- exception of a property of `null` or `undefined`. After the copy no value is a `Date`.
pub mod Reading
pub mod Laws
pub mod Completion
pub mod Filled
pub mod Unchanged
use synkro.Base.{
  String, Bool, true, false, not, ◌&&◌, ◌||◌, Option, none, some, List, [], ◌∷◌, map, ◌==◌, ltb,
  if◌then◌else◌, or_else, given, truthy, Result, ok, err, keep, length,
}
use synkro.Analytics.Values.{
  Value, null, number, text, object, Fields, BuiltIns, type_error, ◌>>=◌, get_field, set_field,
  delete_field, get_property, first_item, is_type, holds, has_items, is_nonempty, entries,
  copy_fields, arr,
}

-- The types that the `switch` names.
pub data ChartType : Type 0 where
  sankey pie funnel line_or_area stacked_bar other_chart : ChartType

abbrev pub type_named : String → ChartType
type_named s =
    if s == "sankey"
    then sankey
    else if s == "pie"
    then pie
    else if s == "funnel"
    then funnel
    else if (s == "line") || (s == "area")
    then line_or_area
    else if s == "stacked-bar"
    then stacked_bar
    else other_chart

-- `a || b`
abbrev pub or_text : Option String → String → String
or_text name default = if given name then or_else name "" else default

module _ {N : Type 0} where
  abbrev pub chart_type : Option (Value N) → ChartType
  chart_type (some (text s)) = type_named s
  chart_type _ = other_chart

  abbrev pub is_text : Value N → Bool
  is_text (text s) = true
  is_text _ = false

  -- `Object.keys(item).find(...)`
  abbrev pub find_key : (Value N → Bool) → List (String × Value N) → Option String
  find_key p [] = none
  find_key p ((k, v) ∷ es) = if p v then some k else find_key p es

  abbrev pub first_of : Option (Value N) → Option (Value N)
  first_of none = none
  first_of (some v) = first_item v

module _ {N : Type 0} (js : BuiltIns N) where
  abbrev pub is_numeric : Value N → Bool
  is_numeric (number n) = true
  is_numeric v = js.parses v

  abbrev pub is_date : Value N → Bool
  is_date (text s) = js.parses_date s
  is_date _ = false

  -- `Object.keys(v)` of a first item
  abbrev pub keys_of : Option (Value N) → Result (List (String × Value N))
  keys_of none = err type_error
  keys_of (some null) = err type_error
  keys_of (some v) = ok (entries js v)

  -- `if (!metadata[key]) { ... }`: a field that is chosen among those of the first item, or a default
  unfoldable pub fill :
      (List (String × Value N) → Option String)
      → String
      → String
      → String
      → Option (Value N)
      → Fields N
      → Result (Fields N)
  fill choose key missing empty dat meta =
      if holds js (get_field key meta)
      then ok meta
      else if is_nonempty js dat
      then (keys_of (first_of dat) >>= λ es.
          ok (set_field key (text (or_text (choose es) missing)) meta))
      else ok (set_field key (text empty) meta)

  -- `if (!metadata[key]) metadata[key] = name`
  unfoldable pub default_to : String → String → Fields N → Fields N
  default_to key name meta =
      if holds js (get_field key meta) then meta else set_field key (text name) meta

  -- the first date, else the first text
  abbrev pub find_axis : List (String × Value N) → Option String
  find_axis es = elim (find_key is_date es) [
    | some k ↦ if truthy k then some k else find_key is_text es
    | none ↦ find_key is_text es
  ]

  abbrev pub numeric_keys : List (String × Value N) → List String
  numeric_keys es = map (λ e. e.0) (keep (λ (e : String × Value N). is_numeric e.1) es)

  abbrev pub with_metrics : List String → Fields N → Fields N
  with_metrics names meta =
      if ltb 1 (length names) then set_field "metrics" (arr (map text names)) meta else meta

  -- the numeric fields of a first item, if there are several
  unfoldable pub fill_metrics : Option (Value N) → Fields N → Result (Fields N)
  fill_metrics dat meta =
      if not (holds js (get_field "metrics" meta)) && is_nonempty js dat
      then (keys_of (first_of dat) >>= λ es. ok (with_metrics (numeric_keys es) meta))
      else ok meta

  -- the `switch`
  unfoldable pub complete : ChartType → Option (Value N) → Fields N → Result (Fields N)
  unfolding fill default_to fill_metrics
  complete sankey dat meta = ok (
      default_to "value" "value" (default_to "target" "target" (default_to "source" "source" meta)))
  complete pie dat meta = do
    m ← fill (find_key is_text) "dimension" "dimension" "dimension" dat meta
    fill (find_key is_numeric) "metric" "metric" "metric" dat m
  complete funnel dat meta = do
    m ← fill (find_key is_text) "dimension" "stage" "stage" dat meta
    n ← fill (find_key is_numeric) "metric" "count" "count" dat m
    fill_metrics dat n
  complete line_or_area dat meta = do
    m ← fill find_axis "xAxis" "xAxis" "xAxis" dat meta
    fill (find_key is_numeric) "yAxis" "count" "yAxis" dat m
  complete stacked_bar dat meta = ok (
      default_to "groupBy" "groupBy" (default_to "yAxis" "yAxis" (default_to "xAxis" "xAxis" meta)))
  complete other_chart dat meta = ok meta

  abbrev pub rename_to : Option (Value N) → String → Fields N → Fields N
  rename_to none camel meta = meta
  rename_to (some v) camel meta =
      if holds js (some v) && not (holds js (get_field camel meta))
      then set_field camel v meta
      else meta

  -- `if (meta[snake] && !meta[camel]) metadata[camel] = meta[snake]`
  unfoldable pub rename : String → String → Fields N → Fields N
  rename snake camel meta = rename_to (get_field snake meta) camel meta

  unfoldable pub rename_all : Fields N → Fields N
  unfolding rename
  rename_all meta =
      rename "group_by" "groupBy" (rename "y_axis" "yAxis" (rename "x_axis" "xAxis" meta))

  -- `v[0].status && v[0].count` of an array or object with items
  unfoldable pub has_counts : Value N → Result Bool
  has_counts v =
      if has_items js v
      then (get_property "status" (first_item v) >>= λ status.
          if holds js status
          then (get_property "count" (first_item v) >>= λ count. ok (holds js count))
          else ok false)
      else ok false

  -- the test whether counts by status are labelled as a sankey diagram
  unfoldable pub is_mislabelled : Option (Value N) → Fields N → Result Bool
  unfolding has_counts
  is_mislabelled none meta = ok false
  is_mislabelled (some v) meta =
      if is_type "sankey" (get_field "type" meta)
        && is_type "status" (get_field "nodes" meta)
        && is_type "count" (get_field "value" meta)
      then has_counts v
      else ok false

  unfoldable pub relabel : Fields N → Fields N
  relabel meta = delete_field "target" (
      delete_field "source" (
        delete_field "nodes" (
          set_field "metric" (text "count")
            (set_field "dimension" (text "status") (set_field "type" (text "pie") meta)))))

  abbrev pub complete_by_type : Option (Value N) → Fields N → Result (Fields N)
  complete_by_type dat meta = complete (chart_type (get_field "type" meta)) dat meta

  abbrev pub relabel_if : Bool → Fields N → Fields N
  relabel_if true meta = relabel meta
  relabel_if false meta = meta

  -- the changes of the copied metadata, beside the copied data
  unfoldable pub validate_metadata : Option (Value N) → Fields N → Result (Fields N)
  unfolding complete rename_all is_mislabelled relabel
  validate_metadata dat meta = is_mislabelled dat (rename_all meta) >>= λ wrong.
      complete_by_type dat (relabel_if wrong (rename_all meta))

  abbrev pub set_metadata : Fields N → Fields N → Value N
  set_metadata fs done = object (set_field "metadata" (object done) (copy_fields js fs))

  -- by the metadata of the object
  abbrev pub validate_object : Option (Value N) → Fields N → Result (Value N)
  validate_object (some (object meta)) fs =
      if holds js (get_field "type" meta)
      then (validate_metadata (get_field "data" (copy_fields js fs)) (copy_fields js meta)
          >>= λ done. ok (set_metadata fs done))
      else ok (object fs)
  validate_object _ fs = ok (object fs)

  unfoldable pub validate_chart_data : Value N → Result (Value N)
  unfolding validate_metadata
  validate_chart_data (object fs) = validate_object (get_field "metadata" fs) fs
  validate_chart_data v = ok v
