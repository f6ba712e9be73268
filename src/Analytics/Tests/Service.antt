-- ===== src/Analytics/Tests/Service.antt =====
-- The analytics service and the formatting of charts at concrete inputs.
use synkro.Base.{ℕ, some, List, [], ◌∷◌, map, ◌≡◌, ◌↔◌, refl, arith, eq_iff, ok}
use synkro.Analytics.{method}
use synkro.Analytics.Values.{
  Value, number, text, array, object, items, fields, Fields, obj, arr, chart, list_of, get_field,
}
use synkro.Analytics.Tests.{js, inputs, dates, numbers, answer_fields}
use synkro.Analytics.Tests.Calls.{plain_url, show, answered}
use synkro.Analytics.Service.{inventory, format_chart_data, get_group, group_methods}
use synkro.Analytics.Service.Formatting.{AreRenamed, format_chart_data-AreRenamed}
use synkro.Analytics.Service.Groups.{paths_of, AreChartsAt, get_group_iff}

abbrev stock_metadata : Fields ℕ
stock_metadata =
    fields (("type", text "line") ∷ ("xAxis", text "date") ∷ ("yAxis", text "stock") ∷ [])

abbrev stock_rows : List (Value ℕ)
stock_rows = obj (("date", text "2023-01-01") ∷ ("stock", number 220) ∷ []) ∷ []

abbrev stock_chart : Value ℕ
stock_chart =
    chart (arr (obj (("x", text "2023-01-01") ∷ ("y", number 220) ∷ []) ∷ []))
      (object stock_metadata)

stock_formatted :
    format_chart_data js (some (array (items stock_rows))) (some (object stock_metadata))
    ≡ ok stock_chart
unfolding format_chart_data get_field
stock_formatted = refl

at_type : get_field "type" stock_metadata ≡ some (text "line")
unfolding get_field
at_type = refl

at_axis : get_field "xAxis" stock_metadata ≡ some (text "date")
unfolding get_field
at_axis = refl

format_chart_data-AreRenamed_example :
    (rows : List (Value ℕ)) × (stock_chart ≡ chart (arr rows) (object stock_metadata))
    × AreRenamed "date" (list_of (items stock_rows)) rows
format_chart_data-AreRenamed_example =
    format_chart_data-AreRenamed js "date" (items stock_rows) stock_metadata stock_chart at_type
      at_axis refl (ground (arith, eq_iff "date" "x")) (ground (arith, eq_iff "date" "y"))
      stock_formatted

-- the four charts of the inventory, all from the same answer
abbrev four_charts : List (Value ℕ)
four_charts =
    object answer_fields ∷ object answer_fields ∷ object answer_fields ∷ object answer_fields ∷ []

get_group_iff_example :
    ((get_group js plain_url show "http://api" answered inventory ≡ ok four_charts)
      ↔ AreChartsAt js plain_url show "http://api" answered (paths_of inventory) four_charts)
    × (map (λ m. (method js inputs dates numbers m).path) (group_methods inventory)
        ≡ paths_of inventory)
get_group_iff_example =
    get_group_iff js inputs dates numbers plain_url show "http://api" answered inventory four_charts

four_answered : get_group js plain_url show "http://api" answered inventory ≡ ok four_charts
unfolding get_group format_chart_data get_field
four_answered = refl
