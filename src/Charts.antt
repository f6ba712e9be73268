-- ===== src/Charts.antt =====
-- frontend-dashboard/src/utils/chartHelpers.ts (`TimeSeriesHelper.aggregateTimeSeries`): points in time
-- grouped by the period that they lie in, from where each item has its time and value on. A time is
-- its number of milliseconds; `date-fns` is a parameter, and so are the operations on numbers.
pub mod Grouping
pub mod Rows
pub mod Laws
pub mod Volume
mod Tests
use Prim.Native.Nat.{Ordering, compare}
use synkro.Base.{
  ℕ, suc, ◌+◌, String, Bool, true, false, List, [], ◌∷◌, ◌++◌, map, eqb, if◌then◌else◌, template,
}
use synkro.Base.Sorting.{sort}

pub data AggregationPeriod : Type 0 where
  hour day week month : AggregationPeriod

-- `startOfHour`, `startOfDay`, `startOfWeek`, `startOfMonth` and `format` of `date-fns`, `toISOString`
pub record DateFns : Type 0 where
  pub start_of_hour : ℕ → ℕ
  pub start_of_day : ℕ → ℕ
  pub start_of_week : ℕ → ℕ
  pub start_of_month : ℕ → ℕ
  pub format : ℕ → String → String
  pub to_iso_string : ℕ → String

-- 0, `a + b`, and `a / n`
pub record Numbers (N : Type 0) : Type 0 where
  pub none_yet : N
  pub add : N → N → N
  pub per : N → ℕ → N

pub record Point (N I : Type 0) : Type 0 where
  pub timestamp : ℕ
  pub value : N
  pub original : I

-- An entry of `groupedData`; its key is the number of its period.
pub record Group (N I : Type 0) : Type 0 where
  pub sum : N
  pub count : ℕ
  pub period : ℕ
  pub items : List I

pub record AggregatedDataPoint (N I : Type 0) : Type 0 where
  pub period : String
  pub value : N
  pub count : ℕ
  pub average : N
  pub timestamp : ℕ
  pub items : List I

module _ (dates : DateFns) where
  abbrev pub period_start : AggregationPeriod → ℕ → ℕ
  period_start hour t = dates.start_of_hour t
  period_start day t = dates.start_of_day t
  period_start week t = dates.start_of_week t
  period_start month t = dates.start_of_month t

  abbrev pub period_label : AggregationPeriod → Bool → ℕ → String
  period_label period false t = dates.to_iso_string t
  period_label hour true t = dates.format t "MMM dd HH:mm"
  period_label day true t = dates.format t "MMM dd yyyy"
  period_label week true t = template "Week of " (dates.format t "MMM dd yyyy") ""
  period_label month true t = dates.format t "MMM yyyy"

module _ {N I : Type 0} (numbers : Numbers N) where
  abbrev pub new_group : ℕ → Group N I
  new_group key = record { sum = numbers.none_yet; count = 0; period = key; items = [] }

  abbrev pub add_to : Group N I → Point N I → Group N I
  add_to g p = record g {
    sum = numbers.add g.sum p.value;
    count = g.count + 1;
    items = g.items ++ p.original ∷ [];
  }

  -- one round of the loop over the points
  unfoldable pub add_point : ℕ → Point N I → List (Group N I) → List (Group N I)
  add_point key p [] = add_to (new_group key) p ∷ []
  add_point key p (g ∷ gs) =
      let rest = add_point key p gs in if eqb g.period key then add_to g p ∷ gs else g ∷ rest

  unfoldable pub group_points : (ℕ → ℕ) → List (Point N I) → List (Group N I) → List (Group N I)
  unfolding add_point
  group_points start [] groups = groups
  group_points start (p ∷ ps) groups =
      group_points start ps (add_point (start p.timestamp) p groups)

  abbrev pub row_of : (ℕ → String) → Group N I → AggregatedDataPoint N I
  row_of label g = record {
    period = label g.period;
    value = g.sum;
    count = g.count;
    average = numbers.per g.sum g.count;
    timestamp = g.period;
    items = g.items;
  }

  -- `a - b` of two keys, as `sort` takes it
  abbrev pub compare_keys : Group N I → Group N I → Ordering
  compare_keys a b = compare a.period b.period

  unfoldable pub aggregate_time_series :
      DateFns → AggregationPeriod → Bool → List (Point N I) → List (AggregatedDataPoint N I)
  unfolding group_points
  aggregate_time_series dates period format_labels points =
      map (row_of (period_label dates period format_labels))
        (sort compare_keys (group_points (period_start dates period) points []))
