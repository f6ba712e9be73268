-- ===== src/Charts/Tests.antt =====
-- Charts at concrete inputs.
use synkro.Base.{ℕ, ◌+◌, ◌-◌, ◌/◌, ◌%◌, String, true, List, [], ◌∷◌, ◌≡◌, refl}
use synkro.Charts.{DateFns, Numbers, Point, day, aggregate_time_series}
use synkro.Charts.Laws.{AreRows, start_in, name_in, aggregate-IsRow}

-- Days of ten units.
abbrev dates : DateFns
dates = record {
  start_of_hour = λ t. t;
  start_of_day = λ t. t - t % 10;
  start_of_week = λ t. t - t % 70;
  start_of_month = λ t. t - t % 300;
  format = λ t pattern. pattern;
  to_iso_string = λ t. "T";
}

abbrev numbers : Numbers ℕ
numbers = record { none_yet = 0; add = λ a b. a + b; per = λ a n. a / n }

abbrev points : List (Point ℕ String)
points =
    record { timestamp = 23; value = 4; original = "b" }
    ∷ record { timestamp = 11; value = 1; original = "a" }
    ∷ record { timestamp = 25; value = 2; original = "c" }
    ∷ []

two_days :
    aggregate_time_series numbers dates day true points
    ≡ record {
      period = "MMM dd yyyy";
      value = 1;
      count = 1;
      average = 1;
      timestamp = 10;
      items = "a" ∷ [];
    }
      ∷ record {
        period = "MMM dd yyyy";
        value = 6;
        count = 2;
        average = 3;
        timestamp = 20;
        items = "b" ∷ "c" ∷ [];
      }
      ∷ []
unfolding aggregate_time_series
two_days = refl

aggregate-IsRow_example :
    AreRows numbers
      (name_in dates day)
      (start_in dates day)
      points
      (aggregate_time_series numbers dates day true points)
aggregate-IsRow_example = aggregate-IsRow numbers dates day true points
