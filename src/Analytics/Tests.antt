-- ===== src/Analytics/Tests.antt =====
-- The analytics at concrete inputs, with natural numbers as the doubles.
mod Service
mod Calls
use Prim.Native.Nat.{Ordering, compare}
use Prim.Native.Char.{Char, code}
use synkro.Base.{
  ℕ, ◌+◌, ◌-◌, ◌*◌, ◌/◌, String, Bool, true, false, not, Option, none, some, List, [], ◌∷◌, ◌≡◌,
  refl, ◌⊎◌, ◌==◌, arith, eqb, ltb, if◌then◌else◌, Failure, failure, Result, ok, err,
}
use synkro.AuthApp.Store.{Json}
use synkro.AuthApp.Messaging.{Person}
use synkro.Dashboard.Session.{AuthConfig, Browser}
use synkro.Http.{FetchCall, Outcome, failed, responded, Response, ApiService, Window}
use synkro.Http.Calls.{perform}
use synkro.Http.Hooks.{new_hook}
use synkro.Analytics.{
  AnalyticsMethod, get_order_flow, get_order_value_distribution, get_transaction_volume,
  get_real_time_metrics, get_stock_level_trends, ask, call, method,
}
use synkro.Analytics.Values.{
  Value, null, boolean, number, text, array, object, fields, Fields, BuiltIns, arr, obj, chart,
  get_field, set_field, delete_field, copy_fields, json_copy,
}
use synkro.Analytics.Validation.{validate_chart_data, has_counts}
use synkro.Analytics.Validation.Laws.{Has}
use synkro.Analytics.Validation.Filled.{IsFilledIn, validate-IsFilledIn, CountsStatus}
use synkro.Analytics.Validation.Reading.{Extends}
use synkro.Analytics.Validation.Unchanged.{IsReady, validate-ready}
use synkro.Analytics.Methods.{update_metadata, if_data}
use synkro.Analytics.Orders.{use_flow}
use synkro.Analytics.Performance.{resource_utilization}
use synkro.Analytics.Fallbacks.{is_chart}
use synkro.Analytics.Calls.{run_call, call-ends, call-IsFilledIn}
use synkro.Charts.{DateFns, Numbers}
use synkro.Charts.Volume.{TimeInputs}

abbrev of_value : Value ℕ → ℕ
of_value (number n) = n
of_value _ = 0

abbrev of_option : Option (Value ℕ) → ℕ
of_option none = 0
of_option (some v) = of_value v

abbrev same_text : Option (Value ℕ) → Option (Value ℕ) → Bool
same_text (some (text s)) (some (text t)) = s == t
same_text _ _ = false

abbrev pub js : BuiltIns ℕ
js = record {
  of_nat = λ n. n;
  negative = λ n. 0;
  hundredths = λ n. n / 100;
  number_holds = λ n. not (eqb n 0);
  is_finite = λ n. true;
  positive = λ v. ltb 0 (of_value v);
  parses = λ v. false;
  parses_date = λ s. false;
  plus = λ v o. number (of_value v + of_option o);
  multiply = λ v u. of_value v * of_value u;
  divide = λ v u. of_value v / of_value u;
  subtract = λ v u. of_value v - of_value u;
  round = λ n. n;
  minimum = λ v u. if ltb (of_value v) (of_value u) then of_value v else of_value u;
  maximum = λ v u. if ltb (of_value v) (of_value u) then of_value u else of_value v;
  compare_values = λ v u. compare (of_option v) (of_option u);
  strictly_equal = same_text;
  show = λ n. "0";
  days_ago = λ n. "2024-01-01";
}

abbrev inputs : TimeInputs ℕ
inputs = record {
  parse_iso = λ s. if s == "T5" then some 5 else none;
  new_date = λ v. none;
  to_upper = λ c. c;
  to_lower = λ s. s;
  parse_number = λ v. 0;
}

abbrev dates : DateFns
dates = record {
  start_of_hour = λ t. t;
  start_of_day = λ t. 0;
  start_of_week = λ t. 0;
  start_of_month = λ t. 0;
  format = λ t pattern. pattern;
  to_iso_string = λ t. "T";
}

abbrev numbers : Numbers ℕ
numbers = record { none_yet = 0; add = λ a b. a + b; per = λ a n. a / n }

abbrev auth : AuthConfig
auth = record { auth_service_url = "http://a"; auth_interface_url = "http://b" }

abbrev codec : Json Person
codec = record { stringify = λ u. "{}"; parse = λ t. none }

abbrev browser : Browser
browser = record { hostname = λ url. some url; exp_of = λ part. none }

abbrev service : ApiService
service = record {
  base_url = "http://api/";
  default_headers = λ name. none;
  default_timeout = 10000;
}

abbrev window : Window
window = record {
  session = record {
    token = none;
    user = none;
    last_token_validation_time = none;
    token_validation_result = none;
    auth_check_interval = false;
    broadcasts = [];
    posts = [];
    reloads = 0;
    at_login = false;
  };
  at_login = false;
}

-- counts by status
abbrev counted : String → ℕ → Value ℕ
counted status n = obj (("status", text status) ∷ ("count", number n) ∷ [])

abbrev counts : Value ℕ
counts = arr (counted "shipped" 2 ∷ counted "pending" 7 ∷ [])

abbrev sankey_of_counts : Fields ℕ
sankey_of_counts =
    fields (("type", text "sankey") ∷ ("nodes", text "status") ∷ ("value", text "count") ∷ [])

abbrev answer_fields : Fields ℕ
answer_fields = fields (("data", counts) ∷ ("metadata", object sankey_of_counts) ∷ [])

-- Counts by status become the links of a flow, from the largest count on.
flow_of_counts :
    use_flow js counts (object answer_fields)
    ≡ ok (
        chart
          (arr (
            obj (("source", text "pending") ∷ ("target", text "shipped") ∷ ("value", number 2) ∷ [])
            ∷ []))
          (obj (
            ("type", text "sankey")
            ∷ ("nodes", text "status")
            ∷ ("value", text "value")
            ∷ ("source", text "source")
            ∷ ("target", text "target")
            ∷ [])))
unfolding use_flow get_field set_field delete_field has_counts update_metadata validate_chart_data
    json_copy
flow_of_counts = refl

-- The rows of the chart have neither of the fields that its metadata names.
utilization_of_one :
    resource_utilization js
      (arr (obj (("total_orders", number 9) ∷ ("completed_orders", number 4) ∷ []) ∷ []))
    ≡ ok (
        chart
          (arr (
            obj (("resource", text "Orders") ∷ ("used", number 4) ∷ ("available", number 5) ∷ [])
            ∷ obj
                (("resource", text "System") ∷ ("used", number 40) ∷ ("available", number 60) ∷ [])
            ∷ []))
          (obj (
            ("type", text "stacked-bar")
            ∷ ("xAxis", text "resource")
            ∷ ("yAxis", text "value")
            ∷ ("groupBy", text "type")
            ∷ [])))
unfolding resource_utilization get_field
utilization_of_one = refl
