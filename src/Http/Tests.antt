-- ===== src/Http/Tests.antt =====
-- The HTTP service and the hooks at concrete inputs.
mod Agreement
use Prim.Native.String
use synkro.Base.{
  ℕ, suc, String, true, false, Option, none, some, List, [], ◌∷◌, ◌++◌, ◌≡◌, refl, arith, eq_iff,
  template, failure, Result, ok, err,
}
use synkro.AuthApp.Store.{Json}
use synkro.AuthApp.Messaging.{Person}
use synkro.Dashboard.Session.{AuthConfig, Browser}
use synkro.Http.{
  header, RequestConfig, FetchCall, Response, Outcome, responded, ApiService, Window, create_url,
  fetch_call, request,
}
use synkro.Http.Laws.{IsSent, fetch_call-headers}
use synkro.Http.Rejected.{IsEnded, request-IsEnded}
use synkro.Http.Calls.{endpoint_of, params_of}
use synkro.Http.Predictions.{
  Params, PredictionMethod, download_predictions_csv, at_base, params_for,
}
use synkro.Http.Predictions.Laws.{
  asked, model_of, IsTyped, prediction_call, prediction_call-IsTyped,
}
use synkro.Http.Hooks.{new_hook, Event, called, answered, run, answers}
use synkro.Http.Hooks.Settling.{IsQuiet, run-settles}
use synkro.Http.Hooks.Routes.{Method, orders, get_order, hook_call, Payload}

abbrev auth : AuthConfig
auth = record { auth_service_url = "http://a"; auth_interface_url = "http://b" }

abbrev codec : Json Person
codec = record { stringify = λ u. "{}"; parse = λ text. none }

abbrev browser : Browser
browser = record { hostname = λ url. some url; exp_of = λ part. none }

-- a URL without its parameters
abbrev plain_url : String → Option (Unit {0}) → String
plain_url text params = text

abbrev show : ℕ → String
show n = "n"

abbrev service : ApiService
service = record {
  base_url = "http://api/";
  default_headers = λ name. none;
  default_timeout = 10000;
}

abbrev signed_in : Window
signed_in = record {
  session = record {
    token = some "t1";
    user = some "{}";
    last_token_validation_time = none;
    token_validation_result = none;
    auth_check_interval = false;
    broadcasts = [];
    posts = [];
    reloads = 0;
    at_login = false;
  };
  at_login = false;
}

abbrev with_headers : RequestConfig (Unit {0}) String
with_headers = record {
  headers = some (header "X-Trace" "1");
  timeout = none;
  params = none;
  body = some "{}";
}

abbrev rejected : Response String
rejected = record {
  status = 401;
  content_type_json = true;
  json = ok "{}";
  text = ok "{}";
  message = none;
}

abbrev reject : FetchCall String → Outcome String
reject c = responded rejected

-- The content type is not sent with headers of the caller.
no_content_type :
    (fetch_call auth codec browser plain_url show service "POST" "orders" with_headers
        signed_in).headers
      "Content-Type"
    ≡ none
unfolding fetch_call
no_content_type = refl

fetch_call-headers_example :
    let c =
      fetch_call auth codec browser plain_url show service "GET" "orders" with_headers signed_in in
    (c.headers "Authorization" ≡ some (template "Bearer " "t1" ""))
    × IsSent service with_headers.headers "X-Trace" (c.headers "X-Trace")
fetch_call-headers_example =
    fetch_call-headers auth codec browser plain_url show service "GET" "orders" "t1" "X-Trace"
      with_headers signed_in refl (ground (arith, eq_iff "t1" ""))
      (ground (arith, eq_iff "X-Trace" "Authorization"))

abbrev timed_out : Result String
timed_out = err (failure "Request timeout after 10000ms")

-- two calls of which the first is answered
abbrev two_calls : List (Event String)
two_calls = called ∷ called ∷ answered (ok "a") ∷ []

run-settles_example :
    let es = two_calls in
    IsQuiet (run es new_hook)
    × (((run (es ++ answers (timed_out ∷ [])) new_hook).loading ≡ false)
        × ((run (es ++ answers (timed_out ∷ [])) new_hook).waiting ≡ 0))
    × (((run (es ++ called ∷ called ∷ answered (ok "b") ∷ []) new_hook).loading ≡ false)
        × ((run (es ++ called ∷ called ∷ answered (ok "b") ∷ []) new_hook).waiting
            ≡ suc (run es new_hook).waiting))
unfolding run
run-settles_example = run-settles two_calls (timed_out ∷ []) (ok "b") refl

-- a text for any data
abbrev text_of_data : Payload (Unit {0}) → String
text_of_data d = "{}"

abbrev order_7 : Method (Unit {0})
order_7 = orders (get_order "7")

order_7_url :
    create_url plain_url service (endpoint_of (hook_call order_7)) (params_of (hook_call order_7))
    ≡ "http://api/api/orders/7"
unfolding create_url hook_call
order_7_url = refl

-- a URL without its parameters
abbrev bare_url : String → Option Params → String
bare_url text params = text

abbrev export : PredictionMethod
export = download_predictions_csv (some "m1")

export_url :
    (prediction_call auth codec browser bare_url show show service export signed_in).url
    ≡ "http://api/api/v1/predictions/export"
unfolding fetch_call create_url
export_url = refl

request-IsEnded_example :
    IsEnded auth codec browser plain_url show service 5 "GET" "orders" with_headers
      (request auth codec browser plain_url show service reject "POST" "orders" with_headers
        signed_in).1
request-IsEnded_example =
    request-IsEnded auth codec browser plain_url show service reject "POST" "orders" "GET" "orders"
      with_headers with_headers rejected signed_in 5 refl refl
