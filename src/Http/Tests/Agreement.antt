-- ===== src/Http/Tests/Agreement.antt =====
-- `BaseService` at concrete inputs.
use synkro.Base.{String, true, false, none, some, ◌≡◌, refl, failure, ok, err, arith}
use synkro.Http.{FetchCall, Response, Outcome, responded, Window, request}
use synkro.Http.BaseService.{base_request}
use synkro.Http.BaseService.Agreement.{request-eq-base_request}
use synkro.Http.Tests.{auth, codec, browser, plain_url, show, service, signed_in, with_headers}

abbrev signed_out : Window
signed_out = record { session = record signed_in.session { token = none }; at_login = false }

abbrev missing : Response String
missing = record {
  status = 404;
  content_type_json = true;
  json = ok "{}";
  text = ok "{}";
  message = some "No such order";
}

abbrev not_found : FetchCall String → Outcome String
not_found c = responded missing

base_request_fails :
    base_request plain_url show service not_found "GET" "orders/1" with_headers
    ≡ err (failure "No such order")
unfolding base_request
base_request_fails = refl

request-eq-base_request_example :
    request auth codec browser plain_url show service not_found "GET" "orders/1" with_headers
      signed_out
    ≡ (base_request plain_url show service not_found "GET" "orders/1" with_headers, signed_out)
request-eq-base_request_example =
    request-eq-base_request auth codec browser plain_url show service not_found "GET" "orders/1"
      with_headers signed_out refl (λ h. absurd (omega arith)) (λ h. absurd (omega arith))
