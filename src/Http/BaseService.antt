-- ===== src/Http/BaseService.antt =====
-- frontend-dashboard/src/services/base.service.ts (`BaseService`), which has no session: what it sends and
-- what it makes of an answer. The services that extend it only make its `get` requests.
pub mod Agreement
use synkro.Base.{
  ℕ, String, Bool, Option, none, some, if◌then◌else◌, or_else, template, failure, Failure, Result,
  ok, err,
}
use synkro.Http.{
  RequestConfig, FetchCall, Response, Outcome, aborted, failed, responded, ApiService, create_url,
  merged_headers, read,
}
use synkro.Http.Calls.{ApiCall, method_of, endpoint_of, config_of}

-- The constructor's options: `timeout ?? 30000`.
abbrev pub new_service : String → Option (String → Option String) → Option ℕ → ApiService
new_service base_url headers timeout = record {
  base_url = base_url;
  default_headers = or_else headers (λ name. none);
  default_timeout = or_else timeout 30000;
}

module _ {Q B : Type 0} (url : String → Option Q → String) (show : ℕ → String)
    (service : ApiService) where
  -- The call of `fetch`; the settings of the caller are spread last, so they replace the merged ones.
  unfoldable pub base_call : String → String → RequestConfig Q B → FetchCall B
  unfolding create_url
  base_call method endpoint config = record {
    url = create_url url service endpoint config.params;
    method = method;
    headers = merged_headers service config;
    timeout = or_else config.timeout service.default_timeout;
    body = config.body;
  }

  -- The data of the answer (`IApiResponse.data`), or what is thrown.
  unfoldable pub settle_base : ℕ → Outcome B → Result B
  settle_base timeout aborted =
      err (failure (template "Request timeout after " (show timeout) "ms"))
  settle_base timeout (failed e) = err e
  settle_base timeout (responded r) = read show r

  unfoldable pub base_request :
      (FetchCall B → Outcome B) → String → String → RequestConfig Q B → Result B
  unfolding base_call settle_base
  base_request fetch method endpoint config =
      let c : FetchCall B = base_call method endpoint config in settle_base c.timeout (fetch c)

module _ {Q D B : Type 0} (url : String → Option Q → String) (show : ℕ → String)
    (service : ApiService) (stringify : D → B) (holds : D → Bool) where
  -- `get`, `post`, `put`, `delete` and `patch`
  unfoldable pub base_perform : (FetchCall B → Outcome B) → ApiCall Q D → Result B
  unfolding base_request
  base_perform fetch c =
      base_request url show service fetch (method_of c) (endpoint_of c)
        (config_of stringify holds c)
