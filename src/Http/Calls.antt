-- ===== src/Http/Calls.antt =====
-- `get`, `post`, `put`, `delete` and `patch` of frontend-dashboard/src/services/api.service.ts.
use synkro.Base.{ℕ, String, Bool, Option, none, some, if◌then◌else◌, Result}
use synkro.AuthApp.Store.{Json}
use synkro.AuthApp.Messaging.{Person}
use synkro.Dashboard.Session.{AuthConfig, Browser}
use synkro.Http.{RequestConfig, FetchCall, Outcome, ApiService, Window, request}

-- A call, with the parameters of a query or the data of a body.
pub data ApiCall (Q D : Type 0) : Type 0 where
  get : String → Option Q → ApiCall Q D
  post put patch : String → Option D → ApiCall Q D
  delete : String → ApiCall Q D

module _ {Q D : Type 0} where
  abbrev pub method_of : ApiCall Q D → String
  method_of (get endpoint params) = "GET"
  method_of (post endpoint body) = "POST"
  method_of (put endpoint body) = "PUT"
  method_of (patch endpoint body) = "PATCH"
  method_of (delete endpoint) = "DELETE"

  abbrev pub endpoint_of : ApiCall Q D → String
  endpoint_of (get endpoint params) = endpoint
  endpoint_of (post endpoint body) = endpoint
  endpoint_of (put endpoint body) = endpoint
  endpoint_of (patch endpoint body) = endpoint
  endpoint_of (delete endpoint) = endpoint

  abbrev pub params_of : ApiCall Q D → Option Q
  params_of (get endpoint params) = params
  params_of _ = none

  abbrev pub data_of : ApiCall Q D → Option D
  data_of (post endpoint body) = body
  data_of (put endpoint body) = body
  data_of (patch endpoint body) = body
  data_of _ = none

-- `stringify` is `JSON.stringify`, `holds` the truth value of the data.
abbrev pub body_of : {D B : Type 0} → (D → B) → (D → Bool) → Option D → Option B
body_of stringify holds none = none
body_of stringify holds (some d) = if holds d then some (stringify d) else none

abbrev pub config_of : {Q D B : Type 0} → (D → B) → (D → Bool) → ApiCall Q D → RequestConfig Q B
config_of stringify holds c = record {
  headers = none;
  timeout = none;
  params = params_of c;
  body = body_of stringify holds (data_of c);
}

module _ {Q D B : Type 0} (auth : AuthConfig) (codec : Json Person) (browser : Browser)
    (url : String → Option Q → String) (show : ℕ → String) (service : ApiService)
    (stringify : D → B) (holds : D → Bool) where
  unfoldable pub perform : (FetchCall B → Outcome B) → ApiCall Q D → Window → Result B × Window
  unfolding request
  perform fetch c w =
      request auth codec browser url show service fetch (method_of c) (endpoint_of c)
        (config_of stringify holds c) w
