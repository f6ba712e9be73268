-- ===== src/Http.antt =====
-- frontend-dashboard/src/services/api.service.ts (`ApiService`): the URL, the headers and the errors of
-- a request, with the session that a rejected one ends. `fetch`, `URL` and the text of a number are
-- built in, and parameters. The request is cut at no `await`: its answer is at once there.
pub mod Laws
pub mod Calls
pub mod Predictions
pub mod Rejected
pub mod BaseService
pub mod Hooks
mod Tests
use Prim.Native.String
use Prim.Native.String.{[], ◌∷◌}
use Prim.Native.Char.{code}
use synkro.Base.{
  ℕ, String, Bool, true, false, not, ◌&&◌, ◌||◌, Option, none, some, ◌==◌, ltb, leb, eqb,
  if◌then◌else◌, truthy, given, or_else, or_other, is_some, template, Failure, failure, Result, ok,
  err,
}
use synkro.AuthApp.Store.{Json}
use synkro.AuthApp.Messaging.{Person}
use synkro.Dashboard.Session.{AuthConfig, Browser, Session, get_token, clear_auth}

-- An object of headers: the value of a name, if it has one.
abbrev pub Headers : Type 0
Headers = String → Option String

-- `{ ...a, ...b }`
abbrev pub spread : Headers → Headers → Headers
spread a b name = or_other (b name) (a name)

abbrev pub header : String → String → Headers
header name value other = if name == other then some value else none

-- The caller's settings; `params` are the pairs that `searchParams` gets, as the type `Q`.
pub record RequestConfig (Q B : Type 0) : Type 0 where
  pub headers : Option Headers
  pub timeout : Option ℕ
  pub params : Option Q
  pub body : Option B

pub record FetchCall (B : Type 0) : Type 0 where
  pub url : String
  pub method : String
  pub headers : Headers
  pub timeout : ℕ
  pub body : Option B

-- `json` and `text` are what the methods of the response give, or throw; `message` is that of the JSON
-- of an error.
pub record Response (B : Type 0) : Type 0 where
  pub status : ℕ
  pub content_type_json : Bool
  pub json : Result B
  pub text : Result B
  pub message : Option String

-- What `fetch` ends in: an abort by the timer, another error, or a response.
pub data Outcome (B : Type 0) : Type 0 where
  aborted : Outcome B
  failed : Failure → Outcome B
  responded : Response B → Outcome B

pub record ApiService : Type 0 where
  pub base_url : String
  pub default_headers : Headers
  pub default_timeout : ℕ

-- The session, and whether the window was sent to the dashboard's own `/login`.
pub record Window : Type 0 where
  pub session : Session
  pub at_login : Bool

-- `s.startsWith("/")`
abbrev pub starts_with_slash : String → Bool
starts_with_slash [] = false
starts_with_slash (c ∷ s) = eqb (code c) b'/'

-- `s.endsWith("/") ? s.slice(0, -1) : s`
abbrev pub without_slash : String → String
without_slash [] = []
without_slash (c ∷ s) =
    let rest = without_slash s in if eqb (code c) b'/' && (s == "") then [] else c ∷ rest

abbrev pub with_slash : String → String
with_slash endpoint = if starts_with_slash endpoint then endpoint else String.◌++◌ "/" endpoint

-- `url` is `toString` of the URL of a text and the parameters.
unfoldable pub create_url :
    {Q : Type 0} → (String → Option Q → String) → ApiService → String → Option Q → String
create_url url service endpoint params =
    url (String.◌++◌ (without_slash service.base_url) (with_slash endpoint)) params

abbrev pub merged_headers : {Q B : Type 0} → ApiService → RequestConfig Q B → Headers
merged_headers service config =
    let own = or_else config.headers (λ name. none) in
    or_else config.headers
      (spread (spread (header "Content-Type" "application/json") service.default_headers) own)

module _ (auth : AuthConfig) (codec : Json Person) (browser : Browser) where
  -- `applyAuthInterceptor`
  abbrev pub with_auth : Window → Headers → Headers
  with_auth w headers = elim (get_token auth codec browser w.session) [
    | none ↦ headers
    | some token ↦
        if truthy token
        then spread headers (header "Authorization" (template "Bearer " token ""))
        else headers
  ]

-- `response.ok`
abbrev pub is_ok : {B : Type 0} → Response B → Bool
is_ok r = leb 200 r.status && ltb r.status 300

-- the answer of a response that the interceptor lets through; `show` is the text of a number
abbrev pub read : {B : Type 0} → (ℕ → String) → Response B → Result B
read show r =
    if not (is_ok r)
    then err (
        failure (
          if given r.message
          then or_else r.message ""
          else template "Request failed with status " (show r.status) ""))
    else if r.content_type_json
    then r.json
    else r.text

module _ {Q B : Type 0} (auth : AuthConfig) (codec : Json Person) (browser : Browser)
    (url : String → Option Q → String) (show : ℕ → String) (service : ApiService) where
  unfoldable pub fetch_call : String → String → RequestConfig Q B → Window → FetchCall B
  unfolding create_url
  fetch_call method endpoint config w = record {
    url = create_url url service endpoint config.params;
    method = method;
    headers = with_auth auth codec browser w (merged_headers service config);
    timeout =
        or_else config.timeout
          (if eqb service.default_timeout 0 then 30000 else service.default_timeout);
    body = config.body;
  }

  -- `request`, from the outcome of `fetch` on
  unfoldable pub settle : ℕ → Outcome B → Window → Result B × Window
  settle timeout aborted w =
      (err (failure (template "Request timeout after " (show timeout) "ms")), w)
  settle timeout (failed e) w = (err e, w)
  settle timeout (responded r) w =
      if eqb r.status 401
      then (
        err (failure "Unauthorized"),
        record { session = clear_auth auth codec browser w.session; at_login = true },
      )
      else (read show r, w)

  unfoldable pub request :
      (FetchCall B → Outcome B) → String → String → RequestConfig Q B → Window → Result B × Window
  unfolding fetch_call settle
  request fetch method endpoint config w =
      let c : FetchCall B = fetch_call method endpoint config w in settle c.timeout (fetch c) w
