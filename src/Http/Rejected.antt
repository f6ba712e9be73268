-- ===== src/Http/Rejected.antt =====
-- A rejected request ends the session for every later one.
use synkro.Base.{
  ℕ, String, true, false, Option, some, ◌≡◌, refl, sym, ap, ◌∙◌, subst, arith, eqb, failure, err,
}
use synkro.AuthApp.Store.{Json}
use synkro.AuthApp.Messaging.{Person}
use synkro.Dashboard.Session.{AuthConfig, Browser, clear_auth, is_authenticated, validate_token}
use synkro.Http.{
  RequestConfig, FetchCall, Response, Outcome, responded, ApiService, Window, merged_headers,
  fetch_call, settle, request,
}

module _ {Q B : Type 0} (auth : AuthConfig) (codec : Json Person) (browser : Browser)
    (url : String → Option Q → String) (show : ℕ → String) (service : ApiService) where
  rejected-window :
      (timeout : ℕ) (a : Response B) (w : Window)
      → a.status ≡ 401
      → settle auth codec browser url show service timeout (responded a) w ≡ (
        err (failure "Unauthorized"),
        record { session = clear_auth auth codec browser w.session; at_login = true },
      )
  unfolding settle
  rejected-window timeout a w e =
      let rejected : eqb a.status 401 ≡ true = ground arith in rw rejected refl

  -- The window's session is not authenticated and does not validate, and a request sends no token.
  abbrev pub IsEnded : ℕ → String → String → RequestConfig Q B → Window → Type 0
  IsEnded now method endpoint config w =
      (is_authenticated auth codec browser w.session ≡ false)
      × ((validate_token auth codec browser now w.session).0 ≡ some false)
      × ((fetch_call auth codec browser url show service method endpoint config w).headers
            "Authorization"
          ≡ merged_headers service config "Authorization")

  -- Once a request is answered with the status 401, the session is not authenticated any more and does
  -- not validate at any time, and a later request sends as `Authorization` only what the service's
  -- default headers or the caller's own headers have there.
  pub request-IsEnded :
      (fetch : FetchCall B → Outcome B) (method endpoint later_method later_endpoint : String)
      (config later : RequestConfig Q B) (a : Response B) (w : Window) (now : ℕ)
      → fetch (fetch_call auth codec browser url show service method endpoint config w)
        ≡ responded a
      → a.status ≡ 401
      → IsEnded now later_method later_endpoint later
          (request auth codec browser url show service fetch method endpoint config w).1
  unfolding request fetch_call validate_token
  request-IsEnded fetch method endpoint later_method later_endpoint config later a w now answered
        e =
      let c = fetch_call auth codec browser url show service method endpoint config w in
      let ended =
        ap (λ o. settle auth codec browser url show service c.timeout o w) answered
        ∙ rejected-window c.timeout a w e in
      subst (IsEnded now later_method later_endpoint later) (sym (ap (λ out. out.1) ended))
        (refl, refl, refl)
