-- ===== src/Http/BaseService/Agreement.antt =====
-- `BaseService` and `ApiService` of the dashboard, side by side.
use synkro.Base.{ℕ, String, false, Option, none, ◌≡◌, ◌≢◌, refl, ◌∙◌, ap, arith, eqb}
use synkro.AuthApp.Store.{Json}
use synkro.AuthApp.Messaging.{Person}
use synkro.Dashboard.Session.{AuthConfig, Browser, get_token}
use synkro.Http.{
  RequestConfig, FetchCall, Outcome, aborted, failed, responded, ApiService, Window, fetch_call,
  settle, request,
}
use synkro.Http.BaseService.{base_call, settle_base, base_request}

module _ {Q B : Type 0} (auth : AuthConfig) (codec : Json Person) (browser : Browser)
    (url : String → Option Q → String) (show : ℕ → String) (service : ApiService) where
  -- The outcome is no response with the status 401.
  abbrev pub NotRejected : Outcome B → Type 0
  NotRejected aborted = Unit
  NotRejected (failed e) = Unit
  NotRejected (responded r) = r.status ≢ 401

  calls_agree :
      (method endpoint : String) (config : RequestConfig Q B) (w : Window)
      → get_token auth codec browser w.session ≡ none
      → service.default_timeout ≢ 0
      → fetch_call auth codec browser url show service method endpoint config w
        ≡ base_call url show service method endpoint config
  unfolding fetch_call base_call
  calls_agree method endpoint config w out slow =
      let waits : eqb service.default_timeout 0 ≡ false = ground arith in rw (out, waits) refl

  settle_agrees :
      (timeout : ℕ) (o : Outcome B) (w : Window)
      → NotRejected o
      → settle auth codec browser url show service timeout o w
        ≡ (settle_base url show service timeout o, w)
  unfolding settle settle_base
  settle_agrees timeout aborted w h = refl
  settle_agrees timeout (failed e) w h = refl
  settle_agrees timeout (responded r) w h =
      let fine : eqb r.status 401 ≡ false = ground arith in rw fine refl

  -- Where the session has no token, `BaseService` sends what `ApiService` sends (for a default timeout
  -- that is not 0), and a request whose answer has not the status 401 ends in both in the same way; it
  -- then leaves the session and the window as they were.
  pub request-eq-base_request :
      (fetch : FetchCall B → Outcome B) (method endpoint : String) (config : RequestConfig Q B)
      (w : Window)
      → get_token auth codec browser w.session ≡ none
      → service.default_timeout ≢ 0
      → NotRejected (fetch (base_call url show service method endpoint config))
      → request auth codec browser url show service fetch method endpoint config w
        ≡ (base_request url show service fetch method endpoint config, w)
  unfolding request base_request
  request-eq-base_request fetch method endpoint config w out slow h =
      let same = calls_agree method endpoint config w out slow in
      ap (λ (c : FetchCall B). settle auth codec browser url show service c.timeout (fetch c) w)
        same
      ∙ settle_agrees _ _ w h
