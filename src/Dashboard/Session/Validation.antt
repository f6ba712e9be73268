-- ===== src/Dashboard/Session/Validation.antt =====
-- What `validateToken` of the dashboard answers, in any run of the session.
use synkro.Base.{
  ℕ, ◌+◌, ◌<◌, String, Bool, true, false, not, ◌||◌, Option, none, some, List, [], ◌∷◌, ◌≡◌, ◌≢◌,
  refl, ap, ◌∙◌, arith, eq_iff, truthy, given, ltb, if-splits, if-holds, elim-holds, elim-splits,
  Option-cases, Bool-cases, inl, inr,
}
use synkro.AuthApp.Store.{Json}
use synkro.AuthApp.Messaging.{Person}
use synkro.Dashboard.Session.{
  AuthConfig, Browser, EventData, Session, is_authenticated, is_token_expired, validation_cooldown,
  cached_result, is_trusted, opens, closes, open_message, handle_auth_message, clear_auth,
  validate_token, validate_reply, interval_tick, start_auth_check, logout, logout_reply,
  redirect_to_login,
}

pub data Event : Type 0 where
  message : String → EventData → Event
  start : Event
  tick validate : ℕ → Event
  validate_answer : ℕ → Option Bool → Event
  sign_out sign_out_answer : Event

module _ (config : AuthConfig) (json : Json Person) (browser : Browser) where
  unfoldable pub step : Event → Session → Session
  unfolding handle_auth_message interval_tick validate_token validate_reply logout logout_reply
  step (message origin m) s = handle_auth_message config json browser origin m s
  step start s = start_auth_check config json browser s
  step (tick now) s = interval_tick config json browser now s
  step (validate now) s = (validate_token config json browser now s).1
  step (validate_answer now r) s = (validate_reply config json browser now r s).1
  step sign_out s = logout config json browser s
  step sign_out_answer s = logout_reply config json browser s

  abbrev pub run : List Event → Session → Session
  run [] s = s
  run (e ∷ es) s = run es (step e s)

  -- No answer `false` is kept.
  abbrev pub KeepsTrue : Session → Type 0
  KeepsTrue s = s.token_validation_result ≢ some false

  open_message-KeepsTrue :
      (m : EventData) (s : Session) → KeepsTrue s → KeepsTrue (open_message config json browser m s)
  open_message-KeepsTrue m s h =
      let unsigned = if-holds KeepsTrue _ (redirect_to_login config json browser s) s h h in
      elim-holds KeepsTrue m.access_token _ _ unsigned (λ t e.
        elim-holds KeepsTrue m.user _ _ unsigned
          (λ u f. if-holds KeepsTrue (truthy t) _ _ h unsigned))

  handle-KeepsTrue :
      (origin : String) (m : EventData) (s : Session)
      → KeepsTrue s
      → KeepsTrue (handle_auth_message config json browser origin m s)
  unfolding handle_auth_message
  handle-KeepsTrue origin m s h = elim-holds KeepsTrue (browser.hostname origin) s _ h (λ host e.
      if-holds KeepsTrue (not (is_trusted config json browser host)) s _ h (
        if-holds KeepsTrue (opens config json browser m.type) _ _ (open_message-KeepsTrue m s h)
          (if-holds KeepsTrue (closes config json browser m.type) _ s (λ i. cc) h)))

  validate-KeepsTrue :
      (now : ℕ) (s : Session) → KeepsTrue s → KeepsTrue (validate_token config json browser now s).1
  unfolding validate_token
  validate-KeepsTrue now s h =
      let Holds = λ (out : Option Bool × Session). KeepsTrue out.1 in
      let gone : KeepsTrue (clear_auth config json browser s) = λ i. cc in
      elim-holds Holds s.token _ _ gone (λ t e.
        if-holds Holds _ _ _ gone
          (elim-holds Holds (cached_result config json browser now s) _ _ h (λ b f. h)))

  step-KeepsTrue : (e : Event) (s : Session) → KeepsTrue s → KeepsTrue (step e s)
  unfolding step
  step-KeepsTrue (message origin m) s h = handle-KeepsTrue origin m s h
  step-KeepsTrue start s h = if-holds KeepsTrue (given s.token) _ s h h
  step-KeepsTrue (tick now) s h =
      if-holds KeepsTrue (not s.auth_check_interval) s _ h
        (if-holds KeepsTrue (given s.token) _ _ (validate-KeepsTrue now s h) h)
  step-KeepsTrue (validate now) s h = validate-KeepsTrue now s h
  step-KeepsTrue (validate_answer now none) s h = h
  step-KeepsTrue (validate_answer now (some true)) s h = λ i. cc
  step-KeepsTrue (validate_answer now (some false)) s h = λ i. cc
  step-KeepsTrue sign_out s h = h
  step-KeepsTrue sign_out_answer s h = λ i. cc

  run-KeepsTrue : (es : List Event) (s : Session) → KeepsTrue s → KeepsTrue (run es s)
  run-KeepsTrue [] s h = h
  run-KeepsTrue (e ∷ es) s h = run-KeepsTrue es (step e s) (step-KeepsTrue e s h)

  -- What an answer means: `true` leaves a session with a token, `false` has cleared it.
  abbrev pub IsAnswered : Session → Option Bool × Session → Type 0
  IsAnswered s (none, s') = (is_authenticated config json browser s ≡ true) × (s'.token ≡ s.token)
  IsAnswered s (some true, s') = (is_authenticated config json browser s ≡ true) × (s' ≡ s)
  IsAnswered s (some false, s') =
      (is_authenticated config json browser s' ≡ false) × (s'.user ≡ none)

  cached-true :
      (now : ℕ) (s : Session) → KeepsTrue s → cached_result config json browser now s ≢ some false
  cached-true now s h e = elim (Option-cases s.last_token_validation_time) [
    | inl none_yet ↦ ground arith
    | inr (last, known) ↦ h (ground arith)
  ]

  validate-IsAnswered :
      (now : ℕ) (s : Session)
      → KeepsTrue s
      → IsAnswered s (validate_token config json browser now s)
  unfolding validate_token
  validate-IsAnswered now s h =
      elim-splits (IsAnswered s) s.token _ _ (λ e. (refl, refl))
        (λ t e.
          if-splits (IsAnswered s) (not (truthy t) || is_token_expired config json browser now t) _
            _ (λ dead. (refl, refl))
            (λ live.
              let signed : is_authenticated config json browser s ≡ true = ground arith in
              elim-splits (IsAnswered s) (cached_result config json browser now s) _ _
                (λ f. (signed, refl))
                (λ b f. elim (Bool-cases b) [
                  | inl good ↦ rw good (signed, refl)
                  | inr bad ↦ absurd (cached-true now s h (f ∙ ap some bad))
                ])))

  -- In any run from a session that keeps no answer `false`, an answer `true` of `validateToken`
  -- without a request leaves the session as it is, with a token; an answer `false` has cleared it;
  -- and where the gateway is asked there is a token. The stored answer `false` that the code looks
  -- for is never there.
  pub run-IsAnswered :
      (es : List Event) (s : Session) (now : ℕ)
      → KeepsTrue s
      → let s' = run es s in
        KeepsTrue s' × IsAnswered s' (validate_token config json browser now s')
  run-IsAnswered es s now h =
      let keeps = run-KeepsTrue es s h in (keeps, validate-IsAnswered now (run es s) keeps)

  -- For ten seconds after the gateway called a token valid, the answer is `true` without a request,
  -- as long as the token has not expired.
  pub validate_reply-cooldown :
      (asked now : ℕ) (token : String) (s : Session)
      → s.token ≡ some token
      → token ≢ ""
      → is_token_expired config json browser now token ≡ false
      → now < asked + validation_cooldown
      → let (valid, s') = validate_reply config json browser asked (some true) s in
        (valid ≡ true) × (validate_token config json browser now s' ≡ (some true, s'))
  unfolding validate_reply validate_token
  validate_reply-cooldown asked now token s has ne live lt =
      let given : truthy token ≡ true = ground (arith, eq_iff token "") in
      let soon : ltb now (asked + validation_cooldown) ≡ true = ground arith in
      let s' : Session = record s {
        last_token_validation_time = some asked;
        token_validation_result = some true;
      } in
      let P = λ (out : Option Bool × Session). out ≡ (some true, s') in
      (
        refl,
        elim-splits P s.token _ _ (λ e. absurd (ground arith))
            (λ t e. let same : t ≡ token = ground arith in rw (same, given, live, soon)),
      )
