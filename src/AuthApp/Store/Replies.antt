-- ===== src/AuthApp/Store/Replies.antt =====
-- What the replies of the gateway make of the session.
use synkro.Base.{
  String, true, false, not, Option, none, some, List, [], ◌∷◌, ◌≡◌, ◌≢◌, refl, arith, given, truthy,
  eq_iff, All, if-holds, elim-holds,
}
use synkro.AuthApp.Store.{
  Json, Reply, AuthData, AuthStore, is_authenticated, validate_token, logout, validate_token_reply,
  open_session, login_reply, fetch_profile, fetch_profile_reply, init_auth, finish_init, replied,
  failed,
}
use synkro.AuthApp.Store.Runs.{
  authenticate-holds, IsRefused, Event, close, login_answer, register_answer, login, register, tick,
  validate_answer, profile, profile_answer, load, storage, step, run, IsQuiet, read_store,
}

module _ {User : Type 0} (json : Json User) where
  -- The token is gone, from the storage also.
  abbrev IsClosed : AuthStore User → Type 0
  IsClosed s = (s.token ≡ none) × (s.storage.auth_token ≡ none)

  logout-IsClosed : (s : AuthStore User) → IsClosed (logout json s)
  unfolding logout
  logout-IsClosed s =
      elim-holds IsClosed s.token _ _ (refl, refl)
        (λ t e. if-holds IsClosed (truthy t) _ _ (refl, refl) (refl, refl))

  validate_token-IsClosed : (s : AuthStore User) → IsClosed s → IsClosed (validate_token json s)
  validate_token-IsClosed s h =
      elim-holds IsClosed s.token s _ h (λ t e. if-holds IsClosed (truthy t) _ s h h)

  finish_init-IsClosed : (s : AuthStore User) → IsClosed s → IsClosed (finish_init json s)
  finish_init-IsClosed s h =
      if-holds IsClosed (is_authenticated json s) _ s (validate_token-IsClosed s h) h

  profile_reply-IsClosed :
      (r : Reply (Option User)) (s : AuthStore User)
      → IsClosed s
      → IsClosed (fetch_profile_reply json r s)
  unfolding fetch_profile_reply
  profile_reply-IsClosed (replied none) s h = h
  profile_reply-IsClosed (replied (some u)) s h = h
  profile_reply-IsClosed (failed e) s h = h

  step-IsClosed :
      (e : Event User) (s : AuthStore User) → IsQuiet json e → IsClosed s → IsClosed (step json e s)
  unfolding step init_auth
  step-IsClosed (login c) s quiet h = h
  step-IsClosed (register d) s quiet h = h
  step-IsClosed (login_answer r) s quiet h = absurd quiet
  step-IsClosed (register_answer r) s quiet h = absurd quiet
  step-IsClosed (storage key value written) s quiet h = absurd quiet
  step-IsClosed close s quiet h = logout-IsClosed s
  step-IsClosed tick s quiet h =
      if-holds IsClosed s.auth_check_interval _ s (validate_token-IsClosed s h) h
  step-IsClosed (validate_answer (replied valid)) s quiet h =
      if-holds IsClosed (not valid) _ s (logout-IsClosed s) h
  step-IsClosed (validate_answer (failed e)) s quiet h = h
  step-IsClosed profile s quiet h = if-holds IsClosed (given s.token) _ s h h
  step-IsClosed (profile_answer waits r) s quiet h =
      if-holds IsClosed waits _ _ (finish_init-IsClosed _ (profile_reply-IsClosed r s h))
        (profile_reply-IsClosed r s h)
  step-IsClosed load s quiet h =
      if-holds IsClosed _ (fetch_profile json true (read_store json s)) _
        (if-holds IsClosed (given s.storage.auth_token) _ (read_store json s) (h.1, h.1) (h.1, h.1))
        (finish_init-IsClosed (read_store json s) (h.1, h.1))

  run-IsClosed :
      (es : List (Event User)) (s : AuthStore User)
      → All (IsQuiet json) es
      → IsClosed s
      → IsClosed (run json es s)
  run-IsClosed [] s quiet h = h
  run-IsClosed (e ∷ es) s quiet h =
      run-IsClosed es (step json e s) quiet.1 (step-IsClosed e s quiet.0 h)

  -- After a logout nobody is authenticated and the storage holds no token, whatever calls and
  -- replies follow, those that were on their way included, until a reply to a login or a
  -- registration comes or another window writes.
  pub run-close :
      (es : List (Event User)) (s : AuthStore User)
      → All (IsQuiet json) es
      → let s' = run json es (step json close s) in
        (is_authenticated json s' ≡ false) × (s'.storage.auth_token ≡ none)
  unfolding step
  run-close es s quiet =
      let (t, kept) = run-IsClosed es (logout json s) quiet (logout-IsClosed s) in (rw t, kept)

  -- The session that a login opens, and what a refusal leaves of the one that was there.
  abbrev pub IsSettled :
      AuthStore User → Reply (AuthData User) → Option String × AuthStore User → Type 0
  IsSettled s r (none, s') =
      (t : String) × (u : User) × (t ≢ "")
      × (r ≡ replied (record { access_token = some t; user = some u }))
      × (s'.token ≡ some t)
      × (s'.user ≡ some u)
      × (s'.auth_check_interval ≡ true)
      × (s'.loading ≡ false)
      × (is_authenticated json s' ≡ true)
  IsSettled s r (some m, s') =
      (s'.error ≡ some m)
      × (s'.token ≡ s.token)
      × (s'.user ≡ s.user)
      × (s'.storage ≡ s.storage)
      × (s'.loading ≡ false)
      × IsRefused json r

  open_session-lem :
      (t : String) (u : User) (s : AuthStore User)
      → truthy t ≡ true
      → ((open_session json t u s).token ≡ some t) × ((open_session json t u s).user ≡ some u)
  open_session-lem t u s full = rw full (refl, refl)

  -- An answer to a login that throws nothing had a token and a user, and opens their session; any
  -- other answer throws, stores the message of the error, and leaves token, user and storage as they
  -- were. Either way the store is no longer loading.
  pub login_reply-IsSettled :
      (r : Reply (AuthData User)) (s : AuthStore User) → IsSettled s r (login_reply json r s)
  unfolding login_reply
  login_reply-IsSettled r s =
      authenticate-holds json (IsSettled s r) "Invalid credentials" "Failed to login" r s
        (λ m no. (refl, refl, refl, refl, refl, no))
        (λ t u full e.
          let ne : t ≢ "" = λ i. ground (arith, eq_iff t "") in
          let (token, user) = open_session-lem t u s full in
          (t, u, ne, e, token, user, refl, refl, rw (token, user) (ground arith)))

  -- A reply that a token is invalid ends the session whatever token it was about: a login that came
  -- in between is lost.
  pub stale_reply :
      (t : String) (u : User) (s : AuthStore User)
      → t ≢ ""
      → let s' =
          (login_reply json (replied (record { access_token = some t; user = some u })) s).1 in
        (is_authenticated json s' ≡ true)
        × (is_authenticated json (validate_token_reply json (replied false) s') ≡ false)
  unfolding validate_token_reply login_reply
  stale_reply t u s ne =
      let full : truthy t ≡ true = ground (arith, eq_iff t "") in
      let s' = (login_reply json (replied (record { access_token = some t; user = some u })) s).1 in
      (rw full (ground arith), rw (logout-IsClosed s').0)
