-- ===== src/AuthApp/Store/Sync.antt =====
-- The storage and the store hold the same session.
use synkro.Base.{
  String, Bool, true, false, not, ◌&&◌, Option, none, some, List, [], ◌∷◌, ◌≡◌, refl, sym, ap, ◌∙◌,
  arith, is_some, given, truthy, All, if-holds, elim-holds, subst,
}
use synkro.AuthApp.Store.{
  authenticate, Json, IsJson, Reply, AuthData, AuthStore, is_authenticated, validate_token, logout,
  fetch_profile, fetch_profile_reply, init_auth, finish_init, parse_user, replied, failed,
}
use synkro.AuthApp.Store.Runs.{
  Event, login, register, login_answer, register_answer, close, tick, validate_answer, profile,
  profile_answer, load, storage, step, run, IsOwn, fresh, read_store, authenticate-holds,
}

module _ {User : Type 0} (json : Json User) where
  -- The user that the storage holds is the one of the store.
  abbrev pub HoldsUser : Option User → Option String → Type 0
  HoldsUser none kept = kept ≡ none
  HoldsUser (some u) kept = kept ≡ some (json.stringify u)

  -- The storage holds the session of the store.
  abbrev pub IsSynced : AuthStore User → Type 0
  IsSynced s = (s.storage.auth_token ≡ s.token) × HoldsUser s.user s.storage.auth_user

  validate_token-IsSynced : (s : AuthStore User) → IsSynced s → IsSynced (validate_token json s)
  validate_token-IsSynced s h =
      elim-holds IsSynced s.token s _ h (λ t e. if-holds IsSynced (truthy t) _ s h h)

  logout-IsSynced : (s : AuthStore User) → IsSynced (logout json s)
  unfolding logout
  logout-IsSynced s =
      elim-holds IsSynced s.token _ _ (refl, refl)
        (λ t e. if-holds IsSynced (truthy t) _ _ (refl, refl) (refl, refl))

  authenticate-IsSynced :
      (known fallback : String) (r : Reply (AuthData User)) (s : AuthStore User)
      → IsSynced s
      → IsSynced (authenticate json known fallback r s).1
  authenticate-IsSynced known fallback r s h =
      authenticate-holds json (λ (out : Option String × AuthStore User). IsSynced out.1) known
        fallback r s (λ m no. h)
        (λ t u full e. if-holds IsSynced (truthy t) _ _ (refl, refl) (refl, refl))

  profile_reply-IsSynced :
      (r : Reply (Option User)) (s : AuthStore User)
      → IsSynced s
      → IsSynced (fetch_profile_reply json r s)
  unfolding fetch_profile_reply
  profile_reply-IsSynced (replied none) s h = h
  profile_reply-IsSynced (replied (some u)) s h = (h.0, refl)
  profile_reply-IsSynced (failed e) s h = h

  finish_init-IsSynced : (s : AuthStore User) → IsSynced s → IsSynced (finish_init json s)
  finish_init-IsSynced s h =
      if-holds IsSynced (is_authenticated json s) _ s (validate_token-IsSynced s h) h

  fetch_profile-IsSynced :
      (waits : Bool) (s : AuthStore User) → IsSynced s → IsSynced (fetch_profile json waits s)
  fetch_profile-IsSynced waits s h = if-holds IsSynced (given s.token) _ s h h

  -- The storage gives the session back.
  parse-HoldsUser :
      IsJson json
      → (u : Option User) (kept : Option String) → HoldsUser u kept
      → parse_user json kept ≡ u
  parse-HoldsUser codec none kept h = rw h
  parse-HoldsUser codec (some u) kept h = ap (parse_user json) h ∙ ground (arith, codec u)

  init_auth-IsSynced : IsJson json → (s : AuthStore User) → IsSynced s → IsSynced (init_auth json s)
  unfolding init_auth
  init_auth-IsSynced codec s h =
      let same = parse-HoldsUser codec s.user s.storage.auth_user h.1 in
      let read : IsSynced (read_store json s) =
        (refl, subst (λ u. HoldsUser u s.storage.auth_user) (sym same) h.1) in
      if-holds IsSynced
        (given s.storage.auth_token && not (is_some (parse_user json s.storage.auth_user))) _ _
        (fetch_profile-IsSynced true (read_store json s) read)
        (finish_init-IsSynced (read_store json s) read)

  step-IsSynced :
      IsJson json
      → (e : Event User) (s : AuthStore User) → IsOwn json e
      → IsSynced s
      → IsSynced (step json e s)
  unfolding step
  step-IsSynced codec (login c) s own h = h
  step-IsSynced codec (register d) s own h = h
  step-IsSynced codec (login_answer r) s own h =
      authenticate-IsSynced "Invalid credentials" "Failed to login" r s h
  step-IsSynced codec (register_answer r) s own h =
      authenticate-IsSynced "User already exists" "Failed to register" r s h
  step-IsSynced codec close s own h = logout-IsSynced s
  step-IsSynced codec tick s own h =
      if-holds IsSynced s.auth_check_interval _ s (validate_token-IsSynced s h) h
  step-IsSynced codec (validate_answer (replied valid)) s own h =
      if-holds IsSynced (not valid) _ s (logout-IsSynced s) h
  step-IsSynced codec (validate_answer (failed e)) s own h = h
  step-IsSynced codec profile s own h = fetch_profile-IsSynced false s h
  step-IsSynced codec (profile_answer waits r) s own h =
      if-holds IsSynced waits _ _ (finish_init-IsSynced _ (profile_reply-IsSynced r s h))
        (profile_reply-IsSynced r s h)
  step-IsSynced codec load s own h = init_auth-IsSynced codec s h
  step-IsSynced codec (storage key value written) s own h = absurd own

  -- Whatever this window does and in whatever order the replies come, the storage holds the session
  -- of the store, if it did so at the start and no other window writes to it.
  pub run-IsSynced :
      IsJson json
      → (es : List (Event User)) (s : AuthStore User) → All (IsOwn json) es
      → IsSynced s
      → IsSynced (run json es s)
  run-IsSynced codec [] s own h = h
  run-IsSynced codec (e ∷ es) s own h =
      run-IsSynced codec es (step json e s) own.1 (step-IsSynced codec e s own.0 h)

  -- The session of a store.
  abbrev pub HasSession : Option String → Option User → AuthStore User → Type 0
  HasSession t u s = (s.token ≡ t) × (s.user ≡ u)

  finish_init-HasSession :
      (t : Option String) (u : Option User) (s : AuthStore User)
      → HasSession t u s
      → HasSession t u (finish_init json s)
  finish_init-HasSession t u s h =
      if-holds (HasSession t u) (is_authenticated json s) _ s
        (elim-holds (HasSession t u) s.token s _ h
          (λ x e. if-holds (HasSession t u) (truthy x) _ s h h))
        h

  -- `initAuth` takes the session of the storage.
  init_auth-HasSession :
      (s : AuthStore User)
      → HasSession s.storage.auth_token (parse_user json s.storage.auth_user) (init_auth json s)
  unfolding init_auth
  init_auth-HasSession s =
      if-holds (HasSession _ _) _ _ _
        (if-holds (HasSession _ _) (given s.storage.auth_token) _ (read_store json s) (refl, refl)
          (refl, refl))
        (finish_init-HasSession _ _ (read_store json s) (refl, refl))

  -- To load the page again after any run json of this window restores the session, token and user, if
  -- the storage held the session at the start and no other window writes to it.
  pub load-run :
      IsJson json
      → (es : List (Event User)) (s : AuthStore User) → All (IsOwn json) es
      → IsSynced s
      → let loaded = step json load (fresh json (run json es s).storage) in
        (loaded.token ≡ (run json es s).token)
        × (loaded.user ≡ (run json es s).user)
        × (is_authenticated json loaded ≡ is_authenticated json (run json es s))
  unfolding step
  load-run codec es s own h =
      let (t, u) = init_auth-HasSession (fresh json (run json es s).storage) in
      let (kept, holds) = run-IsSynced codec es s own h in
      let same =
        u ∙ parse-HoldsUser codec (run json es s).user (run json es s).storage.auth_user holds in
      (t ∙ kept, same, rw (t ∙ kept, same))
