-- ===== src/AuthApp/Store/Runs.antt =====
-- Runs of the store: calls, their replies, ticks of the interval and writes of other windows, in any
-- order.
use synkro.Base.{
  String, Bool, true, false, Option, none, some, List, [], ◌∷◌, ◌≡◌, ◌≢◌, arith, truthy,
  if◌then◌else◌, eq_iff, if-splits, elim-splits,
}
use synkro.AuthApp.Store.{
  authenticate, Json, Storage, LoginCredentials, RegisterData, Reply, AuthData, AuthStore,
  validate_token, logout, validate_token_reply, open_session, begin, login_reply, register_reply,
  fetch_profile, fetch_profile_reply, init_auth, finish_init, handle_storage_event, login_call,
  register_call, parse_user, replied, failed,
}

pub data Event (User : Type 0) : Type 0 where
  login : LoginCredentials → Event User
  register : RegisterData → Event User
  login_answer register_answer : Reply (AuthData User) → Event User
  close : Event User
  tick : Event User
  validate_answer : Reply Bool → Event User
  profile : Event User
  profile_answer : Bool → Reply (Option User) → Event User
  load : Event User
  storage : String → Option String → Storage → Event User

module _ {User : Type 0} (json : Json User) where
  unfoldable pub step : Event User → AuthStore User → AuthStore User
  unfolding logout validate_token_reply login_reply register_reply fetch_profile_reply init_auth
      handle_storage_event
  step (login c) s = begin json (login_call c) s
  step (register d) s = begin json (register_call d) s
  step (login_answer r) s = (login_reply json r s).1
  step (register_answer r) s = (register_reply json r s).1
  step close s = logout json s
  step tick s = if s.auth_check_interval then validate_token json s else s
  step (validate_answer r) s = validate_token_reply json r s
  step profile s = fetch_profile json false s
  step (profile_answer waits r) s =
      let s' = fetch_profile_reply json r s in if waits then finish_init json s' else s'
  step load s = init_auth json s
  step (storage key value written) s = handle_storage_event json key value written s

  abbrev pub run : List (Event User) → AuthStore User → AuthStore User
  run [] s = s
  run (e ∷ es) s = run es (step e s)

  -- An event of this window.
  abbrev pub IsOwn : Event User → Type 0
  IsOwn (storage key value written) = ⊥
  IsOwn _ = Unit {0}

  -- An event by which nobody signs in.
  abbrev pub IsQuiet : Event User → Type 0
  IsQuiet (storage key value written) = ⊥
  IsQuiet (login_answer r) = ⊥
  IsQuiet (register_answer r) = ⊥
  IsQuiet _ = Unit {0}

  -- What `initAuth` reads.
  abbrev pub read_store : AuthStore User → AuthStore User
  read_store s = record s {
    token = s.storage.auth_token;
    user = parse_user json s.storage.auth_user;
  }

  -- A store that begins with a storage: the page is loaded again.
  abbrev pub fresh : Storage → AuthStore User
  fresh kept = record {
    token = none;
    user = none;
    loading = false;
    error = none;
    auth_check_interval = false;
    storage = kept;
    sent = [];
  }

  -- An answer that opens no session.
  abbrev pub IsRefused : Reply (AuthData User) → Type 0
  IsRefused r =
      (t : String)
      → (u : User) → t ≢ ""
      → r ≢ replied (record { access_token = some t; user = some u })

  -- What holds of all outcomes of an answer.
  pub authenticate-holds :
      (P : Option String × AuthStore User → Type 0) (known fallback : String)
      (r : Reply (AuthData User)) (s : AuthStore User)
      → ((m : String) → IsRefused r → P (some m, record s { error = some m; loading = false }))
      → ((t : String)
          → (u : User) → truthy t ≡ true
          → r ≡ replied (record { access_token = some t; user = some u })
          → P (none, record (open_session json t u s) { loading = false }))
      → P (authenticate json known fallback r s)
  authenticate-holds P known fallback (failed e) s refused opened = refused _ (λ t u ne i. cc)
  authenticate-holds P known fallback (replied answer) s refused opened =
      elim-splits P answer.access_token _ _ (λ e. refused _ (λ t u ne i. ground arith))
        (λ t e.
          elim-splits P answer.user _ _ (λ f. refused _ (λ t' u ne i. ground arith))
            (λ u f.
              if-splits P (truthy t) _ _ (λ full. opened t u full (ground arith))
                (λ empty. refused _ (λ t' u' ne i. ground (arith, eq_iff t "")))))
