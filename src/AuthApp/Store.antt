-- ===== src/AuthApp/Store.antt =====
-- frontend-auth/src/stores/auth.store.ts. An `async` function is the part up to its `await`, which
-- sends a call, and one for the reply, so that other calls can come between; it runs in a browser, and the
-- reading of the storage with which the store begins is left to `init_auth`, which repeats it.
-- The keys are the defaults of `TOKEN_KEY` and `USER_KEY`. `User` is what `JSON` carries.
pub mod Runs
pub mod Sync
pub mod Replies
use synkro.Base.{
  String, Bool, true, false, not, ◌&&◌, ◌||◌, Option, none, some, List, [], ◌∷◌, ◌++◌, ◌≡◌, ◌==◌,
  is_some, given, or_other, truthy, if◌then◌else◌,
}

pub record LoginCredentials : Type 0 where
  pub email : String
  pub password : String

pub record RegisterData : Type 0 where
  pub email : String
  pub password : String
  pub name : String

-- `JSON.stringify` and `JSON.parse`: `none` where it throws, `some none` for the text `null`.
pub record Json (User : Type 0) : Type 0 where
  pub stringify : User → String
  pub parse : String → Option (Option User)

abbrev pub IsJson : {User : Type 0} → Json User → Type 0
IsJson {User} json = (u : User) → json.parse (json.stringify u) ≡ some (some u)

-- `localStorage`: the keys `auth_token`, `auth_user`, and the ones that other applications write.
pub record Storage : Type 0 where
  pub auth_token : Option String
  pub auth_user : Option String
  pub other_token : Option String
  pub other_user : Option String

-- What is sent to the gateway; `profile true` is the call that `initAuth` waits for.
pub data Call : Type 0 where
  validate_call logout_call : String → Call
  login_call : LoginCredentials → Call
  register_call : RegisterData → Call
  profile_call : Bool → Call

-- `err.message` and `err.response?.data?.message`
pub record ApiError : Type 0 where
  pub message : String
  pub response_message : Option String

pub data Reply (A : Type 0) : Type 0 where
  replied : A → Reply A
  failed : ApiError → Reply A

-- `response.data` of a login or a registration
pub record AuthData (User : Type 0) : Type 0 where
  pub access_token : Option String
  pub user : Option User

pub record AuthStore (User : Type 0) : Type 0 where
  pub token : Option String
  pub user : Option User
  pub loading : Bool
  pub error : Option String
  -- whether an interval is set
  pub auth_check_interval : Bool
  pub storage : Storage
  pub sent : List Call

abbrev pub invalid_response : ApiError
invalid_response = record { message = "Invalid response from server"; response_message = none }

-- The message that the `catch` of `login` and `register` stores and throws; `known` is the one that
-- it passes on, `fallback` the one where the server says nothing.
abbrev pub error_message : String → String → ApiError → String
error_message known fallback e =
    if e.message == known
    then known
    else elim e.response_message [ none ↦ fallback | some m ↦ if truthy m then m else fallback ]

-- `a === b` on texts that may be null
abbrev pub same_text : Option String → Option String → Bool
same_text none none = true
same_text (some a) (some b) = a == b
same_text _ _ = false

module _ {User : Type 0} (json : Json User) where
  abbrev pub is_authenticated : AuthStore User → Bool
  is_authenticated s = given s.token && is_some s.user

  abbrev pub send : Call → AuthStore User → AuthStore User
  send c s = record s { sent = s.sent ++ c ∷ [] }

  -- `validateToken`, up to its `await`
  abbrev pub validate_token : AuthStore User → AuthStore User
  validate_token s = elim s.token [
    | none ↦ s
    | some t ↦ if truthy t then send (validate_call t) s else s
  ]

  abbrev pub start_auth_check : AuthStore User → AuthStore User
  start_auth_check s = record (validate_token s) { auth_check_interval = true }

  abbrev pub stop_auth_check : AuthStore User → AuthStore User
  stop_auth_check s = record s { auth_check_interval = false }

  -- `logout`; the reply of the gateway changes nothing
  unfoldable pub logout : AuthStore User → AuthStore User
  logout s =
      let closed : AuthStore User = record (stop_auth_check s) {
        token = none;
        user = none;
        storage = record s.storage { auth_token = none; auth_user = none };
      } in
      elim s.token [
        | none ↦ closed
        | some t ↦ if truthy t then send (logout_call t) closed else closed
      ]

  -- `validateToken`, from the reply on
  unfoldable pub validate_token_reply : Reply Bool → AuthStore User → AuthStore User
  unfolding logout
  validate_token_reply (replied is_valid) s = if not is_valid then logout s else s
  validate_token_reply (failed e) s = s

  -- the session that a reply with a token and a user opens
  abbrev pub open_session : String → User → AuthStore User → AuthStore User
  open_session t u s = start_auth_check (record s {
    token = some t;
    user = some u;
    storage = record s.storage { auth_token = some t; auth_user = some (json.stringify u) };
  })

  -- the reply to `login` or `register`: the message of the error that is thrown, and the store
  abbrev pub authenticate :
      String → String → Reply (AuthData User) → AuthStore User → Option String × AuthStore User
  authenticate known fallback (failed e) s =
      let m = error_message known fallback e in
      (some m, record s { error = some m; loading = false })
  authenticate known fallback (replied answer) s =
      let m = error_message known fallback invalid_response in
      let refused : AuthStore User = record s { error = some m; loading = false } in
      elim answer.access_token [
        | none ↦ (some m, refused)
        | some t ↦ elim answer.user [
          | none ↦ (some m, refused)
          | some u ↦
              if truthy t
              then (none, record (open_session t u s) { loading = false })
              else (some m, refused)
        ]
      ]

  -- `login` and `register`, up to their `await`
  abbrev pub begin : Call → AuthStore User → AuthStore User
  begin c s = send c (record s { loading = true; error = none })

  unfoldable pub login_reply :
      Reply (AuthData User) → AuthStore User → Option String × AuthStore User
  login_reply = authenticate "Invalid credentials" "Failed to login"

  unfoldable pub register_reply :
      Reply (AuthData User) → AuthStore User → Option String × AuthStore User
  register_reply = authenticate "User already exists" "Failed to register"

  -- `fetchProfile`, up to its `await`
  abbrev pub fetch_profile : Bool → AuthStore User → AuthStore User
  fetch_profile waits s = if given s.token then send (profile_call waits) s else s

  -- `fetchProfile`, from the reply on; no data is `none`
  unfoldable pub fetch_profile_reply : Reply (Option User) → AuthStore User → AuthStore User
  fetch_profile_reply (replied (some u)) s = record s {
    user = some u;
    storage = record s.storage { auth_user = some (json.stringify u) };
  }
  fetch_profile_reply (replied none) s = s
  fetch_profile_reply (failed e) s = s

  -- `JSON.parse(text)`, where an exception and the text `null` both make the user null
  abbrev pub parse_user : Option String → Option User
  parse_user none = none
  parse_user (some text) = elim (json.parse text) [ none ↦ none | some u ↦ u ]

  -- `initAuth` from the point where the profile is there
  abbrev pub finish_init : AuthStore User → AuthStore User
  finish_init s = if is_authenticated s then start_auth_check s else s

  unfoldable pub init_auth : AuthStore User → AuthStore User
  init_auth s =
      let read : AuthStore User = record s {
        token = s.storage.auth_token;
        user = parse_user s.storage.auth_user;
      } in
      if given read.token && not (is_some read.user)
      then fetch_profile true read
      else finish_init read

  -- `handleStorageEvent`: the key, the new value, and what another window left in the storage
  unfoldable pub handle_storage_event :
      String → Option String → Storage → AuthStore User → AuthStore User
  unfolding logout
  handle_storage_event key new_value storage before =
      let s : AuthStore User = record before { storage = storage } in
      let new_token = or_other storage.auth_token storage.other_token in
      let user_json = if given storage.auth_user then storage.auth_user else storage.other_user in
      let renewed : AuthStore User = record s {
        token = new_token;
        user = if given user_json then parse_user user_json else none;
      } in
      if not (
        key == "auth_token"
        || key == "auth_user"
        || key == "token"
        || key == "user"
        || key == "auth_state_timestamp")
      then s
      else if (key == "auth_token" || key == "token") && not (given new_value)
      then logout s
      else if same_text new_token before.token
      then s
      else if given new_token
      then start_auth_check renewed
      else stop_auth_check renewed
