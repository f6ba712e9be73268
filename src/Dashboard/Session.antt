-- ===== src/Dashboard/Session.antt =====
-- frontend-dashboard/src/services/auth.service.ts and the helpers of src/utils/helpers.ts that it
-- calls, in a browser (on the server every method returns at once). `window.location` is kept as a
-- flag, that the window was sent to the login page.
pub mod Messages
pub mod Validation
use synkro.Base.{
  ℕ, ◌+◌, ◌/◌, String, Bool, true, false, not, ◌&&◌, ◌||◌, Option, none, some, List, [], ◌∷◌, ◌++◌,
  ◌==◌, ltb, eqb, is_some, given, truthy, any_of, if◌then◌else◌,
}
use synkro.Gateway.Tokens.{split_dots}
use synkro.AuthApp.Store.{Json}
use synkro.AuthApp.Messaging.{Person}

-- `AUTH_CONFIG`
pub record AuthConfig : Type 0 where
  pub auth_service_url : String
  pub auth_interface_url : String

-- What of the browser's built-in objects is a parameter: the host name of `new URL(text)`, `none`
-- where that throws, and the claim `exp` of `JSON.parse(atob(part))`, `none` where that throws or the
-- claim is missing.
pub record Browser : Type 0 where
  pub hostname : String → Option String
  pub exp_of : String → Option ℕ

-- `event.data`
pub record EventData : Type 0 where
  pub type : String
  pub access_token : Option String
  pub user : Option Person

-- what `broadcastAuthEvent` posts
pub data Broadcast : Type 0 where
  auth_success : String → Person → Broadcast
  auth_logout : Broadcast

pub data Post : Type 0 where
  validate_post : String → Post
  logout_post : Post

-- The keys of `localStorage` and the rest of what the service changes. The times are numbers of
-- milliseconds, and the texts of a number or a Boolean are kept as what they stand for.
pub record Session : Type 0 where
  pub token : Option String
  pub user : Option String
  pub last_token_validation_time : Option ℕ
  pub token_validation_result : Option Bool
  pub auth_check_interval : Bool
  pub broadcasts : List (String × Broadcast)
  pub posts : List Post
  pub reloads : ℕ
  pub at_login : Bool

abbrev pub validation_cooldown : ℕ
validation_cooldown = 10000

-- `parts[1]`, where there are three parts
abbrev pub payload_part : List String → Option String
payload_part (a ∷ b ∷ c ∷ []) = some b
payload_part _ = none

module _ (config : AuthConfig) (json : Json Person) (browser : Browser) where
  abbrev pub trusted_origins : List String
  trusted_origins = config.auth_service_url ∷ config.auth_interface_url ∷ []

  -- `isTokenExpired`; `parseJwt` is in it
  unfoldable pub is_token_expired : ℕ → String → Bool
  is_token_expired now token = elim (payload_part (split_dots token)) [
    | none ↦ false
    | some part ↦ elim (browser.exp_of part) [
      | none ↦ false
      | some exp ↦ not (eqb exp 0) && ltb exp (now / 1000)
    ]
  ]

  -- `broadcastAuthEvent`
  abbrev pub broadcast : Broadcast → Session → Session
  broadcast b s = record s {
    broadcasts = s.broadcasts ++ (config.auth_service_url, b) ∷ (config.auth_interface_url, b) ∷ [];
  }

  abbrev pub get_token : Session → Option String
  get_token s = s.token

  -- `getUser`
  abbrev pub get_user : Session → Option Person
  get_user s = elim s.user [
    | none ↦ none
    | some text ↦
        if truthy text then (elim (json.parse text) [ none ↦ none | some u ↦ u ]) else none
  ]

  abbrev pub is_authenticated : Session → Bool
  is_authenticated s = given s.token

  abbrev pub set_auth : String → Person → Session → Session
  set_auth token user s =
      broadcast (auth_success token user)
        (record s { token = some token; user = some (json.stringify user) })

  abbrev pub clear_auth : Session → Session
  clear_auth s = broadcast auth_logout (record s {
    token = none;
    user = none;
    last_token_validation_time = none;
    token_validation_result = none;
  })

  abbrev pub redirect_to_login : Session → Session
  redirect_to_login s = record s { at_login = true }

  abbrev pub is_trusted : String → Bool
  is_trusted host =
      any_of (λ trusted. elim (browser.hostname trusted) [ none ↦ false | some h ↦ h == host ])
        trusted_origins

  abbrev pub opens : String → Bool
  opens type = type == "AUTH_SUCCESS" || type == "AUTH_STATUS_AUTHENTICATED"

  abbrev pub closes : String → Bool
  closes type =
      type == "AUTH_LOGOUT" || type == "LOGOUT_SUCCESS" || type == "AUTH_STATUS_UNAUTHENTICATED"

  -- a message of the types that `opens` names
  abbrev pub open_message : EventData → Session → Session
  open_message m s =
      let unsigned =
        if m.type == "AUTH_STATUS_AUTHENTICATED" && not (is_authenticated s)
        then redirect_to_login s
        else s in
      elim m.access_token [
        | none ↦ unsigned
        | some token ↦ elim m.user [
          | none ↦ unsigned
          | some user ↦
              if truthy token
              then (let s' : Session = set_auth token user s in
                  record s' { reloads = s.reloads + 1 })
              else unsigned
        ]
      ]

  -- `handleAuthMessage`; an origin that is no URL makes it throw before it does anything
  unfoldable pub handle_auth_message : String → EventData → Session → Session
  handle_auth_message origin m s = elim (browser.hostname origin) [
    | none ↦ s
    | some host ↦
        if not (is_trusted host)
        then s
        else if opens m.type
        then open_message m s
        else if closes m.type
        then clear_auth s
        else s
  ]

  -- the answer that is still good, if there is one
  abbrev pub cached_result : ℕ → Session → Option Bool
  cached_result now s = elim s.last_token_validation_time [
    | none ↦ none
    | some last ↦ if ltb now (last + validation_cooldown) then s.token_validation_result else none
  ]

  -- `validateToken`, up to its `await`: the answer, or `none` where the gateway is asked
  unfoldable pub validate_token : ℕ → Session → Option Bool × Session
  unfolding is_token_expired
  validate_token now s = elim s.token [
    | none ↦ (some false, clear_auth s)
    | some token ↦
        if not (truthy token) || is_token_expired now token
        then (some false, clear_auth s)
        else elim (cached_result now s) [
          | none ↦ (none, record s { posts = s.posts ++ validate_post token ∷ [] })
          | some valid ↦ (some valid, s)
        ]
  ]

  -- `validateToken`, from the reply on; `now` is the time of the call, and `none` a failure
  unfoldable pub validate_reply : ℕ → Option Bool → Session → Bool × Session
  validate_reply now none s = (true, s)
  validate_reply now (some valid) s =
      let s' : Session = record s {
        last_token_validation_time = some now;
        token_validation_result = some valid;
      } in
      if not valid then (false, clear_auth s') else (true, s')

  abbrev pub stop_auth_check : Session → Session
  stop_auth_check s = record s { auth_check_interval = false }

  -- `startAuthCheck`, but for the timer of its first validation
  abbrev pub start_auth_check : Session → Session
  start_auth_check s = if given s.token then record s { auth_check_interval = true } else s

  -- one tick of the interval
  unfoldable pub interval_tick : ℕ → Session → Session
  unfolding validate_token
  interval_tick now s =
      if not s.auth_check_interval
      then s
      else if given s.token
      then (validate_token now s).1
      else stop_auth_check s

  -- `logout`: the post, and what follows whether it fails or not
  unfoldable pub logout : Session → Session
  logout s = record s { posts = s.posts ++ logout_post ∷ [] }

  unfoldable pub logout_reply : Session → Session
  logout_reply s = redirect_to_login (clear_auth s)
