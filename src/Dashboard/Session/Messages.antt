-- ===== src/Dashboard/Session/Messages.antt =====
-- The messages of the authentication application as the dashboard takes them.
use synkro.Base.{
  String, true, false, Option, none, some, List, [], ◌∷◌, ◌≡◌, ◌≢◌, refl, arith, eq_iff, truthy,
}
use synkro.AuthApp.Store.{Json}
use synkro.AuthApp.Messaging.{
  Person, MessageData, text_of, person_of, send_auth_success, send_registration_success,
  send_logout,
}
use synkro.Dashboard.Session.{
  AuthConfig, Browser, EventData, Session, get_user, is_trusted, handle_auth_message, opens, closes,
}

-- A message as it arrives at the embedding window.
abbrev pub delivered : MessageData → EventData
delivered m = record { type = text_of m.type; access_token = m.access_token; user = m.user }

module _ (config : AuthConfig) (json : Json Person) (browser : Browser) where
  -- The messages are handled in order, all from one origin.
  pub receive : String → List MessageData → Session → Session
  unfolding handle_auth_message
  receive origin [] s = s
  receive origin (m ∷ ms) s =
      receive origin ms (handle_auth_message config json browser origin (delivered m) s)

  -- The origin is a URL with the host name of one of the two configured ones.
  abbrev pub IsTrusted : String → Type 0
  IsTrusted origin =
      (host : String) × (browser.hostname origin ≡ some host)
      × (is_trusted config json browser host ≡ true)

  -- The session holds a token and the text of a user.
  abbrev pub SignedIn : String → Person → Session → Type 0
  SignedIn token user s = (s.token ≡ some token) × (s.user ≡ some (json.stringify user))

  open-SignedIn :
      (origin type token : String) (u : Person) (s : Session)
      → IsTrusted origin
      → token ≢ ""
      → opens config json browser type ≡ true
      → SignedIn token u (
          handle_auth_message config json browser origin
            (record { type = type; access_token = some token; user = some u })
            s)
  unfolding handle_auth_message
  open-SignedIn origin type token u s (host, known, trusted) ne open_type =
      let given : truthy token ≡ true = ground (arith, eq_iff token "") in
      (
        rw (handle_auth_message, known, trusted, open_type, given),
        rw (handle_auth_message, known, trusted, open_type, given),
      )

  abbrev pub SignedOut : Session → Type 0
  SignedOut s = (s.token ≡ none) × (s.user ≡ none)

  close-SignedOut :
      (origin type : String) (s : Session)
      → IsTrusted origin
      → opens config json browser type ≡ false
      → closes config json browser type ≡ true
      → SignedOut (
          handle_auth_message config json browser origin
            (record { type = type; access_token = none; user = none })
            s)
  unfolding handle_auth_message
  close-SignedOut origin type s (host, known, trusted) shut close_type = (
    rw (handle_auth_message, known, trusted, shut, close_type),
    rw (handle_auth_message, known, trusted, shut, close_type),
  )

  -- The user that a message brings is the one that `getUser` answers.
  open-get_user :
      (origin type token : String) (u : Person) (s : Session)
      → IsTrusted origin
      → token ≢ ""
      → json.parse (json.stringify u) ≡ some (some u)
      → json.stringify u ≢ ""
      → opens config json browser type ≡ true
      → let s' =
          handle_auth_message config json browser origin
            (record { type = type; access_token = some token; user = some u })
            s in
        (s'.token ≡ some token) × (get_user config json browser s' ≡ some u)
  open-get_user origin type token u s trust ne codec full open_type =
      let (t, text) = open-SignedIn origin type token u s trust ne open_type in
      (t, rw text (ground (arith, eq_iff (json.stringify u) "")))

  -- A login or a registration in the embedded application signs the dashboard in with the same token
  -- and user, and a logout there signs it out, if the application's origin is trusted, the token is
  -- not empty and the user's text, not empty either, gives the user back; a login in a top window
  -- posts nothing.
  pub receive-send :
      (origin token : String) (u : Option Person) (s : Session)
      → IsTrusted origin
      → token ≢ ""
      → json.parse (json.stringify (person_of u)) ≡ some (some (person_of u))
      → json.stringify (person_of u) ≢ ""
      → let login = receive origin (send_auth_success true u token) s in
        let joined = receive origin (send_registration_success true u token) s in
        let out = receive origin (send_logout true) s in
        ((login.token ≡ some token) × (get_user config json browser login ≡ some (person_of u)))
        × ((joined.token ≡ some token) × (get_user config json browser joined ≡ some (person_of u)))
        × ((out.token ≡ none) × (get_user config json browser out ≡ none))
        × (receive origin (send_auth_success false u token) s ≡ s)
  unfolding receive send_auth_success send_registration_success send_logout
  receive-send origin token u s trust ne codec full =
      let signed =
        open-get_user origin "AUTH_STATUS_AUTHENTICATED" token (person_of u) _ trust ne codec full
          refl in
      let joined =
        open-get_user origin "AUTH_STATUS_AUTHENTICATED" token (person_of u) _ trust ne codec full
          refl in
      let (t, text) = close-SignedOut origin "AUTH_STATUS_UNAUTHENTICATED" _ trust refl refl in
      (signed, joined, (t, rw (get_user, text)), refl)
