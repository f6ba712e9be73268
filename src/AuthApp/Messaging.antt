-- ===== src/AuthApp/Messaging.antt =====
-- frontend-auth/src/utils/messaging.ts: the messages to the window that embeds the application.
-- A field that is undefined is `none`.
use synkro.Base.{
  String, Bool, ◌&&◌, Option, none, some, List, [], ◌∷◌, ◌++◌, is_some, if◌then◌else◌,
}

pub data MessageType : Type 0 where
  auth_success auth_error auth_logout registration_success registration_error : MessageType
  auth_status_authenticated auth_status_unauthenticated : MessageType

-- The texts of the enumeration.
abbrev pub text_of : MessageType → String
text_of auth_success = "AUTH_SUCCESS"
text_of auth_error = "AUTH_ERROR"
text_of auth_logout = "AUTH_LOGOUT"
text_of registration_success = "REGISTRATION_SUCCESS"
text_of registration_error = "REGISTRATION_ERROR"
text_of auth_status_authenticated = "AUTH_STATUS_AUTHENTICATED"
text_of auth_status_unauthenticated = "AUTH_STATUS_UNAUTHENTICATED"

-- `{ id, email, name }` of a user
pub record Person : Type 0 where
  pub id : Option String
  pub email : Option String
  pub name : Option String

pub record MessageData : Type 0 where
  pub type : MessageType
  pub message : Option String
  pub user : Option Person
  pub access_token : Option String

abbrev pub message_of : MessageType → MessageData
message_of t = record { type = t; message = none; user = none; access_token = none }

-- `{ id: user?.id, email: user?.email, name: user?.name }`
abbrev pub person_of : Option Person → Person
person_of none = record { id = none; email = none; name = none }
person_of (some u) = u

-- What a call posts to the parent window; in a top window, which is its own parent, nothing.
abbrev pub send_message : Bool → MessageData → List MessageData
send_message in_iframe m = if in_iframe then m ∷ [] else []

-- the two messages of a success
abbrev pub send_success : MessageType → Bool → Option Person → String → List MessageData
send_success t in_iframe user token =
    send_message in_iframe
      (record (message_of t) { user = some (person_of user); access_token = some token })
    ++ send_message in_iframe (record (message_of auth_status_authenticated) {
      user = some (person_of user);
      access_token = some token;
    })

unfoldable pub send_auth_success : Bool → Option Person → String → List MessageData
send_auth_success = send_success auth_success

unfoldable pub send_auth_error : Bool → String → List MessageData
send_auth_error in_iframe m =
    send_message in_iframe (record (message_of auth_error) { message = some m })

unfoldable pub send_logout : Bool → List MessageData
send_logout in_iframe =
    send_message in_iframe (message_of auth_logout)
    ++ send_message in_iframe (message_of auth_status_unauthenticated)

unfoldable pub send_registration_success : Bool → Option Person → String → List MessageData
send_registration_success = send_success registration_success

unfoldable pub send_registration_error : Bool → String → List MessageData
send_registration_error in_iframe m =
    send_message in_iframe (record (message_of registration_error) { message = some m })

unfoldable pub send_auth_status : Bool → Bool → Option Person → Option String → List MessageData
send_auth_status in_iframe is_authenticated user token = send_message in_iframe (record {
  type = if is_authenticated then auth_status_authenticated else auth_status_unauthenticated;
  message = none;
  user = if is_authenticated && is_some user then some (person_of user) else none;
  access_token = token;
})
