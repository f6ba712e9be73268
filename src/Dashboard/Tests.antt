-- ===== src/Dashboard/Tests.antt =====
-- The dashboard's session at concrete inputs.
use synkro.Base.{true, false, none, some, List, [], ◌∷◌, ◌≡◌, refl, arith, eq_iff}
use synkro.AuthApp.Store.{Json}
use synkro.AuthApp.Messaging.{Person, send_auth_success, send_registration_success, send_logout}
use synkro.Dashboard.Session.{AuthConfig, Browser, EventData, Session, get_user, validate_token}
use synkro.Dashboard.Session.Messages.{receive, receive-send}
use synkro.Dashboard.Session.Validation.{
  Event, validate_answer, message, run, KeepsTrue, IsAnswered, run-IsAnswered,
}

abbrev config : AuthConfig
config = record { auth_service_url = "http://a"; auth_interface_url = "http://b" }

abbrev ann : Person
ann = record { id = some "u1"; email = some "ann@x"; name = none }

-- texts that stand for `ann`, for host names and for no claim
abbrev json : Json Person
json = record { stringify = λ u. "{}"; parse = λ text. some (some ann) }

abbrev browser : Browser
browser = record { hostname = λ url. some url; exp_of = λ part. none }

abbrev new_session : Session
new_session = record {
  token = none;
  user = none;
  last_token_validation_time = none;
  token_validation_result = none;
  auth_check_interval = false;
  broadcasts = [];
  posts = [];
  reloads = 0;
  at_login = false;
}

abbrev signed_in : EventData
signed_in = record { type = "AUTH_SUCCESS"; access_token = some "t1"; user = some ann }

abbrev events : List Event
events = message "http://b" signed_in ∷ validate_answer 5 (some true) ∷ []

receive-send_example :
    let login =
      receive config json browser "http://b" (send_auth_success true (some ann) "t1") new_session in
    let joined =
      receive config json browser "http://b"
        (send_registration_success true (some ann) "t1")
        new_session in
    let out = receive config json browser "http://b" (send_logout true) new_session in
    ((login.token ≡ some "t1") × (get_user config json browser login ≡ some ann))
    × ((joined.token ≡ some "t1") × (get_user config json browser joined ≡ some ann))
    × ((out.token ≡ none) × (get_user config json browser out ≡ none))
    × (receive config json browser "http://b" (send_auth_success false (some ann) "t1") new_session
        ≡ new_session)
receive-send_example =
    receive-send config json browser "http://b" "t1" (some ann) new_session ("http://b", refl, refl)
      (ground (arith, eq_iff "t1" "")) refl (ground (arith, eq_iff "{}" ""))

run-IsAnswered_example :
    let s' = run config json browser events new_session in
    KeepsTrue config json browser s'
    × IsAnswered config json browser s' (validate_token config json browser 6 s')
run-IsAnswered_example = run-IsAnswered config json browser events new_session 6 (λ e. cc)
