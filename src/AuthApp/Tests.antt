-- ===== src/AuthApp/Tests.antt =====
-- The authentication application at concrete inputs; a user is its own text.
use synkro.Base.{String, true, false, none, some, List, [], ◌∷◌, ◌≡◌, refl}
use synkro.AuthApp.Store.{
  Json, IsJson, Storage, AuthStore, Reply, AuthData, replied, is_authenticated,
}
use synkro.AuthApp.Store.Runs.{
  Event, close, load, login, login_answer, profile_answer, validate_answer, step, run, fresh,
}
use synkro.AuthApp.Store.Sync.{IsSynced, run-IsSynced}
use synkro.AuthApp.Store.Replies.{run-close}
use synkro.AuthApp.Router.{Route, navigate, IsAllowed, profile, navigate-IsAllowed}

abbrev plain : Json String
plain = record { stringify = λ u. u; parse = λ text. some (some text) }

plain-IsJson : IsJson plain
plain-IsJson u = refl

abbrev empty_storage : Storage
empty_storage = record {
  auth_token = none;
  auth_user = none;
  other_token = none;
  other_user = none;
}

abbrev new_store : AuthStore String
new_store = fresh plain empty_storage

abbrev answer : Reply (AuthData String)
answer = replied (record { access_token = some "t1"; user = some "ann" })

abbrev session_events : List (Event String)
session_events =
    load
    ∷ login (record { email = "ann@x"; password = "secret" })
    ∷ login_answer answer
    ∷ validate_answer (replied true)
    ∷ []

abbrev late_events : List (Event String)
late_events =
    profile_answer false (replied (some "ann")) ∷ validate_answer (replied true) ∷ load ∷ []

run-IsSynced_example : IsSynced plain (run plain session_events new_store)
run-IsSynced_example =
    run-IsSynced plain plain-IsJson session_events new_store (tt, (tt, (tt, (tt, tt)))) (refl, refl)

run-close_example :
    let s' = run plain late_events (step plain close (run plain session_events new_store)) in
    (is_authenticated plain s' ≡ false) × (s'.storage.auth_token ≡ none)
run-close_example =
    run-close plain late_events (run plain session_events new_store) (tt, (tt, (tt, tt)))

navigate-IsAllowed_example :
    (page : Route) × (navigate 2 false profile ≡ some page) × IsAllowed false page
navigate-IsAllowed_example = navigate-IsAllowed 0 false profile
