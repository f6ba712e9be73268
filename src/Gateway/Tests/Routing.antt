-- ===== src/Gateway/Tests/Routing.antt =====
-- Requests to the routes that forward to services, at concrete inputs.
use synkro.Base.{
  ℕ, String, Option, none, some, [], ◌∷◌, ◌≡◌, refl, Failure, failure, Result, ok, err,
}
use synkro.Gateway.Memory.{memory_users, memory_roles, memory_bcrypt, memory_jwt, sample}
use synkro.Gateway.Guards.{roles_guard, jwt_auth_guard, validate}
use synkro.Gateway.Users
use synkro.Gateway.Monitoring.{notification, inventory, ai_ml}
use synkro.Gateway.Routing.{broadcast, Message, Traffic, event_to, routing_request}

abbrev quiet : Traffic String
quiet = record { sent = []; counted = [] }

-- The service of predictions does not answer.
abbrev answers : Message String → Result String
answers m = elim m.service [ ai_ml ↦ err (failure "ECONNREFUSED") | _ ↦ ok "done" ]

abbrev status : Failure → Option ℕ
status e = none

-- The failing broadcast reaches the other services, and is counted as 500.
broadcast_half :
    routing_request memory_users memory_roles memory_bcrypt memory_jwt answers status 0
      (some "h.ann.s")
      sample
      "/api/api/broadcast"
      broadcast
      "hi"
      quiet
    ≡ (
      err (failure "ECONNREFUSED"),
      record {
        sent =
            event_to notification "globalEvent" "hi"
            ∷ event_to inventory "globalEvent" "hi"
            ∷ event_to ai_ml "globalEvent" "hi"
            ∷ [];
        counted =
            record { http_method = "POST"; path = "/api/api/broadcast"; status_code = 500 } ∷ [];
      },
    )
unfolding routing_request jwt_auth_guard validate roles_guard Users.find_one
broadcast_half = refl
