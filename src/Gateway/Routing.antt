-- ===== src/Gateway/Routing.antt =====
-- api-gateway-auth/src/modules/routing (routing.controller.ts, routing.service.ts) and
-- src/modules/metrics/request-metrics.interceptor.ts, which main.ts registers for all routes. Guards run
-- before interceptors. The microservices and the `status` of an error are parameters.
pub mod Laws
use synkro.Base.{
  ℕ, String, Bool, true, false, Option, none, some, List, [], ◌∷◌, ◌++◌, map, Result, ok, err,
  Failure, all_of, Action, eqb, if◌then◌else◌, ◌>>=◌, ◌>>◌, pure,
}
use synkro.Gateway.Entities.{User, Bcrypt}
use synkro.Gateway.Repository.{UserRepository, RoleRepository}
use synkro.Gateway.Auth.{Jwt}
use synkro.Gateway.Guards.{roles_guard, jwt_auth_guard}
use synkro.Gateway.Monitoring.{Service, notification, inventory, ai_ml}

-- The routes of `RoutingController`.
pub data RoutingRoute : Type 0 where
  notifications inventory_update predictions broadcast : RoutingRoute

-- What a `ClientProxy` sends: a request (`send`) or an event (`emit`).
pub record Message (D : Type 0) : Type 0 where
  pub service : Service
  pub is_event : Bool
  pub pattern : String
  pub body : D

pub data Reply (R : Type 0) : Type 0 where
  single : R → Reply R
  all : List R → Reply R

-- The labels of `http_requests_total`.
pub record Labels : Type 0 where
  pub http_method : String
  pub path : String
  pub status_code : ℕ

-- The messages that were sent, and the increments of the counter.
pub record Traffic (D : Type 0) : Type 0 where
  pub sent : List (Message D)
  pub counted : List Labels

module _ {D : Type 0} where
  abbrev pub request_to : Service → String → D → Message D
  request_to service pattern body = record {
    service = service;
    is_event = false;
    pattern = pattern;
    body = body;
  }

  abbrev pub event_to : Service → String → D → Message D
  event_to service pattern body = record {
    service = service;
    is_event = true;
    pattern = pattern;
    body = body;
  }

module _ {D R : Type 0} (answers : Message D → Result R) where
  -- `lastValueFrom(client.send(pattern, data))`, and with `emit`
  abbrev pub deliver : Message D → Action (Traffic D) R
  deliver m t = (answers m, record t { sent = t.sent ++ m ∷ [] })

  -- `routeToNotificationService`, `routeToInventoryService` and `routeToAiMlService`
  unfoldable pub route_to : Service → String → D → Action (Traffic D) (Reply R)
  route_to service pattern body = do r ← deliver (request_to service pattern body); pure (single r)

  -- `broadcastEvent`: all three events are sent, whatever their promises end in.
  unfoldable pub broadcast_event : String → D → Action (Traffic D) (Reply R)
  broadcast_event pattern body t =
      let to_notification = event_to notification pattern body in
      let to_inventory = event_to inventory pattern body in
      let to_ai_ml = event_to ai_ml pattern body in
      let results = map answers (to_notification ∷ to_inventory ∷ to_ai_ml ∷ []) in
      (
        elim (all_of results) [ ok rs ↦ ok (all rs) | err e ↦ err e ],
        record t { sent = t.sent ++ to_notification ∷ to_inventory ∷ to_ai_ml ∷ [] },
      )

  -- the handlers of `RoutingController`
  unfoldable pub routing_handler : RoutingRoute → D → Action (Traffic D) (Reply R)
  unfolding route_to broadcast_event
  routing_handler notifications body = route_to notification "createNotification" body
  routing_handler inventory_update body = route_to inventory "updateInventory" body
  routing_handler predictions body = route_to ai_ml "getPrediction" body
  routing_handler broadcast body = broadcast_event "globalEvent" body

-- `200`, or `error.status || 500`
abbrev pub code_of : {R : Type 0} → (Failure → Option ℕ) → Result (Reply R) → ℕ
code_of status (ok reply) = 200
code_of status (err e) = elim (status e) [
  | none ↦ 500
  | some code ↦ if eqb code 0 then 500 else code
]

-- `intercept`, with `error.status`
unfoldable pub intercept :
    {D R : Type 0}
    → (Failure → Option ℕ)
    → String
    → String
    → Action (Traffic D) (Reply R)
    → Action (Traffic D) (Reply R)
intercept status url http_method handler t =
    let (r, t') = handler t in
    let labels : Labels = record {
      http_method = http_method;
      path = url;
      status_code = code_of status r;
    } in
    (r, record t' { counted = t'.counted ++ labels ∷ [] })

module _ {Db D R : Type 0} (users : UserRepository Db) (roles : RoleRepository Db) (bcrypt : Bcrypt)
    (jwt : Jwt) (answers : Message D → Result R) (status : Failure → Option ℕ) where
  -- after the guards
  abbrev pub admitted : Result User → String → RoutingRoute → D → Action (Traffic D) (Reply R)
  admitted (err e) url route body t = (err e, t)
  admitted (ok u) url route body t =
      intercept status url "POST" (routing_handler answers route body) t

  -- A request as the application handles it: `RolesGuard`, which asks for nothing here, then
  -- `JwtAuthGuard`, the interceptor and the handler.
  unfoldable pub routing_request :
      ℕ → Option String → Db → String → RoutingRoute → D → Action (Traffic D) (Reply R)
  unfolding intercept routing_handler
  routing_request now token db url route body t = elim (roles_guard none none) [
    | err e ↦ (err e, t)
    | ok _ ↦ admitted (jwt_auth_guard users roles bcrypt jwt now token db).0 url route body t
  ]
