-- ===== src/Gateway/Routing/Laws.antt =====
-- Who can have a message sent to a service, and which requests are counted.
use synkro.Base.{
  ℕ, suc, String, Bool, true, false, Option, some, List, [], ◌∷◌, ◌++◌, ◌≡◌, ◌⊎◌, Result, ok, err,
  Failure,
}
use synkro.Gateway.Entities.{Bcrypt}
use synkro.Gateway.Repository.{UserRepository, RoleRepository}
use synkro.Gateway.Auth.{Jwt}
use synkro.Gateway.Monitoring.{Service, notification, inventory, ai_ml}
use synkro.Gateway.Routing.{
  RoutingRoute, notifications, inventory_update, predictions, broadcast, Message, Reply, single,
  all, Traffic,
}

-- A message, `true` for an event.
abbrev message : {D : Type 0} → Service → Bool → String → D → Message D
message to event name content = record {
  service = to;
  is_event = event;
  pattern = name;
  body = content;
}

-- The messages that a route stands for.
abbrev pub messages_of : {D : Type 0} → RoutingRoute → D → List (Message D)
messages_of notifications body = message notification false "createNotification" body ∷ []
messages_of inventory_update body = message inventory false "updateInventory" body ∷ []
messages_of predictions body = message ai_ml false "getPrediction" body ∷ []
messages_of broadcast body =
    message notification true "globalEvent" body
    ∷ message inventory true "globalEvent" body
    ∷ message ai_ml true "globalEvent" body
    ∷ []

-- 500 where the error has no status, or the status 0
abbrev pub IsErrorStatus : Option ℕ → ℕ → Type 0
IsErrorStatus (some (suc n)) code = code ≡ suc n
IsErrorStatus _ code = code ≡ 500

module _ {R : Type 0} where
  -- the reply to one message, from what its service answers
  abbrev pub IsSingle : Result R → Result (Reply R) → Type 0
  IsSingle (ok a) r = r ≡ ok (single a)
  IsSingle (err e) r = r ≡ err e

  -- the reply to three: all answers, or the error of one of them
  abbrev pub IsAll : Result R → Result R → Result R → Result (Reply R) → Type 0
  IsAll (ok a) (ok b) (ok c) r = r ≡ ok (all (a ∷ b ∷ c ∷ []))
  IsAll p q s r = (e : Failure) × (r ≡ err e) × ((p ≡ err e) ⊎ ((q ≡ err e) ⊎ (s ≡ err e)))

  abbrev pub IsStatus : (Failure → Option ℕ) → Result (Reply R) → ℕ → Type 0
  IsStatus status (ok reply) code = code ≡ 200
  IsStatus status (err e) code = IsErrorStatus (status e) code

module _ {D R : Type 0} (answers : Message D → Result R) where
  abbrev pub IsReply : RoutingRoute → D → Result (Reply R) → Type 0
  IsReply notifications body r =
      IsSingle (answers (message notification false "createNotification" body)) r
  IsReply inventory_update body r =
      IsSingle (answers (message inventory false "updateInventory" body)) r
  IsReply predictions body r = IsSingle (answers (message ai_ml false "getPrediction" body)) r
  IsReply broadcast body r =
      IsAll (answers (message notification true "globalEvent" body))
        (answers (message inventory true "globalEvent" body))
        (answers (message ai_ml true "globalEvent" body)) r

module _ {Db D R : Type 0} (users : UserRepository Db) (roles : RoleRepository Db) (bcrypt : Bcrypt)
    (jwt : Jwt) (answers : Message D → Result R) (status : Failure → Option ℕ) where
  -- A handled request: it sent the messages of its route and was counted once.
  abbrev pub IsHandled :
      String → RoutingRoute → D → Traffic D → Result (Reply R) × Traffic D → Type 0
  IsHandled url route body t (r, t') =
      IsReply answers route body r
      × (code : ℕ) × IsStatus status r code
      × (t' ≡ record {
        sent = t.sent ++ messages_of route body;
        counted = t.counted ++ record { http_method = "POST"; path = url; status_code = code } ∷ [];
      })
