-- ===== src/Notification.antt =====
-- notification-service/src/types/index.ts, src/services/notificationService.ts and the routes of
-- src/main.ts. `crypto.randomUUID()` and `new Date()` come in as arguments; the metadata of a
-- notification is an opaque value that the service copies.
pub mod Laws
pub mod Counter
mod Tests
use synkro.Base.{
  ℕ, ◌+◌, String, Bool, true, false, not, ◌&&◌, ◌||◌, Option, none, some, List, [], ◌∷◌, ◌++◌, ◌==◌,
  keep, given, if◌then◌else◌,
}

pub data NotificationType : Type 0 where
  info warning error success : NotificationType

pub record Notification (M : Type 0) : Type 0 where
  pub id : String
  pub type : NotificationType
  pub message : String
  pub user_id : Option String
  pub tenant_id : String
  pub metadata : Option M
  pub created_at : ℕ

pub record CreateNotificationDto (M : Type 0) : Type 0 where
  pub type : NotificationType
  pub message : String
  pub user_id : Option String
  pub tenant_id : String
  pub metadata : Option M

-- The private field `notifications`, and the counter `notifications_sent_total` by its label.
pub record Store (M : Type 0) : Type 0 where
  pub notifications : List (Notification M)
  pub sent : NotificationType → ℕ

-- `optional === s`, where `undefined` is equal to no text
abbrev pub is_text : Option String → String → Bool
is_text none s = false
is_text (some t) s = t == s

-- `n.userId === userId`
abbrev pub same_user : Option String → Option String → Bool
same_user o none = false
same_user o (some u) = is_text o u

abbrev pub same_type : NotificationType → NotificationType → Bool
same_type info info = true
same_type warning warning = true
same_type error error = true
same_type success success = true
same_type _ _ = false

-- `counter.inc({ type })`
abbrev pub inc : NotificationType → (NotificationType → ℕ) → NotificationType → ℕ
inc t sent u = if same_type t u then sent u + 1 else sent u

module _ {M : Type 0} where
  -- `{ id: crypto.randomUUID(), ...dto, createdAt: new Date() }`
  abbrev pub notification_of : String → ℕ → CreateNotificationDto M → Notification M
  notification_of uuid now dto = record {
    id = uuid;
    type = dto.type;
    message = dto.message;
    user_id = dto.user_id;
    tenant_id = dto.tenant_id;
    metadata = dto.metadata;
    created_at = now;
  }

  pub create_notification :
      String → ℕ → CreateNotificationDto M → Store M → Notification M × Store M
  create_notification uuid now dto s =
      let notification = notification_of uuid now dto in
      (
        notification,
        record { notifications = s.notifications ++ notification ∷ []; sent = inc dto.type s.sent },
      )

  -- the predicate of the filter: `n.tenantId === tenantId && (!userId || n.userId === userId)`
  abbrev pub is_shown : String → Option String → Notification M → Bool
  is_shown tenant user n = (n.tenant_id == tenant) && (not (given user) || same_user n.user_id user)

  pub get_notifications : String → Option String → Store M → List (Notification M)
  get_notifications tenant user s = keep (is_shown tenant user) s.notifications

  -- the predicate of `findIndex`
  abbrev pub is_named : String → String → Notification M → Bool
  is_named id tenant n = (n.id == id) && (n.tenant_id == tenant)

  -- `findIndex` and `splice(index, 1)`: the list without the first match; `none` at index -1
  abbrev pub without_first :
      (Notification M → Bool) → List (Notification M) → Option (List (Notification M))
  without_first p [] = none
  without_first p (n ∷ ns) =
      let rest = without_first p ns in
      if p n then some ns else (elim rest [ none ↦ none | some ms ↦ some (n ∷ ms) ])

  pub delete_notification : String → String → Store M → Bool × Store M
  delete_notification id tenant s = elim (without_first (is_named id tenant) s.notifications) [
    | none ↦ (false, s)
    | some ns ↦ (true, record s { notifications = ns })
  ]

-- The routes of `src/main.ts` that reach the service. `remove tenant id` is
-- `DELETE /api/v1/notifications/:tenantId/:id`.
pub data Request (M : Type 0) : Type 0 where
  post : String → ℕ → CreateNotificationDto M → Request M
  get : String → Option String → Request M
  remove : String → String → Request M

pub data Response (M : Type 0) : Type 0 where
  created : Notification M → Response M
  listed : List (Notification M) → Response M
  deleted : Bool → Response M

module _ {M : Type 0} where
  pub handle : Request M → Store M → Response M × Store M
  unfolding create_notification get_notifications delete_notification
  handle (post uuid now dto) s = let (n, s') = create_notification uuid now dto s in (created n, s')
  handle (get tenant user) s = (listed (get_notifications tenant user s), s)
  handle (remove tenant id) s = let (b, s') = delete_notification id tenant s in (deleted b, s')

  -- The service after a sequence of requests.
  abbrev pub serve : List (Request M) → Store M → Store M
  serve [] s = s
  serve (r ∷ rs) s = serve rs (handle r s).1

abbrev pub empty_store : {M : Type 0} → Store M
empty_store = record { notifications = []; sent = λ t. 0 }
