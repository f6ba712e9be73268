-- ===== src/Notification/Tests.antt =====
-- The notification service at concrete inputs.
use synkro.Base.{◌++◌, ◌≡◌, refl, none, some, [], ◌∷◌, List, arith, All, ℕ}
use synkro.Notification.{
  CreateNotificationDto, NotificationType, Store, empty_store, create_notification,
  get_notifications, serve, post, Request, notification_of,
}
use synkro.Notification.Laws.{IsFor, get_notifications-IsFor, get-create}
use synkro.Notification.Counter.{IsCounted, serve-IsCounted}

abbrev hello : CreateNotificationDto ℕ
hello = record {
  type = NotificationType.info;
  message = "hello";
  user_id = some "ann";
  tenant_id = "t1";
  metadata = none;
}

abbrev two_requests : List (Request ℕ)
two_requests = post "n1" 5 hello ∷ post "n2" 6 (record hello { tenant_id = "t2" }) ∷ []

abbrev stored : Store ℕ
stored = (create_notification "n1" 5 hello empty_store).1

list_of_ann : get_notifications "t1" (some "ann") stored ≡ notification_of "n1" 5 hello ∷ []
unfolding create_notification get_notifications
list_of_ann = refl

list_of_bob : get_notifications "t1" (some "bob") stored ≡ []
unfolding create_notification get_notifications
list_of_bob = refl

get_notifications-IsFor_example :
    All (IsFor "t1" (some "ann")) (get_notifications "t1" (some "ann") stored)
get_notifications-IsFor_example = get_notifications-IsFor "t1" (some "ann") stored

get-create_example :
    let (n, s') = create_notification "n2" 6 hello stored in
    (IsFor "t1" none n
      → get_notifications "t1" none s' ≡ get_notifications "t1" none stored ++ n ∷ [])
    × (¬ IsFor "t1" none n → get_notifications "t1" none s' ≡ get_notifications "t1" none stored)
get-create_example = get-create "n2" 6 hello stored "t1" none

serve-IsCounted_example : IsCounted (serve two_requests empty_store)
serve-IsCounted_example = serve-IsCounted two_requests empty_store (λ t. omega arith)
