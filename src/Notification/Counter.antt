-- ===== src/Notification/Counter.antt =====
-- The counter `notifications_sent_total` of notificationService.ts against the stored list.
use synkro.Base.{
  ℕ, suc, ◌+◌, ◌≤◌, Bool, some, List, [], ◌∷◌, ◌++◌, ◌≡◌, inl, inr, arith, if◌then◌else◌,
  Option-cases,
}
use synkro.Notification.{
  Notification, NotificationType, Store, same_type, is_named, without_first, handle, serve, Request,
  post, notification_of, get, remove, delete_notification,
}

module _ {M : Type 0} where
  -- How many stored notifications have a type.
  abbrev pub count_type : NotificationType → List (Notification M) → ℕ
  count_type t [] = 0
  count_type t (n ∷ ns) =
      let rest = count_type t ns in if same_type n.type t then suc rest else rest

  -- No type has more notifications stored than were sent.
  abbrev pub IsCounted : Store M → Type 0
  IsCounted s = (t : NotificationType) → count_type t s.notifications ≤ s.sent t

  count_type-concat :
      (t : NotificationType) (ns : List (Notification M)) (n : Notification M)
      → count_type t (ns ++ n ∷ []) ≡ count_type t ns + (if same_type n.type t then 1 else 0)
  count_type-concat t [] n = ground arith
  count_type-concat t (x ∷ xs) n = ground (arith, count_type-concat t xs n)

  count_type-without_first :
      (t : NotificationType) (p : Notification M → Bool) (xs ys : List (Notification M))
      → without_first p xs ≡ some ys
      → count_type t ys ≤ count_type t xs
  count_type-without_first t p [] ys e = ground arith
  count_type-without_first t p (x ∷ xs) ys e = elim (Option-cases (without_first p xs)) [
    | inl gone ↦ ground arith
    | inr (zs, found) ↦ ground (arith, count_type-without_first t p xs zs found)
  ]

  handle-IsCounted : (r : Request M) (s : Store M) → IsCounted s → IsCounted (handle r s).1
  unfolding handle
  handle-IsCounted (post uuid now dto) s h t =
      rw (count_type-concat t s.notifications (notification_of uuid now dto)) (ground (arith, h t))
  handle-IsCounted (get tenant user) s h t = h t
  handle-IsCounted (remove tenant id) s h t =
      elim (Option-cases (without_first (is_named id tenant) s.notifications)) [
        | inl gone ↦ rw (gone, delete_notification) (h t)
        | inr (ns, found) ↦
            rw (found, delete_notification)
              (omega (
                arith,
                h t,
                count_type-without_first t (is_named id tenant) s.notifications ns found,
              ))
      ]

  -- Whatever requests a service that starts empty has handled, it never stores more notifications
  -- of a type than its counter says were sent.
  pub serve-IsCounted : (rs : List (Request M)) (s : Store M) → IsCounted s → IsCounted (serve rs s)
  serve-IsCounted [] s h = h
  serve-IsCounted (r ∷ rs) s h = serve-IsCounted rs (handle r s).1 (handle-IsCounted r s h)
