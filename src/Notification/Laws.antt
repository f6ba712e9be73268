-- ===== src/Notification/Laws.antt =====
-- What the store of notification-service/src/services/notificationService.ts promises its tenants.
use synkro.Base.{
  ℕ, String, Bool, true, false, Option, none, some, List, [], ◌∷◌, ◌++◌, ◌≡◌, ◌≢◌, ◌↔◌, ◌⊎◌, refl,
  inl, inr, arith, eq_iff, ==_refl, keep, All, Bool-cases, Option-cases, append-nil,
}
use synkro.Notification.{
  Notification, CreateNotificationDto, Store, notification_of, is_shown, is_named,
  create_notification, get_notifications, delete_notification, without_first, inc,
}

-- The user that is asked for owns it; with no user, or an empty one, every owner will do.
abbrev pub Asks : Option String → Option String → Type 0
Asks none owner = Unit
Asks (some u) owner = (u ≡ "") ⊎ (owner ≡ some u)

module _ {M : Type 0} where
  -- Whom a notification is for.
  abbrev pub IsFor : String → Option String → Notification M → Type 0
  IsFor tenant user n = (n.tenant_id ≡ tenant) × Asks user n.user_id

  is_shown_iff :
      (tenant : String) (user : Option String) (n : Notification M)
      → (is_shown tenant user n ≡ true) ↔ IsFor tenant user n
  is_shown_iff tenant none n = ground (arith, eq_iff n.tenant_id tenant)
  is_shown_iff tenant (some u) n = elim (Option-cases n.user_id) [
    | inl nobody ↦ ground (arith, eq_iff n.tenant_id tenant, eq_iff u "")
    | inr (o, owner) ↦ ground (arith, eq_iff n.tenant_id tenant, eq_iff u "", eq_iff o u)
  ]

  keep-append :
      (p : Notification M → Bool) (xs ys : List (Notification M))
      → keep p (xs ++ ys) ≡ keep p xs ++ keep p ys
  keep-append p [] ys = refl
  keep-append p (x ∷ xs) ys = ground (arith, keep-append p xs ys)

  keep-All :
      (p : Notification M → Bool) (P : Notification M → Type 0)
      → ((n : Notification M) → p n ≡ true → P n)
      → (xs : List (Notification M)) → All P (keep p xs)
  keep-All p P h [] = tt
  keep-All p P h (x ∷ xs) = elim (Bool-cases (p x)) [
    | inl e ↦ rw e (h x e, keep-All p P h xs)
    | inr e ↦ rw e (keep-All p P h xs)
  ]

  -- Removing the first match leaves what another test keeps, if no notification meets both tests.
  keep-without_first :
      (p q : Notification M → Bool)
      → ((n : Notification M) → p n ≡ true → q n ≡ false)
      → (xs ys : List (Notification M)) → without_first p xs ≡ some ys
      → keep q ys ≡ keep q xs
  keep-without_first p q h [] ys e = cc
  keep-without_first p q h (x ∷ xs) ys e = elim (Bool-cases (p x)) [
    | inl hit ↦ ground (arith, h x)
    | inr miss ↦ elim (Option-cases (without_first p xs)) [
      | inl gone ↦ ground arith
      | inr (zs, found) ↦ ground (arith, keep-without_first p q h xs zs found)
    ]
  ]

  without_first-concat :
      (p : Notification M → Bool) (xs : List (Notification M)) (n : Notification M)
      → All (λ x. p x ≡ false) xs
      → p n ≡ true
      → without_first p (xs ++ n ∷ []) ≡ some xs
  without_first-concat p [] n h e = rw e
  without_first-concat p (x ∷ xs) n h e = rw (h.0, without_first-concat p xs n h.1 e)

module _ {M : Type 0} where
  -- A tenant is shown only its own notifications, and with a user that is not empty only that
  -- user's.
  pub get_notifications-IsFor :
      (tenant : String) (user : Option String) (s : Store M)
      → All (IsFor tenant user) (get_notifications tenant user s)
  unfolding get_notifications
  get_notifications-IsFor tenant user s =
      keep-All (is_shown tenant user) (IsFor tenant user) (λ n. (is_shown_iff tenant user n).0)
        s.notifications

  -- A created notification comes last in every list that it is for, and changes no other list.
  pub get-create :
      (uuid : String) (now : ℕ) (dto : CreateNotificationDto M) (s : Store M) (tenant : String)
      (user : Option String)
      → let (n, s') = create_notification uuid now dto s in
        (IsFor tenant user n
          → get_notifications tenant user s' ≡ get_notifications tenant user s ++ n ∷ [])
        × (¬ IsFor tenant user n
            → get_notifications tenant user s' ≡ get_notifications tenant user s)
  unfolding get_notifications create_notification
  get-create uuid now dto s tenant user =
      let n = notification_of uuid now dto in
      let split = keep-append (is_shown tenant user) s.notifications (n ∷ []) in
      (
        λ shown. rw (split, (is_shown_iff tenant user n).1 shown),
        λ hidden. elim (Bool-cases (is_shown tenant user n)) [
          | inl e ↦ absurd (hidden ((is_shown_iff tenant user n).0 e))
          | inr e ↦ rw (split, e) (append-nil _)
        ],
      )

  -- A delete for one tenant changes no list of another tenant.
  pub get-delete_other :
      (id tenant other : String) (user : Option String) (s : Store M)
      → other ≢ tenant
      → get_notifications other user (delete_notification id tenant s).1
        ≡ get_notifications other user s
  unfolding get_notifications delete_notification
  get-delete_other id tenant other user s ne =
      elim (Option-cases (without_first (is_named id tenant) s.notifications)) [
        | inl gone ↦ rw (gone, delete_notification)
        | inr (ns, found) ↦
            rw (found, delete_notification)
              (keep-without_first (is_named id tenant) (is_shown other user)
                (λ n e. ground (arith, eq_iff n.tenant_id tenant, eq_iff n.tenant_id other))
                s.notifications ns found)
      ]

  -- A notification whose id is new to its tenant can be deleted right away, which restores the
  -- list of notifications; the counter of sent notifications keeps its count.
  pub delete-create :
      (uuid : String) (now : ℕ) (dto : CreateNotificationDto M) (s : Store M)
      → All (λ n. is_named uuid dto.tenant_id n ≡ false) s.notifications
      → let s' = (create_notification uuid now dto s).1 in
        let (deleted, s'') = delete_notification uuid dto.tenant_id s' in
        (deleted ≡ true) × (s''.notifications ≡ s.notifications) × (s''.sent ≡ inc dto.type s.sent)
  unfolding delete_notification create_notification
  delete-create uuid now dto s new =
      let found =
        without_first-concat (is_named uuid dto.tenant_id) s.notifications
          (notification_of uuid now dto) new
          (ground (arith, ==_refl uuid, ==_refl dto.tenant_id)) in
      (
        rw (found, delete_notification),
        rw (found, delete_notification),
        rw (found, delete_notification),
      )
