-- ===== src/Gateway/Users/Effects.antt =====
-- What successful calls of `create`, `update` and `remove` of user.service.ts leave in the database.
use synkro.Base.{
  false, ◌⊎◌, given, Bool-cases, ◌==◌, String, true, Option, none, some, [], ◌≡◌, ◌≢◌, sym, ap,
  subst, inl, inr, ◌∙◌, arith, ok, err, not_found, eq_iff, is_some, or_else, template,
  if◌then◌else◌, Option-cases,
}
use synkro.Gateway.Entities.{
  User, UserRole, NewUser, CreateUserDto, UpdateUserDto, Bcrypt, IsBcrypt, hash_password,
  validate_password, assign,
}
use synkro.Gateway.Repository.{UserRepository, RoleRepository, IsUserRepository, IsStored}
use synkro.Gateway.Users.Steps.{reject_taken_ok, update_ok}
use synkro.Gateway.Users.{reject_taken, create, find_one, update, remove, entity_of}

-- The listener changes nothing but the password, and hashes every password that is not empty.
hash_password_lem :
    (b : Bcrypt) (salt : String) (n : NewUser)
    → ((hash_password b salt n).email ≡ n.email)
      × ((hash_password b salt n).role ≡ n.role)
      × ((hash_password b salt n).is_active ≡ n.is_active)
      × (n.password ≢ "" → (hash_password b salt n).password ≡ b.hash n.password salt)
unfolding hash_password
hash_password_lem b salt n =
    (ground arith, ground arith, ground arith, λ ne. ground (arith, eq_iff n.password ""))

module _ {Db : Type 0} (users : UserRepository Db) (roles : RoleRepository Db) (bcrypt : Bcrypt)
    (laws : IsUserRepository users) where
  create_ok :
      (salt : String) (dto : CreateUserDto) (db : Db) (u : User)
      → (create users roles bcrypt salt dto db).0 ≡ ok u
      → let n = hash_password bcrypt salt (entity_of dto) in
        (users.find_by_email dto.email db ≡ none)
        × ((users.insert n db).0 ≡ ok u)
        × ((create users roles bcrypt salt dto db).1 ≡ (users.insert n db).1)
  unfolding create
  create_ok salt dto db u h = elim (Option-cases (users.find_by_email dto.email db)) [
    | inl free ↦ (free, ground arith, ground arith)
    | inr (x, taken) ↦ absurd (ground arith)
  ]

  -- A user that was created with a password that is not empty had a new email, is active, has the
  -- role `user` unless another was asked for, is found by its email and by its id, and the password
  -- matches the stored one.
  pub create-found :
      (salt : String) (dto : CreateUserDto) (db : Db) (u : User)
      → IsBcrypt bcrypt
      → dto.password ≢ ""
      → (create users roles bcrypt salt dto db).0 ≡ ok u
      → let db' = (create users roles bcrypt salt dto db).1 in
        let w = record u { roles = some [] } in
        (users.find_by_email dto.email db ≡ none)
        × (users.find_by_email dto.email db' ≡ some w)
        × (users.find_by_id u.id db' ≡ some w)
        × (w.is_active ≡ true)
        × (w.role ≡ or_else dto.role UserRole.user)
        × (validate_password bcrypt w dto.password ≡ true)
  unfolding validate_password
  create-found salt dto db u hashes ne h =
      let n = hash_password bcrypt salt (entity_of dto) in
      let (free, saved, same) = create_ok salt dto db u h in
      let answer = laws.insert_answer n u db saved in
      let found = laws.insert_found n u db saved in
      let (email, role, active, hashed) = hash_password_lem bcrypt salt (entity_of dto) in
      (
        free,
        rw same (
            subst
              (λ e.
                users.find_by_email e (users.insert n db).1 ≡ some (record u { roles = some [] }))
              email found.1),
        rw same found.0,
        ap (λ (x : User). x.is_active) answer ∙ active,
        ap (λ (x : User). x.role) answer
            ∙ ap (λ (o : Option UserRole). or_else o UserRole.user) role,
        rw (ap (λ (x : User). x.password) answer, hashed ne) (hashes dto.password salt),
      )

  -- The email that an update sends is missing or empty, or the user's own, or nobody's.
  abbrev pub HasFreeEmail : UpdateUserDto → User → Db → Type 0
  HasFreeEmail dto u db =
      (given dto.email ≡ false)
      ⊎ (dto.email ≡ some u.email)
      ⊎ ((e : String) × (dto.email ≡ some e) × (users.find_by_email e db ≡ none))

  free_email :
      (id : String) (dto : UpdateUserDto) (u : User) (db : Db)
      → (reject_taken users roles bcrypt dto.email u db).0 ≡ ok tt
      → HasFreeEmail dto u db
  free_email id dto u db passed = elim (Option-cases dto.email) [
    | inl missing ↦ inl (ground arith)
    | inr (e, sent) ↦ elim (Bool-cases (e == "")) [
      | inl empty ↦ inl (ground arith)
      | inr full ↦ elim (Bool-cases (e == u.email)) [
        | inl own ↦ inr (inl (ground (arith, eq_iff e u.email)))
        | inr other ↦ inr (
            inr (
              e,
              sent,
              reject_taken_ok users roles bcrypt dto.email u db passed e sent
                  (λ f. ground (arith, eq_iff e "")) (λ f. ground (arith, eq_iff e u.email)),
            ))
      ]
    ]
  ]

  -- A successful update answers the user that was found with the given fields in place of its own,
  -- the password as it was sent, and stores it; an email that was sent, if not empty, was the user's
  -- own or nobody's.
  pub update-IsStored :
      (id : String) (dto : UpdateUserDto) (db : Db) (v : User)
      → (update users roles bcrypt id dto db).0 ≡ ok v
      → let db' = (update users roles bcrypt id dto db).1 in
        (u : User) × (w : User) × (users.find_by_id id db ≡ some u)
        × (v ≡ assign u dto)
        × HasFreeEmail dto u db
        × (users.find_by_id id db' ≡ some w)
        × (users.find_by_email v.email db' ≡ some w)
        × IsStored v w
  unfolding assign
  update-IsStored id dto db v h =
      let (u, found, passed, saved, same) = update_ok users roles bcrypt id dto db v h in
      let (w, by_id, by_email, stored) = laws.save_found (assign u dto) db v saved in
      let answer = laws.save_answer (assign u dto) db v saved in
      let own : (assign u dto).id ≡ id = laws.found_id id u db found in
      (
        u,
        w,
        found,
        answer,
        free_email id dto u db passed,
        rw same
            (subst (λ i. users.find_by_id i (users.save (assign u dto) db).1 ≡ some w) own by_id),
        rw same (
            subst
              (λ (x : User). users.find_by_email x.email (users.save (assign u dto) db).1 ≡ some w)
              (sym answer) by_email),
        subst (λ x. IsStored x w) (sym answer) stored,
      )

  -- A user that was removed is not found by its id again; to remove an unknown one is a 404.
  pub remove-gone :
      (id : String) (db : Db)
      → (users.find_by_id id (remove users roles bcrypt id db).1 ≡ none)
        × ((remove users roles bcrypt id db).0 ≡ (
            if is_some (users.find_by_id id db)
            then ok tt
            else err (not_found (template "User with ID " id " not found"))))
  unfolding remove find_one
  remove-gone id db = elim (Option-cases (users.find_by_id id db)) [
    | inl missing ↦ (ground arith, ground arith)
    | inr (u, found) ↦ (ground (arith, laws.delete_found id db), ground arith)
  ]
