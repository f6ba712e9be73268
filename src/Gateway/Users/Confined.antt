-- ===== src/Gateway/Users/Confined.antt =====
-- What the methods of user.service.ts do to the database, over any repository that behaves as
-- TypeORM documents.
use synkro.Base.{
  ◌⊎◌, String, Bool, Option, none, some, List, ◌≡◌, ◌≢◌, refl, inl, inr, ◌∙◌, Result, ok, err,
  Failure, Action, or_throw, not_found, pure, ◌>>=◌, ◌>>◌, gets, modify, failure, template,
  Option-cases,
}
use synkro.Gateway.Entities.{User, Role, UpdateUserDto, Bcrypt, assign}
use synkro.Gateway.Repository.{UserRepository, RoleRepository, IsUserRepository}
use synkro.Gateway.Users.Steps.{find_one_stays, find_one_found, reject_taken_stays}
use synkro.Gateway.Users.{
  find_one, reject_taken, update, remove, assign_role, remove_role, set_active, push_role,
  drop_role,
}

-- The calls that change an existing user.
pub data Change : Type 0 where
  updates : UpdateUserDto → Change
  removes : Change
  assigns drops : String → Change
  activates : Bool → Change

module _ {Db : Type 0} (users : UserRepository Db) (roles : RoleRepository Db)
    (bcrypt : Bcrypt) where
  -- One such call on the user `id`, its answer left aside.
  unfoldable pub change : String → Change → Action Db (Unit {0})
  change id (updates dto) = update users roles bcrypt id dto >> pure tt
  change id removes = remove users roles bcrypt id
  change id (assigns r) = assign_role users roles bcrypt id r >> pure tt
  change id (drops r) = remove_role users roles bcrypt id r >> pure tt
  change id (activates b) = set_active users roles bcrypt id b >> pure tt

-- What a call on the user `id` may do to the database: an exception leaves it as it was, and no
-- call touches the row of another user.
abbrev pub IsConfined : {Db A : Type 0} → UserRepository Db → String → Db → Result A × Db → Type 0
IsConfined users id db (r, db') =
    ((e : Failure) → r ≡ err e → db' ≡ db)
    × ((i : String) → i ≢ id → users.find_by_id i db' ≡ users.find_by_id i db)

settled :
    {Db : Type 0} (out : Result (Unit {0}) × Db) (db : Db)
    → ((e : Failure) → out.0 ≡ err e → out.1 ≡ db)
    → (out.0 ≡ ok tt) ⊎ (out.1 ≡ db)
settled (ok tt, db') db fails = inl refl
settled (err e, db') db fails = inr (fails e refl)

module _ {Db : Type 0} (users : UserRepository Db) (roles : RoleRepository Db) (bcrypt : Bcrypt)
    (laws : IsUserRepository users) where
  stay-IsConfined :
      {A : Type 0} (r : Result A) (id : String) (db : Db) → IsConfined users id db (r, db)
  stay-IsConfined r id db = (λ e h. refl, λ i ne. refl)

  save-IsConfined :
      (u v : User) (id : String) (db : Db)
      → users.find_by_id id db ≡ some u
      → v.id ≡ u.id
      → IsConfined users id db (users.save v db)
  save-IsConfined u v id db found same =
      let own : v.id ≡ id = same ∙ laws.found_id id u db found in
      (laws.save_fails v db, λ i ne. laws.save_frame v db i (rw own ne))

  -- A step that leaves the database alone may come before a confined call.
  bind-IsConfined :
      {A B : Type 0} (id : String) (db : Db) (m : Action Db A) (k : A → Action Db B)
      → (m db).1 ≡ db
      → ((a : A) → (m db).0 ≡ ok a → IsConfined users id db (k a db))
      → IsConfined users id db ((m >>= k) db)
  bind-IsConfined {A} {B} id db m k = go (m db)
    where
      go :
          (out : Result A × Db)
          → out.1 ≡ db
          → ((a : A) → out.0 ≡ ok a → IsConfined users id db (k a db))
          → IsConfined users id db ((◌>>=◌ {S = Db} (λ s. out) k) db)
      go (ok a, db') same h = rw same (h a refl)
      go (err e, db') same h = rw same (stay-IsConfined (err e) id db)

  -- A call that begins with `findOne` is confined if what follows is, for the user that is found.
  find_one-IsConfined :
      {A : Type 0} (id : String) (db : Db) (k : User → Action Db A)
      → ((u : User) → users.find_by_id id db ≡ some u → IsConfined users id db (k u db))
      → IsConfined users id db ((find_one users roles bcrypt id >>= k) db)
  find_one-IsConfined id db k h =
      bind-IsConfined id db (find_one users roles bcrypt id) k
        (find_one_stays users roles bcrypt id db)
        (λ u e. h u (find_one_found users roles bcrypt id db u e))

  pub update-IsConfined :
      (id : String) (dto : UpdateUserDto) (db : Db)
      → IsConfined users id db (update users roles bcrypt id dto db)
  unfolding update assign
  update-IsConfined id dto db =
      find_one-IsConfined id db
        (λ u. do reject_taken users roles bcrypt dto.email u; users.save (assign u dto))
        λ u found.
          bind-IsConfined id db (reject_taken users roles bcrypt dto.email u)
            (λ _. users.save (assign u dto)) (reject_taken_stays users roles bcrypt dto.email u db)
            (λ _ _. save-IsConfined u (assign u dto) id db found refl)

  -- The two methods that look a role up: what they save for the role that is found.
  with_role-IsConfined :
      (id r : String) (db : Db) (u : User) (k : Role → Action Db User)
      → ((x : Role) → IsConfined users id db (k x db))
      → IsConfined users id db (
          (or_throw (roles.find_by_id r db) (not_found (template "Role with ID " r " not found"))
              >>= k)
            db)
  with_role-IsConfined id r db u k h = elim (Option-cases (roles.find_by_id r db)) [
    | inl missing ↦ rw missing (stay-IsConfined _ id db)
    | inr (x, found) ↦ rw found (h x)
  ]

  assign_role-IsConfined :
      (id r : String) (db : Db) → IsConfined users id db (assign_role users roles bcrypt id r db)
  unfolding assign_role
  assign_role-IsConfined id r db =
      find_one-IsConfined id db
        (λ u. do
          found ← gets (roles.find_by_id r)
          x ← or_throw found (not_found (template "Role with ID " r " not found"))
          users.save (push_role u x))
        λ u found.
          with_role-IsConfined id r db u (λ x. users.save (push_role u x))
            (λ x. save-IsConfined u (push_role u x) id db found refl)

  set_active-IsConfined :
      (id : String) (b : Bool) (db : Db)
      → IsConfined users id db (set_active users roles bcrypt id b db)
  unfolding set_active
  set_active-IsConfined id b db =
      find_one-IsConfined id db (λ u. users.save (record u { is_active = b }))
        λ u found. save-IsConfined u (record u { is_active = b }) id db found refl

  remove-IsConfined :
      (id : String) (db : Db) → IsConfined users id db (remove users roles bcrypt id db)
  unfolding remove
  remove-IsConfined id db =
      find_one-IsConfined id db (λ u. modify (users.delete id))
        λ u found. (λ e h. cc, laws.delete_frame id db)

  remove_role-IsConfined :
      (id r : String) (db : Db) → IsConfined users id db (remove_role users roles bcrypt id r db)
  unfolding remove_role
  remove_role-IsConfined id r db =
      find_one-IsConfined id db
        (λ u. do
          found ← gets (roles.find_by_id r)
          x ← or_throw found (not_found (template "Role with ID " r " not found"))
          rs ← or_throw u.roles (failure "Cannot read properties of undefined")
          users.save (record u { roles = some (drop_role r rs) }))
        λ u found.
          with_role-IsConfined id r db u
            (λ x. do
              rs ← or_throw u.roles (failure "Cannot read properties of undefined")
              users.save (record u { roles = some (drop_role r rs) }))
            (λ x. saved u found u.roles)
    where
      saved :
          (u : User)
          → users.find_by_id id db ≡ some u
          → (o : Option (List Role))
          → IsConfined users id db (
              (or_throw o (failure "Cannot read properties of undefined") >>= λ rs.
              users.save (record u { roles = some (drop_role r rs) }))
                db)
      saved u found none = stay-IsConfined _ id db
      saved u found (some rs) =
          save-IsConfined u (record u { roles = some (drop_role r rs) }) id db found refl

  done-IsConfined :
      {A : Type 0} (id : String) (db : Db) (out : Result A × Db)
      → IsConfined users id db out
      → IsConfined users id db ((◌>>◌ (λ s. out) (pure {S = Db} (tt {0}))) db)
  done-IsConfined id db (ok a, db') h = (λ e f. cc, h.1)
  done-IsConfined id db (err x, db') h = (λ e f. h.0 x refl, h.1)

  pub change-IsConfined :
      (id : String) (c : Change) (db : Db)
      → IsConfined users id db (change users roles bcrypt id c db)
  unfolding change
  change-IsConfined id (updates dto) db = done-IsConfined id db _ (update-IsConfined id dto db)
  change-IsConfined id removes db = remove-IsConfined id db
  change-IsConfined id (assigns r) db = done-IsConfined id db _ (assign_role-IsConfined id r db)
  change-IsConfined id (drops r) db = done-IsConfined id db _ (remove_role-IsConfined id r db)
  change-IsConfined id (activates b) db = done-IsConfined id db _ (set_active-IsConfined id b db)

  -- A change of a user either succeeds or leaves the database as it was, and in both cases the row
  -- of another user stays.
  pub change-frame :
      (id : String) (c : Change) (i : String) (db : Db)
      → i ≢ id
      → let (r, db') = change users roles bcrypt id c db in
        ((r ≡ ok tt) ⊎ (db' ≡ db)) × (users.find_by_id i db' ≡ users.find_by_id i db)
  change-frame id c i db ne =
      let (fails, others) = change-IsConfined id c db in
      (settled (change users roles bcrypt id c db) db fails, others i ne)
