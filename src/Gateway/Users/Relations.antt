-- ===== src/Gateway/Users/Relations.antt =====
-- What the calls of user.service.ts that change a user's roles or its activity leave in the database.
use synkro.Base.{
  String, Bool, not, ◌&&◌, ◌||◌, some, List, [], ◌∷◌, ◌++◌, ◌≡◌, refl, sym, ap, subst, inl, inr,
  ◌∙◌, arith, Result, ok, ◌>>=◌, gets, or_throw, or_throw_then, failure, not_found, ◌==◌, eq_iff,
  or_else, template, Option-cases,
}
use synkro.Gateway.Entities.{User, Role, Bcrypt}
use synkro.Gateway.Repository.{
  UserRepository, RoleRepository, IsUserRepository, IsRoleRepository, IsStored, has_role,
  has_role_in,
}
use synkro.Gateway.Users.Steps.{find_one_then}
use synkro.Gateway.Users.{assign_role, remove_role, set_active, push_role, drop_role}

has_role_in-push :
    (i : String) (rs : List Role) (r : Role)
    → has_role_in i (rs ++ r ∷ []) ≡ (has_role_in i rs || (r.id == i))
has_role_in-push i [] r = ground arith
has_role_in-push i (x ∷ rs) r = ground (arith, has_role_in-push i rs r)

has_role-push_role :
    (i : String) (u : User) (r : Role) → has_role i (push_role u r) ≡ (has_role i u || (r.id == i))
has_role-push_role i u r = elim (Option-cases u.roles) [
  | inl missing ↦ rw missing (has_role_in-push i [] r)
  | inr (rs, loaded) ↦ rw loaded (has_role_in-push i rs r)
]

has_role_in-drop_role :
    (i j : String) (rs : List Role)
    → has_role_in j (drop_role i rs) ≡ (has_role_in j rs && not (i == j))
has_role_in-drop_role i j [] = refl
has_role_in-drop_role i j (x ∷ rs) =
    ground (arith, has_role_in-drop_role i j rs, eq_iff x.id i, eq_iff x.id j, eq_iff i j)

has_role-drop_role :
    (i j : String) (u : User) (rs : List Role)
    → u.roles ≡ some rs
    → has_role_in j (drop_role i rs) ≡ (has_role j u && not (i == j))
has_role-drop_role i j u rs loaded = rw loaded (has_role_in-drop_role i j rs)

module _ {Db : Type 0} (users : UserRepository Db) (roles : RoleRepository Db) (bcrypt : Bcrypt)
    (laws : IsUserRepository users) where
  -- What a successful `save` of a changed user leaves under its id.
  pub saved_under :
      (id : String) (u v x : User) (db : Db)
      → users.find_by_id id db ≡ some u
      → v.id ≡ u.id
      → (users.save v db).0 ≡ ok x
      → (w : User) × (x ≡ v) × (users.find_by_id id (users.save v db).1 ≡ some w) × IsStored v w
  saved_under id u v x db found same saved =
      let (w, by_id, _, stored) = laws.save_found v db x saved in
      let own : v.id ≡ id = same ∙ laws.found_id id u db found in
      (
        w,
        laws.save_answer v db x saved,
        subst (λ i. users.find_by_id i (users.save v db).1 ≡ some w) own by_id,
        stored,
      )

  -- A successful `assignRole` names an existing role; the stored user has that role besides those
  -- that it had, and the answer lists the role once more than before, even if it was there.
  pub assign_role-stored :
      (id r : String) (db : Db) (v : User)
      → IsRoleRepository roles
      → (assign_role users roles bcrypt id r db).0 ≡ ok v
      → (u : User) × (x : Role) × (w : User) × (users.find_by_id id db ≡ some u)
        × (roles.find_by_id r db ≡ some x)
        × (v.roles ≡ some (or_else u.roles [] ++ x ∷ []))
        × (users.find_by_id id (assign_role users roles bcrypt id r db).1 ≡ some w)
        × ((i : String) → has_role i w ≡ (has_role i u || (r == i)))
  unfolding assign_role
  assign_role-stored id r db v role_laws h =
      let missing = not_found (template "Role with ID " r " not found") in
      let (u, found, same, rest) =
        find_one_then users roles bcrypt id db
          (λ u. do
            o ← gets (roles.find_by_id r)
            x ← or_throw o missing
            users.save (push_role u x))
          v h in
      let (x, there, same', done) =
        or_throw_then (roles.find_by_id r db) missing (λ x. users.save (push_role u x)) db v rest in
      let (w, answer, by_id, stored) = saved_under id u (push_role u x) v db found refl done in
      (
        u,
        x,
        w,
        found,
        there,
        ap (λ (y : User). y.roles) answer,
        subst (λ (out : Result User × Db). users.find_by_id id out.1 ≡ some w) (sym (same ∙ same'))
            by_id,
        λ i.
            stored.same_roles i ∙ rw (← role_laws.found_id r x db there) (has_role-push_role i u x),
      )

  -- After a successful `removeRole` of a role that exists, the stored user has every role that it
  -- had but that one.
  pub remove_role-stored :
      (id r : String) (db : Db) (v : User)
      → (remove_role users roles bcrypt id r db).0 ≡ ok v
      → (u : User) × (w : User) × (users.find_by_id id db ≡ some u)
        × (users.find_by_id id (remove_role users roles bcrypt id r db).1 ≡ some w)
        × ((i : String) → has_role i w ≡ (has_role i u && not (r == i)))
  unfolding remove_role
  remove_role-stored id r db v h =
      let missing = not_found (template "Role with ID " r " not found") in
      let no_list = failure "Cannot read properties of undefined" in
      let kept = λ (u : User) (rs : List Role). record u { roles = some (drop_role r rs) } in
      let (u, found, same, rest) =
        find_one_then users roles bcrypt id db
          (λ u. do
            o ← gets (roles.find_by_id r)
            x ← or_throw o missing
            rs ← or_throw u.roles no_list
            users.save (kept u rs))
          v h in
      let (x, there, same', rest') =
        or_throw_then (roles.find_by_id r db) missing
          (λ x. do rs ← or_throw u.roles no_list; users.save (kept u rs)) db v rest in
      let (rs, loaded, same'', done) =
        or_throw_then u.roles no_list (λ rs. users.save (kept u rs)) db v rest' in
      let (w, answer, by_id, stored) = saved_under id u (kept u rs) v db found refl done in
      (
        u,
        w,
        found,
        subst (λ (out : Result User × Db). users.find_by_id id out.1 ≡ some w)
            (sym (same ∙ same' ∙ same'')) by_id,
        λ i. stored.same_roles i ∙ has_role-drop_role r i u rs loaded,
      )

  -- After a successful `setActive` the stored user is active as asked; no other field changed.
  pub set_active-IsStored :
      (id : String) (b : Bool) (db : Db) (v : User)
      → (set_active users roles bcrypt id b db).0 ≡ ok v
      → (u : User) × (w : User) × (users.find_by_id id db ≡ some u)
        × (users.find_by_id id (set_active users roles bcrypt id b db).1 ≡ some w)
        × IsStored (record u { is_active = b }) w
  unfolding set_active
  set_active-IsStored id b db v h =
      let (u, found, same, done) =
        find_one_then users roles bcrypt id db (λ u. users.save (record u { is_active = b })) v h in
      let (w, answer, by_id, stored) =
        saved_under id u (record u { is_active = b }) v db found refl done in
      (
        u,
        w,
        found,
        subst (λ (out : Result User × Db). users.find_by_id id out.1 ≡ some w) (sym same) by_id,
        stored,
      )
