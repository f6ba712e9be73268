-- ===== src/Gateway/Guards/Laws.antt =====
-- Whom the guards let through.
use synkro.Base.{
  if◌then◌else◌, ℕ, String, true, Option, none, some, List, ◌≡◌, ◌↔◌, ◌⊎◌, refl, inl, inr, arith,
  ok, err, forbidden, Option-cases,
}
use synkro.Gateway.Entities.{same_role, User, UserRole, Bcrypt}
use synkro.Gateway.Repository.{UserRepository, RoleRepository}
use synkro.Gateway.Users
use synkro.Gateway.Auth.{Jwt, Payload}
use synkro.Gateway.Guards.{one, roles_decorator, roles_guard, jwt_auth_guard}

-- With metadata from the decorator `@Roles(...)` the guard lets exactly the administrators through,
-- whatever roles the decorator names, and refuses all other users as forbidden.
pub roles_guard-decorated :
    (roles : List UserRole) (u : User)
    → roles_guard (roles_decorator roles) (some u) ≡ (
        if same_role u.role UserRole.admin
        then ok tt
        else err (forbidden "Insufficient permissions"))
unfolding roles_guard
roles_guard-decorated roles u = ground arith

-- With a single role as metadata the guard lets the users of that role and the administrators
-- through.
pub roles_guard-single :
    (r : UserRole) (u : User)
    → (roles_guard (some (one r)) (some u) ≡ ok tt) ↔ ((u.role ≡ UserRole.admin) ⊎ (u.role ≡ r))
unfolding roles_guard
roles_guard-single r u = ground arith

module _ {Db : Type 0} (users : UserRepository Db) (roles : RoleRepository Db) (bcrypt : Bcrypt)
    (jwt : Jwt) where
  -- The user that a bearer token stands for.
  abbrev pub Authenticates : ℕ → Option String → Db → User → Type 0
  Authenticates now none db u = ⊥
  Authenticates now (some token) db u =
      (p : Payload) × (jwt.verify now token ≡ some p)
      × (users.find_by_id p.sub db ≡ some u)
      × (u.is_active ≡ true)

  -- The guard never writes.
  pub jwt_auth_guard_stays :
      (now : ℕ) (token : Option String) (db : Db)
      → (jwt_auth_guard users roles bcrypt jwt now token db).1 ≡ db
  unfolding jwt_auth_guard Users.find_one
  jwt_auth_guard_stays now none db = refl
  jwt_auth_guard_stays now (some token) db = ground arith

  -- A request gets past `JwtAuthGuard` exactly as the active user that its bearer token names.
  pub jwt_auth_guard_iff :
      (now : ℕ) (token : Option String) (db : Db) (u : User)
      → ((jwt_auth_guard users roles bcrypt jwt now token db).0 ≡ ok u)
        ↔ Authenticates now token db u
  unfolding jwt_auth_guard Users.find_one
  jwt_auth_guard_iff now none db u = (λ h. cc, λ h. absurd h)
  jwt_auth_guard_iff now (some token) db u = (
    λ h. elim (Option-cases (jwt.verify now token)) [
      | inl dead ↦ absurd (ground arith)
      | inr (p, verified) ↦ elim (Option-cases (users.find_by_id p.sub db)) [
        | inl missing ↦ absurd (ground arith)
        | inr (v, found) ↦ (p, verified, ground arith, ground arith)
      ]
    ],
    λ (p, verified, found, active). ground arith,
  )
