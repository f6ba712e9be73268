-- ===== src/Gateway/Guards.antt =====
-- The guards of api-gateway-auth: src/modules/user/guards, src/modules/user/decorators and
-- src/modules/auth/strategies/jwt.strategy.ts.
pub mod Laws
use synkro.Base.{
  ℕ, String, Bool, true, false, not, Option, none, some, List, Result, ok, err, Failure, Action,
  pure, throw, throw_if, ◌>>=◌, ◌>>◌, unauthorized, forbidden, if◌then◌else◌,
}
use synkro.Gateway.Entities.{User, UserRole, Bcrypt, same_role}
use synkro.Gateway.Repository.{UserRepository, RoleRepository}
use synkro.Gateway.Users
use synkro.Gateway.Auth.{Jwt, Payload}

-- What the reflector finds under `ROLES_KEY`: a role by itself, or an array of roles.
pub data Required : Type 0 where
  one : UserRole → Required
  listed : List UserRole → Required

-- `Roles(...roles)` stores the array of its arguments.
abbrev pub roles_decorator : List UserRole → Option Required
roles_decorator roles = some (listed roles)

-- `user.role === requiredRole`, where a text is never identical to an array
abbrev pub is_required : UserRole → Required → Bool
is_required r (one required) = same_role r required
is_required r (listed roles) = false

-- `RolesGuard.canActivate`: what the metadata requires, and `request.user`.
unfoldable pub roles_guard : Option Required → Option User → Result (Unit {0})
roles_guard none u = ok tt
roles_guard (some required) none = err (unauthorized "User not authenticated")
roles_guard (some required) (some u) =
    if same_role u.role UserRole.admin
    then ok tt
    else if is_required u.role required
    then ok tt
    else err (forbidden "Insufficient permissions")

-- A guard as a step of a request.
abbrev pub guarded {ℓ} : {S : Type ℓ} → Result (Unit {0}) → S → Result (Unit {0}) × S
guarded r s = (r, s)

-- `JwtAuthGuard.handleRequest(err, user)`
abbrev pub handle_request : Option Failure → Option User → Result User
handle_request (some e) u = err e
handle_request none none = err (unauthorized "Authentication required")
handle_request none (some u) = ok u

module _ {Db : Type 0} (users : UserRepository Db) (roles : RoleRepository Db) (bcrypt : Bcrypt)
    (jwt : Jwt) where
  -- `JwtStrategy.validate`
  unfoldable pub validate : Payload → Action Db User
  validate payload = do
    u ← Users.find_one users roles bcrypt payload.sub
    throw_if (not u.is_active) (unauthorized "User is not active or not found")
    pure u

  -- passport's part of the guard: the outcome of the strategy goes to `handleRequest`
  abbrev pub settle : Result User × Db → Result User × Db
  settle (ok u, db) = (handle_request none (some u), db)
  settle (err e, db) = (handle_request (some e) none, db)

  -- `JwtAuthGuard` on the bearer token of a request: with no token, or one that does not verify,
  -- there is no user and no error.
  unfoldable pub jwt_auth_guard : ℕ → Option String → Action Db User
  unfolding validate
  jwt_auth_guard now none db = (handle_request none none, db)
  jwt_auth_guard now (some token) db = elim (jwt.verify now token) [
    | none ↦ (handle_request none none, db)
    | some payload ↦ settle (validate payload db)
  ]
