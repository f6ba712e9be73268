-- ===== src/Gateway/AuthRoutes.antt =====
-- The routes of api-gateway-auth/src/modules/auth/auth.controller.ts. They bear no `@Roles`, so the
-- guard that the application registers lets every request through. A `token` that a body lacks is
-- `none`; `logout` fails only where the logger does, so its `catch` is left out.
pub mod Laws
use synkro.Base.{
  ℕ, String, Bool, true, false, not, Option, none, some, List, Result, ok, err, Action, ◌>>=◌,
  given, if◌then◌else◌,
}
use synkro.Gateway.Entities.{User, CreateUserDto, Bcrypt}
use synkro.Gateway.Repository.{UserRepository, RoleRepository}
use synkro.Gateway.Auth
use synkro.Gateway.Auth.{
  Jwt, AuthResponse, AuthUserResponse, TokenValidationResponse, invalid, profile_of,
}
use synkro.Gateway.Guards.{jwt_auth_guard}

pub record LoginDto : Type 0 where
  pub email : String
  pub password : String

-- `{ success, message }`
pub record LogoutResponse : Type 0 where
  pub success : Bool
  pub message : String

-- the message of `logout`
abbrev pub logout_message : Bool → String
logout_message invalidated =
    if invalidated then "Token successfully invalidated" else "Failed to invalidate token"

module _ (jwt : Jwt) where
  unfoldable pub logout : ℕ → Option String → List String → LogoutResponse × List String
  logout now none set =
      (record { success = true; message = "No token provided, nothing to invalidate" }, set)
  logout now (some token) set =
      let (invalidated, set') = Auth.invalidate_token jwt now token set in
      if not (given (some token))
      then (record { success = true; message = "No token provided, nothing to invalidate" }, set)
      else (record { success = invalidated; message = logout_message invalidated }, set')

module _ {Db : Type 0} (users : UserRepository Db) (roles : RoleRepository Db) (bcrypt : Bcrypt)
    (jwt : Jwt) where
  unfoldable pub login : ℕ → LoginDto → Action Db AuthResponse
  login now dto = Auth.login users roles bcrypt jwt now dto.email dto.password

  unfoldable pub register : ℕ → String → CreateUserDto → Action Db AuthResponse
  register now salt dto = Auth.register users roles bcrypt jwt now salt dto

  unfoldable pub validate_token : ℕ → Option String → List String → Db → TokenValidationResponse
  validate_token now none set db = invalid
  validate_token now (some token) set db =
      if not (given (some token))
      then invalid
      else if Auth.is_token_invalidated jwt token set
      then invalid
      else Auth.validate_token users roles bcrypt jwt now token set db

  -- `profile`, behind `JwtAuthGuard`
  unfoldable pub get_profile : ℕ → Option String → Action Db AuthUserResponse
  get_profile now token = do
    u ← jwt_auth_guard users roles bcrypt jwt now token
    λ db. (ok (profile_of u), db)
