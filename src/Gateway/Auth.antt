-- ===== src/Gateway/Auth.antt =====
-- api-gateway-auth/src/modules/auth/auth.service.ts, method by method. The clock comes in as a
-- number of seconds, `now`; the logger's lines are left out. `jwtService.verify` throws where
-- `verify` is `none`.
pub mod Cleanup
pub mod Login
pub mod Logout
pub mod Passwords
use synkro.Base.{
  ℕ, ◌+◌, ◌≤◌, ◌<◌, String, Bool, true, false, not, Option, none, some, List, [], ◌∷◌, ◌++◌, ◌≡◌,
  Result, ok, err, Failure, Action, pure, throw_if, ◌>>=◌, ◌>>◌, unauthorized, ◌==◌, truthy,
  is_some, keep, includes, or_else, if◌then◌else◌,
}
use synkro.Gateway.Entities.{User, UserRole, CreateUserDto, Bcrypt, validate_password}
use synkro.Gateway.Repository.{UserRepository, RoleRepository}
use synkro.Gateway.Users
use synkro.Gateway.Tokens.{is_valid_token_format}

-- What a token says: `{ sub, email, role }`; an empty `sub` stands for a missing one.
pub record Payload : Type 0 where
  pub sub : String
  pub email : String
  pub role : UserRole

-- `jwtService`, with the option `expiresIn: '1h'` in `sign`.
pub record Jwt : Type 0 where
  pub verify : ℕ → String → Option Payload
  pub sign : ℕ → Payload → String

abbrev pub hour : ℕ
hour = 3600

-- The documented behaviour of the JWT library that the theorems rely on. A token that does not
-- verify, expired or forged, never does later: none has a start date.
abbrev pub IsJwt : Jwt → Type 0
IsJwt jwt =
    (now later : ℕ) (token : String)
    → now ≤ later
    → jwt.verify now token ≡ none
    → jwt.verify later token ≡ none

-- A token signed for a payload is a compact serialisation and verifies for an hour.
abbrev pub IsSigned : Jwt → ℕ → Payload → Type 0
IsSigned jwt issued p =
    (is_valid_token_format (jwt.sign issued p) ≡ true)
    × ((now : ℕ) → issued ≤ now → now < issued + hour → jwt.verify now (jwt.sign issued p) ≡ some p)

pub record AuthUserResponse : Type 0 where
  pub id : String
  pub email : String
  pub name : Option String
  pub role : UserRole
  pub is_active : Bool

pub record AuthResponse : Type 0 where
  pub access_token : String
  pub user : AuthUserResponse

pub record TokenValidationResponse : Type 0 where
  pub is_valid : Bool
  pub user_id : Option String

-- `{ sub: user.id, email: user.email, role: user.role }`
abbrev pub payload_of : User → Payload
payload_of u = record { sub = u.id; email = u.email; role = u.role }

abbrev pub invalid : TokenValidationResponse
invalid = record { is_valid = false; user_id = none }

-- The answer that names the user: `{ id, email, name, role, isActive }`.
abbrev pub profile_of : User → AuthUserResponse
profile_of u = record {
  id = u.id;
  email = u.email;
  name = u.name;
  role = u.role;
  is_active = u.is_active;
}

-- `set.delete(token)`
abbrev pub delete : String → List String → List String
delete token = keep (λ t. not (t == token))

-- The `catch` of `login`: an `UnauthorizedException` goes on, all else becomes one.
abbrev pub as_unauthorized : {Db A : Type 0} → Result A × Db → Result A × Db
as_unauthorized (ok a, db) = (ok a, db)
as_unauthorized (err (unauthorized m), db) = (err (unauthorized m), db)
as_unauthorized (err e, db) = (err (unauthorized "Invalid credentials"), db)

module _ (jwt : Jwt) where
  unfoldable pub generate_token : ℕ → User → AuthResponse
  generate_token now u = record { access_token = jwt.sign now (payload_of u); user = profile_of u }

  -- one round of the loop of `cleanupInvalidatedTokens`
  abbrev pub sweep : ℕ → String → List String → List String
  sweep now token set =
      if is_valid_token_format token
      then (elim (jwt.verify now token) [ none ↦ delete token set | some p ↦ set ])
      else delete token set

  -- the loop, over the tokens that the set held when it began
  pub sweep_all : ℕ → List String → List String → List String
  sweep_all now [] set = set
  sweep_all now (token ∷ tokens) set = sweep_all now tokens (sweep now token set)

  unfoldable pub cleanup_invalidated_tokens : ℕ → List String → List String
  unfolding sweep_all
  cleanup_invalidated_tokens now set = sweep_all now set set

  -- `isTokenInvalidated`
  abbrev pub is_token_invalidated : String → List String → Bool
  is_token_invalidated = includes

  -- The token is added to the set, which is then cleaned up; `verify` before that is for the log.
  unfoldable pub invalidate_token : ℕ → String → List String → Bool × List String
  unfolding cleanup_invalidated_tokens
  invalidate_token now token set =
      if not (truthy token)
      then (false, set)
      else if includes token set
      then (true, set)
      else (true, cleanup_invalidated_tokens now (set ++ token ∷ []))

module _ {Db : Type 0} (users : UserRepository Db) (roles : RoleRepository Db) (bcrypt : Bcrypt)
    (jwt : Jwt) where
  -- the `try` of `login`; the test `!user` never holds, since `findByEmail` throws first
  unfoldable pub try_login : ℕ → String → String → Action Db AuthResponse
  unfolding Users.find_by_email
  try_login now email password = do
    u ← Users.find_by_email users roles bcrypt email
    throw_if (not u.is_active) (unauthorized "User is not active")
    throw_if (not (validate_password bcrypt u password)) (unauthorized "Invalid credentials")
    pure (generate_token jwt now u)

  unfoldable pub login : ℕ → String → String → Action Db AuthResponse
  unfolding try_login
  login now email password db = as_unauthorized (try_login now email password db)

  -- The `catch` of `register` throws the error on.
  unfoldable pub register : ℕ → String → CreateUserDto → Action Db AuthResponse
  register now salt dto = do
    u ←
        Users.create users roles bcrypt salt
          (record dto { role = some (or_else dto.role UserRole.user) })
    pure (generate_token jwt now u)

  -- `validateToken` from the lookup of the user on; `findOne` throws for an unknown one.
  abbrev pub validate_user : String → Db → TokenValidationResponse
  validate_user sub db = elim (Users.find_one users roles bcrypt sub db).0 [
    | err e ↦ invalid
    | ok u ↦ if u.is_active then record { is_valid = true; user_id = some u.id } else invalid
  ]

  unfoldable pub validate_token : ℕ → String → List String → Db → TokenValidationResponse
  validate_token now token set db =
      if not (truthy token)
      then invalid
      else if is_token_invalidated jwt token set
      then invalid
      else if not (is_valid_token_format token)
      then invalid
      else elim (jwt.verify now token) [
        | none ↦ invalid
        | some payload ↦ if not (truthy payload.sub) then invalid else validate_user payload.sub db
      ]
