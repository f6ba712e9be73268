-- ===== src/Gateway/AuthRoutes/Laws.antt =====
-- How the routes of auth.controller.ts answer, one after the other.
use synkro.Base.{ℕ, String, true, Option, some, List, [], ◌≡◌, ◌≢◌, sym, ap, ◌∙◌, arith, ok, eq_iff}
use synkro.Gateway.Entities.{User, Bcrypt}
use synkro.Gateway.Repository.{UserRepository, RoleRepository}
use synkro.Gateway.Tokens.Format.{format-ne-nil}
use synkro.Gateway.Auth
use synkro.Gateway.Auth.{Jwt, IsJwt, Payload, TokenValidationResponse, invalid, profile_of}
use synkro.Gateway.Auth.Logout.{step, logout-permanent}
use synkro.Gateway.Auth.Login.{validate_token_iff}
use synkro.Gateway.Guards.Laws.{Authenticates, jwt_auth_guard_iff}
use synkro.Gateway.AuthRoutes.{logout, validate_token, get_profile}

module _ {Db : Type 0} (users : UserRepository Db) (roles : RoleRepository Db) (bcrypt : Bcrypt)
    (jwt : Jwt) where
  -- The check that the route makes before it calls the service changes no answer.
  route-validate :
      (now : ℕ) (token : String) (set : List String) (db : Db)
      → validate_token users roles bcrypt jwt now (some token) set db
        ≡ Auth.validate_token users roles bcrypt jwt now token set db
  unfolding validate_token Auth.validate_token
  route-validate now token set db = ground arith

  -- `logout` leaves the set that `invalidateToken` leaves.
  logout-set :
      (now : ℕ) (token : String) (set : List String)
      → token ≢ ""
      → (logout jwt now (some token) set).1 ≡ (Auth.invalidate_token jwt now token set).1
  unfolding logout
  logout-set now token set ne = ground (arith, eq_iff token "")

  get_profile-ok :
      (now : ℕ) (token : Option String) (db : Db) (u : User)
      → Authenticates users roles bcrypt jwt now token db u
      → (get_profile users roles bcrypt jwt now token db).0 ≡ ok (profile_of u)
  unfolding get_profile
  get_profile-ok now token db u who =
      ground (arith, (jwt_auth_guard_iff users roles bcrypt jwt now token db u).1 who)

  -- A token that validates for a user opens the profile of that user, and after it was logged out
  -- it does so still, although it no longer validates.
  pub profile_after_logout :
      IsJwt jwt
      → (now : ℕ) (token : String) (set : List String) (db : Db) (id : String)
      → validate_token users roles bcrypt jwt now (some token) set db
        ≡ record { is_valid = true; user_id = some id }
      → let set' = (logout jwt now (some token) set).1 in
        (u : User) × (u.id ≡ id)
        × (validate_token users roles bcrypt jwt now (some token) set' db ≡ invalid)
        × ((get_profile users roles bcrypt jwt now (some token) db).0 ≡ ok (profile_of u))
  unfolding step
  profile_after_logout tokens now token set db id h =
      let valid = sym (route-validate now token set db) ∙ h in
      let (new, format, (p, u, verified, sub, found, active, own)) =
        (validate_token_iff users roles bcrypt jwt now token set db id).0 valid in
      (
        u,
        own,
        route-validate now token (logout jwt now (some token) set).1 db
            ∙ ap (λ s. Auth.validate_token users roles bcrypt jwt now token s db)
                (logout-set now token set (λ e. format-ne-nil token format e))
            ∙ logout-permanent users roles bcrypt jwt tokens token
                (record { invalidated_tokens = set; db = db; now = now }) [],
        get_profile-ok now (some token) db u (p, verified, found, active),
      )
