-- ===== src/Gateway/Tests/Sessions.antt =====
-- Log-ins, tokens and log-outs at concrete inputs.
use synkro.Base.{
  true, false, none, some, [], ◌∷◌, ◌≡◌, ◌≢◌, ◌↔◌, refl, arith, eq_iff, ok, includes, keep, or_else,
}
use synkro.Gateway.Entities.{User, UserRole, CreateUserDto, UpdateUserDto, hash_password}
use synkro.Gateway.Memory.{
  memory_users, memory_roles, memory_bcrypt, memory_jwt, memory_users-IsUserRepository,
  memory_bcrypt-IsBcrypt, memory_jwt-IsJwt, ann, sample,
}
use synkro.Gateway.Users
use synkro.Gateway.Tokens.{is_valid_token_format}
use synkro.Gateway.Tokens.Format.{IsCompact, is_valid_token_format_iff}
use synkro.Gateway.Auth.{
  AuthResponse, Payload, profile_of, invalid, generate_token, login, register, validate_token,
  cleanup_invalidated_tokens,
}
use synkro.Gateway.Auth.Cleanup.{is_live, cleanup-eq-keep}
use synkro.Gateway.Auth.Login.{MayLogin, IsAnswerFor, login_iff, validate_token_iff, login-register}
use synkro.Gateway.Auth.Logout.{interval, wait, logout, step, run, validates, logout-permanent}

abbrev ann_session : AuthResponse
ann_session = record { access_token = "h.ann.s"; user = profile_of ann }

abbrev bob_dto : CreateUserDto
bob_dto = record { email = "bob@x"; password = "pw"; name = none; role = some UserRole.admin }

abbrev bob_session : AuthResponse
bob_session = record {
  access_token = "h.ann.s";
  user = record {
    id = "id-bob@x";
    email = "bob@x";
    name = none;
    role = UserRole.admin;
    is_active = true;
  };
}

abbrev new_password : UpdateUserDto
new_password = record { email = none; password = some "sesame"; name = none; role = none }

is_valid_token_format_iff_example : (is_valid_token_format "h.ann.s" ≡ true) ↔ IsCompact "h.ann.s"
is_valid_token_format_iff_example = is_valid_token_format_iff "h.ann.s"

cleanup-eq-keep_example :
    cleanup_invalidated_tokens memory_jwt 0 ("h.ann.s" ∷ "forged" ∷ [])
    ≡ keep (is_live memory_jwt 0) ("h.ann.s" ∷ "forged" ∷ [])
cleanup-eq-keep_example = cleanup-eq-keep memory_jwt 0 ("h.ann.s" ∷ "forged" ∷ [])

login_iff_example :
    ((login memory_users memory_roles memory_bcrypt memory_jwt 0 "ann@x" "secret" sample).0
      ≡ ok ann_session)
    ↔ ((u : User) × MayLogin memory_users memory_roles memory_bcrypt memory_jwt "ann@x" "secret"
          sample u
        × IsAnswerFor memory_users memory_roles memory_bcrypt memory_jwt 0 u ann_session)
login_iff_example =
    login_iff memory_users memory_roles memory_bcrypt memory_jwt 0 "ann@x" "secret" sample
      ann_session

validate_token_iff_example :
    (validate_token memory_users memory_roles memory_bcrypt memory_jwt 0 "h.ann.s" [] sample
      ≡ record { is_valid = true; user_id = some "u1" })
    ↔ ((includes "h.ann.s" [] ≡ false)
        × (is_valid_token_format "h.ann.s" ≡ true)
        × ((p : Payload) × (u : User) × (memory_jwt.verify 0 "h.ann.s" ≡ some p)
            × (p.sub ≢ "")
            × (memory_users.find_by_id p.sub sample ≡ some u)
            × (u.is_active ≡ true)
            × (u.id ≡ "u1")))
validate_token_iff_example =
    validate_token_iff memory_users memory_roles memory_bcrypt memory_jwt 0 "h.ann.s" [] sample "u1"

login-register_example :
    let db' =
      (register memory_users memory_roles memory_bcrypt memory_jwt 0 "salt" bob_dto sample).1 in
    (s : AuthResponse) × ((login memory_users memory_roles memory_bcrypt memory_jwt 5 "bob@x" "pw"
        db').0
      ≡ ok s)
    × (s.user ≡ bob_session.user)
    × (s.user.role ≡ or_else bob_dto.role UserRole.user)
    × (s.user.is_active ≡ true)
unfolding register generate_token Users.create hash_password
login-register_example =
    login-register memory_users memory_roles memory_bcrypt memory_jwt memory_users-IsUserRepository
      memory_bcrypt-IsBcrypt 0 5 "salt" bob_dto sample bob_session (ground (arith, eq_iff "pw" ""))
      refl

logout-permanent_example :
    validates memory_users memory_roles memory_bcrypt memory_jwt "h.ann.s" (
      run memory_jwt (interval ∷ wait 10 ∷ []) (
        step memory_jwt
          (logout "h.ann.s")
          (record { invalidated_tokens = []; db = sample; now = 0 })))
    ≡ invalid
logout-permanent_example =
    logout-permanent memory_users memory_roles memory_bcrypt memory_jwt memory_jwt-IsJwt "h.ann.s"
      (record { invalidated_tokens = []; db = sample; now = 0 }) (interval ∷ wait 10 ∷ [])
