-- ===== src/Gateway/Tests/Access.antt =====
-- Requests to the controllers at concrete inputs.
use synkro.Base.{ok, none, some, ◌≡◌, refl, arith, eq_iff, err, unauthorized}
use synkro.Gateway.Entities.{User, UserRole, UpdateUserDto}
use synkro.Gateway.Memory.{
  memory_users, memory_roles, memory_bcrypt, memory_jwt, memory_users-IsUserRepository, ann, sample,
}
use synkro.Gateway.Auth.{payload_of}
use synkro.Gateway.Guards.Laws.{Authenticates}
use synkro.Gateway.Controllers.{UserRoute, RoleRoute, a_user, user_request, role_request}
use synkro.Gateway.Controllers.Access.{
  decorated_unreachable, user_request-confined, only_role, self_promotion,
}

ann-Authenticates :
    Authenticates memory_users memory_roles memory_bcrypt memory_jwt 0 (some "h.ann.s") sample ann
ann-Authenticates = (payload_of ann, refl, refl, refl)

abbrev promotion : UpdateUserDto
promotion = record { email = none; password = none; name = none; role = some UserRole.admin }

decorated_unreachable_example :
    (user_request memory_users memory_roles memory_bcrypt memory_jwt 0 "salt"
        (some "h.ann.s")
        (UserRoute.remove "u1")
        sample
      ≡ (err (unauthorized "User not authenticated"), sample))
    × (role_request memory_users memory_roles memory_bcrypt memory_jwt 0
          (some "h.ann.s")
          (RoleRoute.remove "r1")
          sample
        ≡ (err (unauthorized "User not authenticated"), sample))
decorated_unreachable_example =
    decorated_unreachable memory_users memory_roles memory_bcrypt memory_jwt 0 "salt"
      (some "h.ann.s") sample (UserRoute.remove "u1") (RoleRoute.remove "r1") (λ e. cc)

user_request-confined_example :
    memory_users.find_by_id "u2"
      (user_request memory_users memory_roles memory_bcrypt memory_jwt 0 "salt"
        (some "h.ann.s")
        (UserRoute.update "u1" promotion)
        sample).1
    ≡ memory_users.find_by_id "u2" sample
user_request-confined_example =
    user_request-confined memory_users memory_roles memory_bcrypt memory_jwt
      memory_users-IsUserRepository 0 "salt" (some "h.ann.s") (UserRoute.update "u1" promotion)
      sample ann "u2" ann-Authenticates refl (ground (arith, eq_iff "u2" "u1"))

self_promotion_example :
    let request =
      user_request memory_users memory_roles memory_bcrypt memory_jwt 0 "salt"
        (some "h.ann.s")
        (UserRoute.update "u1" (only_role UserRole.admin))
        sample in
    (request.0 ≡ ok (a_user (record ann { role = UserRole.admin })))
    × ((w : User) × (memory_users.find_by_id "u1" request.1 ≡ some w) × (w.role ≡ UserRole.admin))
self_promotion_example =
    self_promotion memory_users memory_roles memory_bcrypt memory_jwt memory_users-IsUserRepository
      0 "salt" (some "h.ann.s") sample ann (record ann { role = UserRole.admin }) ann-Authenticates
      refl
