-- ===== src/Gateway/Tests/Services.antt =====
-- Users and roles at concrete inputs.
use synkro.Base.{◌⊎◌, arith, eq_iff, true, none, some, ◌≡◌, ok}
use synkro.Gateway.Entities.{User, UserRole, CreateUserDto, UpdateUserDto}
use synkro.Gateway.Memory.{
  memory_users, memory_roles, memory_bcrypt, memory_users-IsUserRepository, sample,
}
use synkro.Gateway.Users.Confined.{updates, change, change-frame}

abbrev bob_dto : CreateUserDto
bob_dto = record { email = "bob@x"; password = "pw"; name = some "Bob"; role = none }

abbrev bob : User
bob = record {
  id = "id-bob@x";
  email = "bob@x";
  password = "$2a$pw";
  name = some "Bob";
  role = UserRole.user;
  is_active = true;
  roles = none;
}

abbrev to_eve : UpdateUserDto
to_eve = record { email = some "eve@x"; password = none; name = none; role = none }

change-frame_example :
    let (r, db') = change memory_users memory_roles memory_bcrypt "u1" (updates to_eve) sample in
    ((r ≡ ok tt) ⊎ (db' ≡ sample))
    × (memory_users.find_by_id "u2" db' ≡ memory_users.find_by_id "u2" sample)
change-frame_example =
    change-frame memory_users memory_roles memory_bcrypt memory_users-IsUserRepository "u1"
      (updates to_eve) "u2" sample (ground (arith, eq_iff "u2" "u1"))
