-- ===== src/Gateway/Entities.antt =====
-- api-gateway-auth/src/modules/user/entities and the dto classes. The columns `createdAt` and
-- `updatedAt`, which only the database writes and nothing reads, and the inverse relation
-- `Role.users` are left out. A field that a request may leave out is an `Option`.
use synkro.Base.{
  ◌≡◌, String, Bool, true, false, Option, none, some, List, truthy, if◌then◌else◌, or_else,
  or_other,
}

pub data UserRole : Type 0 where
  user admin : UserRole

-- `a === b` on the enum
abbrev pub same_role : UserRole → UserRole → Bool
same_role UserRole.user UserRole.user = true
same_role UserRole.admin UserRole.admin = true
same_role _ _ = false

pub record Role : Type 0 where
  pub id : String
  pub name : String
  pub permissions : Option (List String)
  pub description : Option String

-- `roles` is missing where the relation was not loaded.
pub record User : Type 0 where
  pub id : String
  pub email : String
  pub password : String
  pub name : Option String
  pub role : UserRole
  pub is_active : Bool
  pub roles : Option (List Role)

pub record CreateUserDto : Type 0 where
  pub email : String
  pub password : String
  pub name : Option String
  pub role : Option UserRole

-- `PartialType(CreateUserDto)`
pub record UpdateUserDto : Type 0 where
  pub email : Option String
  pub password : Option String
  pub name : Option String
  pub role : Option UserRole

pub record CreateRoleDto : Type 0 where
  pub name : String
  pub permissions : Option (List String)
  pub description : Option String

-- `PartialType(CreateRoleDto)`
pub record UpdateRoleDto : Type 0 where
  pub name : Option String
  pub permissions : Option (List String)
  pub description : Option String

-- A `User` that has not been inserted: no id yet, and the default of `role` not yet filled in.
pub record NewUser : Type 0 where
  pub email : String
  pub password : String
  pub name : Option String
  pub role : Option UserRole
  pub is_active : Bool

-- The row that the columns' declarations make of it: `role` defaults to `UserRole.USER`, and a
-- missing `name` is null. The relation `roles` is not loaded.
abbrev pub inserted : String → NewUser → User
inserted id n = record {
  id = id;
  email = n.email;
  password = n.password;
  name = n.name;
  role = or_else n.role UserRole.user;
  is_active = n.is_active;
  roles = none;
}

-- The row of a new role: `permissions` defaults to `[]`.
abbrev pub inserted_role : String → CreateRoleDto → Role
inserted_role id dto = record {
  id = id;
  name = dto.name;
  permissions = some (or_else dto.permissions List.[]);
  description = dto.description;
}

-- `bcryptjs`: `hash(password, salt)` and `compare(password, hash)`.
pub record Bcrypt : Type 0 where
  pub hash : String → String → String
  pub compare : String → String → Bool

-- A password matches its own hash, whatever the salt.
abbrev pub IsBcrypt : Bcrypt → Type 0
IsBcrypt b = (password salt : String) → b.compare password (b.hash password salt) ≡ true

-- the `@BeforeInsert` listener; the salt is that of `bcrypt.genSalt()`
unfoldable pub hash_password : Bcrypt → String → NewUser → NewUser
hash_password b salt n =
    if truthy n.password then record n { password = b.hash n.password salt } else n

unfoldable pub validate_password : Bcrypt → User → String → Bool
validate_password b u password = b.compare password u.password

-- `Object.assign(user, updateUserDto)`
unfoldable pub assign : User → UpdateUserDto → User
assign u dto = record u {
  email = or_else dto.email u.email;
  password = or_else dto.password u.password;
  name = or_other dto.name u.name;
  role = or_else dto.role u.role;
}

-- `{ ...role, ...updateRoleDto }`
unfoldable pub spread : Role → UpdateRoleDto → Role
spread r dto = record r {
  name = or_else dto.name r.name;
  permissions = or_other dto.permissions r.permissions;
  description = or_other dto.description r.description;
}
