-- ===== src/Gateway/Users.antt =====
-- api-gateway-auth/src/modules/user/user.service.ts, method by method. The salt that the
-- `@BeforeInsert` listener draws comes in as an argument of `create`.
mod Steps
pub mod Confined
pub mod Effects
pub mod Relations
use synkro.Base.{
  String, Bool, true, false, not, ◌&&◌, Option, none, some, List, [], ◌∷◌, ◌++◌, Action, pure,
  throw, gets, or_throw, throw_if, modify, ◌>>=◌, ◌>>◌, not_found, conflict, failure, ◌==◌, truthy,
  is_some, keep, or_else, template, if◌then◌else◌,
}
use synkro.Gateway.Entities.{
  User, Role, NewUser, CreateUserDto, UpdateUserDto, Bcrypt, hash_password, validate_password,
  assign,
}
use synkro.Gateway.Repository.{UserRepository, RoleRepository}

-- `userRepository.create({ ...createUserDto, isActive: true })`
abbrev pub entity_of : CreateUserDto → NewUser
entity_of dto = record {
  email = dto.email;
  password = dto.password;
  name = dto.name;
  role = dto.role;
  is_active = true;
}

-- `user.roles.push(role)`, after `if (!user.roles) user.roles = []`
abbrev pub push_role : User → Role → User
push_role u r = record u { roles = some (or_else u.roles [] ++ r ∷ []) }

-- `roles.filter((r) => r.id !== roleId)`
abbrev pub drop_role : String → List Role → List Role
drop_role i = keep (λ r. not (r.id == i))

module _ {Db : Type 0} (users : UserRepository Db) (roles : RoleRepository Db)
    (bcrypt : Bcrypt) where
  unfoldable pub create : String → CreateUserDto → Action Db User
  create salt dto = do
    existing ← gets (users.find_by_email dto.email)
    throw_if (is_some existing) (conflict "User with this email already exists")
    users.insert (hash_password bcrypt salt (entity_of dto))

  unfoldable pub find_all : Action Db (List User)
  find_all = gets users.find

  unfoldable pub find_one : String → Action Db User
  find_one id = do
    found ← gets (users.find_by_id id)
    or_throw found (not_found (template "User with ID " id " not found"))

  unfoldable pub find_by_email : String → Action Db User
  find_by_email email = do
    found ← gets (users.find_by_email email)
    or_throw found (not_found (template "User with email " email " not found"))

  -- the guard of `update` on an email that changes
  abbrev pub reject_taken : Option String → User → Action Db (Unit {0})
  reject_taken none u = pure tt
  reject_taken (some email) u =
      if truthy email && not (email == u.email)
      then (do
        existing ← gets (users.find_by_email email)
        throw_if (is_some existing) (conflict "User with this email already exists"))
      else pure tt

  unfoldable pub update : String → UpdateUserDto → Action Db User
  unfolding find_one
  update id dto = do u ← find_one id; reject_taken dto.email u; users.save (assign u dto)

  unfoldable pub remove : String → Action Db (Unit {0})
  unfolding find_one
  remove id = do u ← find_one id; modify (users.delete id)

  unfoldable pub assign_role : String → String → Action Db User
  unfolding find_one
  assign_role user_id role_id = do
    u ← find_one user_id
    found ← gets (roles.find_by_id role_id)
    r ← or_throw found (not_found (template "Role with ID " role_id " not found"))
    users.save (push_role u r)

  -- `user.roles.filter` throws a TypeError where `roles` is missing.
  unfoldable pub remove_role : String → String → Action Db User
  unfolding find_one
  remove_role user_id role_id = do
    u ← find_one user_id
    found ← gets (roles.find_by_id role_id)
    r ← or_throw found (not_found (template "Role with ID " role_id " not found"))
    rs ← or_throw u.roles (failure "Cannot read properties of undefined")
    users.save (record u { roles = some (drop_role role_id rs) })

  unfoldable pub set_active : String → Bool → Action Db User
  unfolding find_one
  set_active id is_active = do u ← find_one id; users.save (record u { is_active = is_active })
