-- ===== src/Gateway/Controllers.antt =====
-- The routes of user.controller.ts and role.controller.ts with their guards. `app.module.ts`
-- registers `RolesGuard` for the whole application (`APP_GUARD`), so it runs before the guards of a
-- controller, when `request.user` is not yet set; then `JwtAuthGuard` and `RolesGuard` run again.
pub mod Access
use synkro.Base.{
  ℕ, String, Bool, true, false, not, ◌&&◌, Option, none, some, List, [], ◌∷◌, Result, ok, err,
  Action, pure, throw_if, ◌>>=◌, ◌>>◌, forbidden, ◌==◌,
}
use synkro.Gateway.Entities.{
  User, Role, UserRole, CreateUserDto, UpdateUserDto, CreateRoleDto, UpdateRoleDto, Bcrypt,
  same_role,
}
use synkro.Gateway.Repository.{UserRepository, RoleRepository}
use synkro.Gateway.Users
use synkro.Gateway.Roles
use synkro.Gateway.Auth.{Jwt}
use synkro.Gateway.Guards.{Required, roles_decorator, roles_guard, jwt_auth_guard, guarded}

-- The routes of `UserController`, with their parameters.
pub data UserRoute : Type 0 where
  create : CreateUserDto → UserRoute
  find_all : UserRoute
  find_one : String → UserRoute
  update : String → UpdateUserDto → UserRoute
  remove : String → UserRoute
  assign_role remove_role : String → String → UserRoute
  set_active : String → Bool → UserRoute

-- The routes of `RoleController`.
pub data RoleRoute : Type 0 where
  create : CreateRoleDto → RoleRoute
  find_all : RoleRoute
  find_one : String → RoleRoute
  update : String → UpdateRoleDto → RoleRoute
  remove : String → RoleRoute
  add_permission remove_permission : String → String → RoleRoute

pub data Answer : Type 0 where
  a_user : User → Answer
  all_users : List User → Answer
  a_role : Role → Answer
  all_roles : List Role → Answer
  nothing : Answer

abbrev only_admin : Option Required
only_admin = roles_decorator (UserRole.admin ∷ [])

-- The `@Roles` of each route of `UserController`.
abbrev pub required : UserRoute → Option Required
required (UserRoute.find_one id) = none
required (UserRoute.update id dto) = none
required _ = only_admin

-- `RoleController` bears `@Roles(UserRole.ADMIN)` itself.
abbrev pub required_role : RoleRoute → Option Required
required_role route = only_admin

-- `req.user.role !== UserRole.ADMIN && req.user.id !== id`
abbrev pub is_other : User → String → Bool
is_other u id = not (same_role u.role UserRole.admin) && not (u.id == id)

module _ {Db : Type 0} (users : UserRepository Db) (roles : RoleRepository Db) (bcrypt : Bcrypt)
    (jwt : Jwt) where
  -- The handlers of `UserController`; `u` is `req.user`, and the salt serves a new password.
  unfoldable pub user_handler : String → User → UserRoute → Action Db Answer
  user_handler salt u (UserRoute.create dto) = do
    v ← Users.create users roles bcrypt salt dto
    pure (a_user v)
  user_handler salt u UserRoute.find_all = do
    vs ← Users.find_all users roles bcrypt
    pure (all_users vs)
  user_handler salt u (UserRoute.find_one id) = do
    throw_if (is_other u id) (forbidden "You can only access your own profile")
    v ← Users.find_one users roles bcrypt id
    pure (a_user v)
  user_handler salt u (UserRoute.update id dto) = do
    throw_if (is_other u id) (forbidden "You can only update your own profile")
    v ← Users.update users roles bcrypt id dto
    pure (a_user v)
  user_handler salt u (UserRoute.remove id) = do Users.remove users roles bcrypt id; pure nothing
  user_handler salt u (UserRoute.assign_role id role_id) = do
    v ← Users.assign_role users roles bcrypt id role_id
    pure (a_user v)
  user_handler salt u (UserRoute.remove_role id role_id) = do
    v ← Users.remove_role users roles bcrypt id role_id
    pure (a_user v)
  user_handler salt u (UserRoute.set_active id is_active) = do
    v ← Users.set_active users roles bcrypt id is_active
    pure (a_user v)

  -- The guards of the class, `@UseGuards(JwtAuthGuard, RolesGuard)`, and the handler.
  unfoldable pub user_controller : ℕ → String → Option String → UserRoute → Action Db Answer
  user_controller now salt token route = do
    u ← jwt_auth_guard users roles bcrypt jwt now token
    guarded (roles_guard (required route) (some u))
    user_handler salt u route

  -- A request to `UserController` as the application handles it.
  unfoldable pub user_request : ℕ → String → Option String → UserRoute → Action Db Answer
  unfolding user_controller
  user_request now salt token route = do
    guarded (roles_guard (required route) none)
    user_controller now salt token route

  unfoldable pub role_handler : RoleRoute → Action Db Answer
  role_handler (RoleRoute.create dto) = do r ← Roles.create roles dto; pure (a_role r)
  role_handler RoleRoute.find_all = do rs ← Roles.find_all roles; pure (all_roles rs)
  role_handler (RoleRoute.find_one id) = do r ← Roles.find_one roles id; pure (a_role r)
  role_handler (RoleRoute.update id dto) = do r ← Roles.update roles id dto; pure (a_role r)
  role_handler (RoleRoute.remove id) = do Roles.remove roles id; pure nothing
  role_handler (RoleRoute.add_permission id permission) = do
    r ← Roles.add_permission roles id permission
    pure (a_role r)
  role_handler (RoleRoute.remove_permission id permission) = do
    r ← Roles.remove_permission roles id permission
    pure (a_role r)

  unfoldable pub role_controller : ℕ → Option String → RoleRoute → Action Db Answer
  role_controller now token route = do
    u ← jwt_auth_guard users roles bcrypt jwt now token
    guarded (roles_guard (required_role route) (some u))
    role_handler route

  unfoldable pub role_request : ℕ → Option String → RoleRoute → Action Db Answer
  unfolding role_controller
  role_request now token route = do
    guarded (roles_guard (required_role route) none)
    role_controller now token route
