-- ===== src/Gateway/Roles.antt =====
-- api-gateway-auth/src/modules/user/role.service.ts, method by method.
pub mod Laws
use synkro.Base.{
  String, Bool, true, false, not, ◌&&◌, Option, none, some, List, [], ◌∷◌, ◌++◌, Action, pure,
  throw, gets, or_throw, throw_if, modify, ◌>>=◌, ◌>>◌, not_found, conflict, failure, ◌==◌, truthy,
  is_some, keep, or_else, includes, template, if◌then◌else◌,
}
use synkro.Gateway.Entities.{Role, CreateRoleDto, UpdateRoleDto, spread}
use synkro.Gateway.Repository.{RoleRepository}

-- `permissions.filter((p) => p !== permission)`
abbrev pub drop_permission : String → List String → List String
drop_permission permission = keep (λ p. not (p == permission))

module _ {Db : Type 0} (roles : RoleRepository Db) where
  unfoldable pub create : CreateRoleDto → Action Db Role
  create dto = do
    existing ← gets (roles.find_by_name dto.name)
    throw_if (is_some existing) (conflict "Role with this name already exists")
    roles.insert dto

  unfoldable pub find_all : Action Db (List Role)
  find_all = gets roles.find

  unfoldable pub find_one : String → Action Db Role
  find_one id = do
    found ← gets (roles.find_by_id id)
    or_throw found (not_found (template "Role with ID " id " not found"))

  unfoldable pub find_by_name : String → Action Db Role
  find_by_name name = do
    found ← gets (roles.find_by_name name)
    or_throw found (not_found (template "Role with name " name " not found"))

  -- the guard of `update` on a name that changes
  abbrev pub reject_taken : Option String → Role → Action Db (Unit {0})
  reject_taken none r = pure tt
  reject_taken (some name) r =
      if truthy name && not (name == r.name)
      then (do
        existing ← gets (roles.find_by_name name)
        throw_if (is_some existing) (conflict (template "Role with name " name " already exists")))
      else pure tt

  unfoldable pub update : String → UpdateRoleDto → Action Db Role
  unfolding find_one
  update id dto = do r ← find_one id; reject_taken dto.name r; roles.save (spread r dto)

  unfoldable pub remove : String → Action Db (Unit {0})
  unfolding find_one
  remove id = do r ← find_one id; modify (roles.delete id)

  -- `if (!role.permissions) role.permissions = []`, the early return, and the push
  abbrev pub add_to : Role → String → Action Db Role
  add_to r permission =
      let ps = or_else r.permissions [] in
      if includes permission ps
      then pure (record r { permissions = some ps })
      else roles.save (record r { permissions = some (ps ++ permission ∷ []) })

  unfoldable pub add_permission : String → String → Action Db Role
  unfolding find_one
  add_permission id permission = do r ← find_one id; add_to r permission

  -- `role.permissions.filter` throws a TypeError where `permissions` is null.
  unfoldable pub remove_permission : String → String → Action Db Role
  unfolding find_one
  remove_permission id permission = do
    r ← find_one id
    ps ← or_throw r.permissions (failure "Cannot read properties of null")
    roles.save (record r { permissions = some (drop_permission permission ps) })
