-- ===== src/Gateway/Repository.antt =====
-- What the services of the gateway ask of TypeORM's repositories, and what they rely on. The
-- database is not part of the repository: its state is a type `Db`, and a repository is a record of
-- the calls that the services make.
use synkro.Base.{
  String, Bool, false, ◌||◌, Option, none, some, List, [], ◌∷◌, ◌≡◌, ◌≢◌, ok, err, Failure, Action,
  ◌==◌,
}
use synkro.Gateway.Entities.{User, Role, NewUser, CreateRoleDto, inserted, inserted_role}

pub record UserRepository (Db : Type 0) : Type 0 where
  -- `findOne({ where: { id }, relations: ['roles'] })`
  pub find_by_id : String → Db → Option User
  -- `findOne({ where: { email } })`; the relation `roles` is eager
  pub find_by_email : String → Db → Option User
  -- `find()`
  pub find : Db → List User
  -- `save` of an entity made by `create`, after its `@BeforeInsert` listener
  pub insert : NewUser → Action Db User
  -- `save` of an entity that was found
  pub save : User → Action Db User
  pub delete : String → Db → Db

pub record RoleRepository (Db : Type 0) : Type 0 where
  pub find_by_id : String → Db → Option Role
  pub find_by_name : String → Db → Option Role
  pub find : Db → List Role
  pub insert : CreateRoleDto → Action Db Role
  pub save : Role → Action Db Role
  pub delete : String → Db → Db

-- Is a role with this id among a user's roles?
abbrev pub has_role_in : String → List Role → Bool
has_role_in i [] = false
has_role_in i (r ∷ rs) = (r.id == i) || has_role_in i rs

abbrev pub has_role : String → User → Bool
has_role i u = elim u.roles [ none ↦ false | some rs ↦ has_role_in i rs ]

-- The stored form of a saved user: the same columns, and the same rows of the join table, in which
-- a role stands once.
pub record IsStored (u w : User) : Type 0 where
  pub same_id : w.id ≡ u.id
  pub same_email : w.email ≡ u.email
  pub same_password : w.password ≡ u.password
  pub same_name : w.name ≡ u.name
  pub same_role : w.role ≡ u.role
  pub same_active : w.is_active ≡ u.is_active
  pub same_roles : (i : String) → has_role i w ≡ has_role i u

-- The documented behaviour of the user repository that the theorems rely on.
pub record IsUserRepository {Db : Type 0} (r : UserRepository Db) : Type 0 where
  pub found_id : (i : String) (u : User) (db : Db) → r.find_by_id i db ≡ some u → u.id ≡ i
  pub found_email : (e : String) (u : User) (db : Db) → r.find_by_email e db ≡ some u → u.email ≡ e
  -- An insert answers the entity with its id and the defaults of its columns.
  pub insert_answer :
      (n : NewUser) (u : User) (db : Db) → (r.insert n db).0 ≡ ok u → u ≡ inserted u.id n
  -- It is found afterwards, with an empty list of roles.
  pub insert_found :
      (n : NewUser) (u : User) (db : Db)
      → (r.insert n db).0 ≡ ok u
      → (r.find_by_id u.id (r.insert n db).1 ≡ some (record u { roles = some [] }))
        × (r.find_by_email n.email (r.insert n db).1 ≡ some (record u { roles = some [] }))
  pub insert_frame :
      (n : NewUser) (u : User) (db : Db)
      → (r.insert n db).0 ≡ ok u
      → (i : String) → i ≢ u.id
      → r.find_by_id i (r.insert n db).1 ≡ r.find_by_id i db
  -- A statement that fails changes nothing.
  pub insert_fails :
      (n : NewUser) (db : Db) (e : Failure) → (r.insert n db).0 ≡ err e → (r.insert n db).1 ≡ db
  pub save_answer : (u : User) (db : Db) (v : User) → (r.save u db).0 ≡ ok v → v ≡ u
  pub save_found :
      (u : User) (db : Db) (v : User)
      → (r.save u db).0 ≡ ok v
      → (w : User) × (r.find_by_id u.id (r.save u db).1 ≡ some w)
        × (r.find_by_email u.email (r.save u db).1 ≡ some w)
        × IsStored u w
  pub save_frame :
      (u : User) (db : Db) (i : String)
      → i ≢ u.id
      → r.find_by_id i (r.save u db).1 ≡ r.find_by_id i db
  pub save_fails :
      (u : User) (db : Db) (e : Failure) → (r.save u db).0 ≡ err e → (r.save u db).1 ≡ db
  pub delete_found : (i : String) (db : Db) → r.find_by_id i (r.delete i db) ≡ none
  pub delete_frame :
      (i : String) (db : Db) (j : String)
      → j ≢ i
      → r.find_by_id j (r.delete i db) ≡ r.find_by_id j db

-- The documented behaviour of the role repository that the theorems rely on.
pub record IsRoleRepository {Db : Type 0} (r : RoleRepository Db) : Type 0 where
  pub found_id : (i : String) (x : Role) (db : Db) → r.find_by_id i db ≡ some x → x.id ≡ i
  pub insert_answer :
      (dto : CreateRoleDto) (db : Db) (x : Role)
      → (r.insert dto db).0 ≡ ok x
      → x ≡ inserted_role x.id dto
  pub insert_found :
      (dto : CreateRoleDto) (db : Db) (x : Role)
      → (r.insert dto db).0 ≡ ok x
      → (r.find_by_id x.id (r.insert dto db).1 ≡ some x)
        × (r.find_by_name dto.name (r.insert dto db).1 ≡ some x)
  pub insert_fails :
      (dto : CreateRoleDto) (db : Db) (e : Failure)
      → (r.insert dto db).0 ≡ err e
      → (r.insert dto db).1 ≡ db
  pub save_answer : (x : Role) (db : Db) (y : Role) → (r.save x db).0 ≡ ok y → y ≡ x
  pub save_found :
      (x : Role) (db : Db) (y : Role)
      → (r.save x db).0 ≡ ok y
      → r.find_by_id x.id (r.save x db).1 ≡ some x
  pub save_frame :
      (x : Role) (db : Db) (i : String)
      → i ≢ x.id
      → r.find_by_id i (r.save x db).1 ≡ r.find_by_id i db
  pub save_fails :
      (x : Role) (db : Db) (e : Failure) → (r.save x db).0 ≡ err e → (r.save x db).1 ≡ db
  pub delete_found : (i : String) (db : Db) → r.find_by_id i (r.delete i db) ≡ none
