-- ===== src/Gateway/Memory.antt =====
-- Repositories over lists, which meet the laws of `Repository`: the newest row of an id or an email
-- is the one found. They show that the laws can hold, and run the services in the tests.
use synkro.Base.{
  ltb, ◌&&◌, String, true, not, Option, none, some, List, [], ◌∷◌, ◌≡◌, ◌≢◌, refl, sym,
  ok-injective, arith, ok, ◌==◌, eq_iff, ==_refl, find, keep, template, if◌then◌else◌,
}
use synkro.Gateway.Entities.{User, UserRole, Role, Bcrypt, IsBcrypt, inserted, inserted_role}
use synkro.Gateway.Auth.{Jwt, IsJwt, IsSigned, payload_of, hour}
use synkro.Gateway.Repository.{
  UserRepository, RoleRepository, IsUserRepository, IsRoleRepository, IsStored,
}

pub record Db : Type 0 where
  pub users : List User
  pub roles : List Role

abbrev user_by_id : String → List User → Option User
user_by_id i = find (λ u. u.id == i)

abbrev user_by_email : String → List User → Option User
user_by_email e = find (λ u. u.email == e)

abbrev role_by_id : String → List Role → Option Role
role_by_id i = find (λ r. r.id == i)

abbrev drop_user : String → List User → List User
drop_user i = keep (λ u. not (u.id == i))

abbrev drop_role : String → List Role → List Role
drop_role i = keep (λ r. not (r.id == i))

-- The id of an inserted row: a text made of its email, or of its name.
abbrev pub fresh : String → String
fresh s = template "id-" s ""

abbrev pub memory_users : UserRepository Db
memory_users = record {
  find_by_id = λ i db. user_by_id i db.users;
  find_by_email = λ e db. user_by_email e db.users;
  find = λ db. db.users;
  insert = λ n db.
      let u = inserted (fresh n.email) n in
      (ok u, record db { users = record u { roles = some [] } ∷ db.users });
  save = λ u db. (ok u, record db { users = u ∷ drop_user u.id db.users });
  delete = λ i db. record db { users = drop_user i db.users };
}

abbrev pub memory_roles : RoleRepository Db
memory_roles = record {
  find_by_id = λ i db. role_by_id i db.roles;
  find_by_name = λ n db. find (λ r. r.name == n) db.roles;
  find = λ db. db.roles;
  insert = λ dto db.
      let r = inserted_role (fresh dto.name) dto in (ok r, record db { roles = r ∷ db.roles });
  save = λ r db. (ok r, record db { roles = r ∷ drop_role r.id db.roles });
  delete = λ i db. record db { roles = drop_role i db.roles };
}

found_id : (i : String) (u : User) (us : List User) → user_by_id i us ≡ some u → u.id ≡ i
found_id i u [] h = cc
found_id i u (x ∷ us) h = ground (arith, eq_iff x.id i, found_id i u us)

found_email : (e : String) (u : User) (us : List User) → user_by_email e us ≡ some u → u.email ≡ e
found_email e u [] h = cc
found_email e u (x ∷ us) h = ground (arith, eq_iff x.email e, found_email e u us)

found_role : (i : String) (r : Role) (rs : List Role) → role_by_id i rs ≡ some r → r.id ≡ i
found_role i r [] h = cc
found_role i r (x ∷ rs) h = ground (arith, eq_iff x.id i, found_role i r rs)

user-drop_self : (i : String) (us : List User) → user_by_id i (drop_user i us) ≡ none
user-drop_self i [] = refl
user-drop_self i (x ∷ us) = ground (arith, user-drop_self i us)

user-drop_ne :
    (i j : String) (us : List User) → j ≢ i → user_by_id j (drop_user i us) ≡ user_by_id j us
user-drop_ne i j [] ne = refl
user-drop_ne i j (x ∷ us) ne = ground (arith, eq_iff x.id i, eq_iff x.id j, user-drop_ne i j us)

role-drop_self : (i : String) (rs : List Role) → role_by_id i (drop_role i rs) ≡ none
role-drop_self i [] = refl
role-drop_self i (x ∷ rs) = ground (arith, role-drop_self i rs)

role-drop_ne :
    (i j : String) (rs : List Role) → j ≢ i → role_by_id j (drop_role i rs) ≡ role_by_id j rs
role-drop_ne i j [] ne = refl
role-drop_ne i j (x ∷ rs) ne = ground (arith, eq_iff x.id i, eq_iff x.id j, role-drop_ne i j rs)

IsStored-self : (u : User) → IsStored u u
IsStored-self u = record {
  same_id = refl;
  same_email = refl;
  same_password = refl;
  same_name = refl;
  same_role = refl;
  same_active = refl;
  same_roles = λ i. refl;
}

answers : {A : Type 0} (a b : A) → ok a ≡ ok b → b ≡ a
answers a b h = sym (ok-injective a b h)

pub memory_users-IsUserRepository : IsUserRepository memory_users
memory_users-IsUserRepository = record {
  found_id = λ i u db. found_id i u db.users;
  found_email = λ e u db. found_email e u db.users;
  insert_answer = λ n u db h. rw (answers (inserted (fresh n.email) n) u h);
  insert_found = λ n u db h.
      rw (answers (inserted (fresh n.email) n) u h)
        (rw (==_refl (fresh n.email)), rw (==_refl n.email));
  insert_frame = λ n u db h i ne.
      ground (arith, eq_iff (fresh n.email) i, answers (inserted (fresh n.email) n) u h);
  insert_fails = λ n db e h. cc;
  save_answer = λ u db v h. answers u v h;
  save_found = λ u db v h. (u, rw (==_refl u.id), rw (==_refl u.email), IsStored-self u);
  save_frame = λ u db i ne. ground (arith, eq_iff u.id i, user-drop_ne u.id i db.users ne);
  save_fails = λ u db e h. cc;
  delete_found = λ i db. user-drop_self i db.users;
  delete_frame = λ i db j ne. user-drop_ne i j db.users ne;
}

pub memory_roles-IsRoleRepository : IsRoleRepository memory_roles
memory_roles-IsRoleRepository = record {
  found_id = λ i r db. found_role i r db.roles;
  insert_answer = λ dto db x h. rw (answers (inserted_role (fresh dto.name) dto) x h);
  insert_found = λ dto db x h.
      rw (answers (inserted_role (fresh dto.name) dto) x h)
        (rw (==_refl (fresh dto.name)), rw (==_refl dto.name));
  insert_fails = λ dto db e h. cc;
  save_answer = λ x db y h. answers x y h;
  save_found = λ x db y h. rw (==_refl x.id);
  save_frame = λ x db i ne. ground (arith, eq_iff x.id i, role-drop_ne x.id i db.roles ne);
  save_fails = λ x db e h. cc;
  delete_found = λ i db. role-drop_self i db.roles;
}

-- A stand-in for `bcryptjs`: a hash is the password behind a mark.
abbrev pub memory_bcrypt : Bcrypt
memory_bcrypt = record {
  hash = λ password salt. template "$2a$" password "";
  compare = λ password hash. template "$2a$" password "" == hash;
}

pub memory_bcrypt-IsBcrypt : IsBcrypt memory_bcrypt
memory_bcrypt-IsBcrypt = λ password salt. ==_refl (template "$2a$" password "")

abbrev pub editor : Role
editor = record { id = "r1"; name = "editor"; permissions = some ("read" ∷ []); description = none }

abbrev pub ann : User
ann = record {
  id = "u1";
  email = "ann@x";
  password = "$2a$secret";
  name = none;
  role = UserRole.user;
  is_active = true;
  roles = some (editor ∷ []);
}

abbrev pub sample : Db
sample = record { users = ann ∷ []; roles = editor ∷ [] }

-- A stand-in for the JWT library that knows one token, for `ann`, issued at time 0.
abbrev pub memory_jwt : Jwt
memory_jwt = record {
  verify =
      λ now token. if (token == "h.ann.s") && ltb now hour then some (payload_of ann) else none;
  sign = λ issued p. "h.ann.s";
}

pub memory_jwt-IsJwt : IsJwt memory_jwt
memory_jwt-IsJwt now later token le dead = ground arith

pub memory_jwt-IsSigned : IsSigned memory_jwt 0 (payload_of ann)
unfolding synkro.Gateway.Tokens.is_valid_token_format
memory_jwt-IsSigned = (refl, λ now le lt. ground arith)
