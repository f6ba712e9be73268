-- ===== src/Gateway/Users/Steps.antt =====
-- The steps that the methods of user.service.ts share: what they answer, and that they leave the
-- database alone.
use synkro.Base.{
  String, Option, none, some, ◌≡◌, ◌≢◌, refl, ap, ◌∙◌, arith, Result, ok, Action, ◌>>=◌, ◌>>◌,
  >>=-eq-ok, eq_iff, Option-cases,
}
use synkro.Gateway.Entities.{User, UpdateUserDto, Bcrypt, assign}
use synkro.Gateway.Repository.{UserRepository, RoleRepository}
use synkro.Gateway.Users.{find_one, reject_taken, update}

module _ {Db : Type 0} (users : UserRepository Db) (roles : RoleRepository Db)
    (bcrypt : Bcrypt) where
  pub find_one_stays : (id : String) (db : Db) → (find_one users roles bcrypt id db).1 ≡ db
  unfolding find_one
  find_one_stays id db = ground arith

  pub find_one_found :
      (id : String) (db : Db) (u : User)
      → (find_one users roles bcrypt id db).0 ≡ ok u
      → users.find_by_id id db ≡ some u
  unfolding find_one
  find_one_found id db u h = ground arith

  pub reject_taken_stays :
      (email : Option String) (u : User) (db : Db)
      → (reject_taken users roles bcrypt email u db).1 ≡ db
  reject_taken_stays none u db = refl
  reject_taken_stays (some e) u db = ground arith

  -- A call on a user that succeeds has found it, and is the rest of the call for that user.
  pub find_one_then :
      {A : Type 0} (id : String) (db : Db) (k : User → Action Db A) (a : A)
      → ((find_one users roles bcrypt id >>= k) db).0 ≡ ok a
      → (u : User) × (users.find_by_id id db ≡ some u)
        × ((find_one users roles bcrypt id >>= k) db ≡ k u db)
        × ((k u db).0 ≡ ok a)
  find_one_then id db k a h =
      let (u, found, same, done) = >>=-eq-ok (find_one users roles bcrypt id) k db a h in
      (
        u,
        find_one_found id db u found,
        rw (find_one_stays id db) at same,
        rw (find_one_stays id db) at done,
      )

  -- `update` goes on past its guard only if a new email belongs to nobody.
  pub reject_taken_ok :
      (email : Option String) (u : User) (db : Db)
      → (reject_taken users roles bcrypt email u db).0 ≡ ok tt
      → (e : String) → email ≡ some e
      → e ≢ ""
      → e ≢ u.email
      → users.find_by_email e db ≡ none
  reject_taken_ok none u db h e given_e ne changed = cc
  reject_taken_ok (some x) u db h e given_e ne changed =
      ground (arith, eq_iff x "", eq_iff x u.email, Option-cases (users.find_by_email x db))

  -- The parts of a successful update.
  pub update_ok :
      (id : String) (dto : UpdateUserDto) (db : Db) (v : User)
      → (update users roles bcrypt id dto db).0 ≡ ok v
      → (u : User) × (users.find_by_id id db ≡ some u)
        × ((reject_taken users roles bcrypt dto.email u db).0 ≡ ok tt)
        × ((users.save (assign u dto) db).0 ≡ ok v)
        × ((update users roles bcrypt id dto db).1 ≡ (users.save (assign u dto) db).1)
  unfolding update
  update_ok id dto db v h =
      let guard = λ (u : User). reject_taken users roles bcrypt dto.email u in
      let (u, found, same, rest) =
        find_one_then id db (λ u. do guard u; users.save (assign u dto)) v h in
      let (_, passed, same', done) =
        >>=-eq-ok (guard u) (λ _. users.save (assign u dto)) db v rest in
      let stays = reject_taken_stays dto.email u db in
      (
        u,
        found,
        passed,
        rw stays at done,
        ap (λ (out : Result User × Db). out.1) (same ∙ (rw stays at same')),
      )
