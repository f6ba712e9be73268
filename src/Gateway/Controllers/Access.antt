-- ===== src/Gateway/Controllers/Access.antt =====
-- Who can reach the routes of `UserController` and `RoleController`, and what they change.
use synkro.Base.{
  ℕ, String, false, Option, none, some, ◌≡◌, ◌≢◌, refl, sym, ap, ◌∙◌, inl, inr, arith, Result, ok,
  err, Action, unauthorized, Bool-cases, Option-cases, ◌>>=◌, ◌>>◌, eq_iff, pure, subst,
}
use synkro.Gateway.Entities.{User, UserRole, UpdateUserDto, Bcrypt, assign}
use synkro.Gateway.Repository.{UserRepository, RoleRepository, IsUserRepository}
use synkro.Gateway.Users
use synkro.Gateway.Users.Confined.{update-IsConfined}
use synkro.Gateway.Auth.{Jwt}
use synkro.Gateway.Guards.{guarded, roles_guard, jwt_auth_guard}
use synkro.Gateway.Guards.Laws.{Authenticates, jwt_auth_guard_stays, jwt_auth_guard_iff}
use synkro.Gateway.Controllers.{
  UserRoute, RoleRoute, Answer, a_user, required, is_other, user_handler, user_request,
  role_request,
}

-- An update with a role and nothing else.
abbrev pub only_role : UserRole → UpdateUserDto
only_role role = record { email = none; password = none; name = none; role = some role }

pair_eq : {A B : Type 0} (p : A × B) (a : A) (b : B) → p.0 ≡ a → p.1 ≡ b → p ≡ (a, b)
pair_eq p a b e f = ground arith

module _ {Db : Type 0} (users : UserRepository Db) (roles : RoleRepository Db) (bcrypt : Bcrypt)
    (jwt : Jwt) where
  -- Every request to a route with `@Roles` is refused as unauthenticated, whoever sends it and
  -- whatever its token, and every request to `RoleController` is: the guard that the application
  -- registers runs before any guard that sets the user.
  pub decorated_unreachable :
      (now : ℕ) (salt : String) (token : Option String) (db : Db) (route : UserRoute)
      (role_route : RoleRoute)
      → required route ≢ none
      → (user_request users roles bcrypt jwt now salt token route db
          ≡ (err (unauthorized "User not authenticated"), db))
        × (role_request users roles bcrypt jwt now token role_route db
            ≡ (err (unauthorized "User not authenticated"), db))
  unfolding user_request role_request roles_guard
  decorated_unreachable now salt token db route role_route ne = (
    elim (Option-cases (required route)) [
      | inl open_route ↦ absurd (ne open_route)
      | inr (r, named) ↦ rw named
    ],
    refl,
  )

  -- On a route without `@Roles` an authenticated request reaches the handler.
  request_reaches :
      (now : ℕ) (salt : String) (token : Option String) (route : UserRoute) (db : Db) (u : User)
      → required route ≡ none
      → Authenticates users roles bcrypt jwt now token db u
      → user_request users roles bcrypt jwt now salt token route db
        ≡ user_handler users roles bcrypt jwt salt u route db
  unfolding user_request roles_guard
  request_reaches now salt token route db u plain who =
      let guard =
        pair_eq (jwt_auth_guard users roles bcrypt jwt now token db) (ok u) db
          ((jwt_auth_guard_iff users roles bcrypt jwt now token db u).1 who)
          (jwt_auth_guard_stays users roles bcrypt jwt now token db) in
      rw plain (
        ap
          (λ (out : Result User × Db).
            (◌>>=◌ {S = Db} (λ _. out)
                (λ v. do
                  guarded (roles_guard none (some v))
                  user_handler users roles bcrypt jwt salt v route))
              db)
          guard)

  answer_state :
      {A B : Type 0} (m : Action Db A) (f : A → B) (db : Db)
      → ((m >>= λ a. pure (f a)) db).1 ≡ (m db).1
  answer_state m f db = ground arith

  find_stays :
      (salt id : String) (db : Db) (u : User) (i : String)
      → users.find_by_id i (user_handler users roles bcrypt jwt salt u (UserRoute.find_one id) db).1
        ≡ users.find_by_id i db
  unfolding user_handler Users.find_one
  find_stays salt id db u i = ground arith

  -- A user that is not an administrator can change no row but its own, by any route of
  -- `UserController`.
  pub user_request-confined :
      IsUserRepository users
      → (now : ℕ) (salt : String) (token : Option String) (route : UserRoute) (db : Db) (u : User)
        (i : String)
      → Authenticates users roles bcrypt jwt now token db u
      → u.role ≡ UserRole.user
      → i ≢ u.id
      → users.find_by_id i (user_request users roles bcrypt jwt now salt token route db).1
        ≡ users.find_by_id i db
  unfolding user_handler
  user_request-confined laws now salt token (UserRoute.find_one id) db u i who plain ne =
      rw (request_reaches now salt token (UserRoute.find_one id) db u refl who)
        (find_stays salt id db u i)
  user_request-confined laws now salt token (UserRoute.update id dto) db u i who plain ne =
      rw (request_reaches now salt token (UserRoute.update id dto) db u refl who)
        (elim (Bool-cases (is_other u id)) [
          | inl other ↦ rw (other, user_handler)
          | inr own ↦
              let same : u.id ≡ id = ground (arith, eq_iff u.id id) in
              rw (own, user_handler)
                (ap (λ d. users.find_by_id i d)
                    (answer_state (Users.update users roles bcrypt id dto) a_user db)
                  ∙ (update-IsConfined users roles bcrypt laws id dto db).1 i
                      (λ e. ne (e ∙ sym same)))
        ])
  user_request-confined laws now salt token route db u i who plain ne =
      rw ((decorated_unreachable now salt token db route RoleRoute.find_all (λ e. cc)).0)

  answered :
      (m : Action Db User) (v : User) (db : Db)
      → (m db).0 ≡ ok v
      → (m >>= λ x. pure (a_user x)) db ≡ (ok (a_user v), (m db).1)
  answered m v db h = ground (arith, h)

  Authenticates-found :
      IsUserRepository users
      → (now : ℕ) (token : Option String) (db : Db) (u : User)
      → Authenticates users roles bcrypt jwt now token db u
      → users.find_by_id u.id db ≡ some u
  Authenticates-found laws now none db u who = absurd who
  Authenticates-found laws now (some token) db u (p, verified, found, active) =
      subst (λ i. users.find_by_id i db ≡ some u) (sym (laws.found_id p.sub u db found)) found

  -- The service asks for nothing but that the database saves the user with its new role.
  update-only_role :
      (role : UserRole) (db : Db) (u : User)
      → users.find_by_id u.id db ≡ some u
      → Users.update users roles bcrypt u.id (only_role role) db
        ≡ users.save (record u { role = role }) db
  unfolding Users.update Users.find_one assign
  update-only_role role db u found = ground (arith, found)

  -- Any active user can make itself an administrator: where the database saves the user with that role,
  -- its request to update its own profile with the role and nothing else succeeds, and the user is
  -- found with it afterwards.
  pub self_promotion :
      IsUserRepository users
      → (now : ℕ) (salt : String) (token : Option String) (db : Db) (u v : User)
      → Authenticates users roles bcrypt jwt now token db u
      → (users.save (record u { role = UserRole.admin }) db).0 ≡ ok v
      → let request =
          user_request users roles bcrypt jwt now salt token
            (UserRoute.update u.id (only_role UserRole.admin))
            db in
        (request.0 ≡ ok (a_user v))
        × ((w : User) × (users.find_by_id u.id request.1 ≡ some w) × (w.role ≡ UserRole.admin))
  unfolding user_handler assign
  self_promotion laws now salt token db u v who accepted =
      let route = UserRoute.update u.id (only_role UserRole.admin) in
      let reached = request_reaches now salt token route db u refl who in
      let own : is_other u u.id ≡ false = ground (arith, eq_iff u.id u.id) in
      let updated =
        update-only_role UserRole.admin db u (Authenticates-found laws now token db u who) in
      let (w, by_id, by_email, stored) =
        laws.save_found (record u { role = UserRole.admin }) db v accepted in
      let answer =
        answered (Users.update users roles bcrypt u.id (only_role UserRole.admin)) v db
          (ap (λ (out : Result User × Db). out.0) updated ∙ accepted) in
      let request : user_request users roles bcrypt jwt now salt token route db ≡ (
        ok (a_user v),
        (Users.update users roles bcrypt u.id (only_role UserRole.admin) db).1,
      ) =
        reached ∙ rw (own, user_handler) answer in
      (
        ap (λ (out : Result Answer × Db). out.0) request,
        (
          w,
          ap (λ (out : Result Answer × Db). users.find_by_id u.id out.1) request
              ∙ ap (λ (out : Result User × Db). users.find_by_id u.id out.1) updated
              ∙ by_id,
          stored.same_role,
        ),
      )
