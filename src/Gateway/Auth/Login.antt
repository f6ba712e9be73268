-- ===== src/Gateway/Auth/Login.antt =====
-- When `login`, `register` and `validateToken` succeed, and what their tokens are worth.
use synkro.Base.{
  ℕ, ◌+◌, ◌≤◌, ◌<◌, String, true, false, some, List, [], ◌≡◌, ◌≢◌, ◌↔◌, ◌⊎◌, refl, sym, ap, subst,
  ◌∙◌, inl, inr, arith, Result, ok, err, Failure, unauthorized, >>=-eq-ok, ok-injective, eq_iff,
  includes, or_else, Bool-cases, Option-cases,
}
use synkro.Gateway.Entities.{User, UserRole, CreateUserDto, Bcrypt, IsBcrypt, validate_password}
use synkro.Gateway.Repository.{UserRepository, RoleRepository, IsUserRepository}
use synkro.Gateway.Users
use synkro.Gateway.Tokens.Format.{format-ne-nil}
use synkro.Gateway.Users.Effects.{create-found}
use synkro.Gateway.Tokens.{is_valid_token_format}
use synkro.Gateway.Auth.{
  Jwt, Payload, IsSigned, payload_of, AuthResponse, hour, generate_token, try_login, login,
  register, validate_token,
}

module _ {Db : Type 0} (users : UserRepository Db) (roles : RoleRepository Db) (bcrypt : Bcrypt)
    (jwt : Jwt) where
  -- The user that a login names, if it may log in.
  abbrev pub MayLogin : String → String → Db → User → Type 0
  MayLogin email password db u =
      (users.find_by_email email db ≡ some u)
      × (u.is_active ≡ true)
      × (validate_password bcrypt u password ≡ true)

  try_login_ok :
      (now : ℕ) (email password : String) (db : Db) (u : User)
      → MayLogin email password db u
      → try_login users roles bcrypt jwt now email password db ≡ (ok (generate_token jwt now u), db)
  unfolding try_login
  try_login_ok now email password db u (found, active, fits) = ground arith

  pub login-generates :
      (now : ℕ) (email password : String) (db : Db) (r : AuthResponse)
      → ((login users roles bcrypt jwt now email password db).0 ≡ ok r)
        ↔ ((u : User) × MayLogin email password db u × (r ≡ generate_token jwt now u))
  unfolding login
  login-generates now email password db r = (
    λ h. elim (Option-cases (users.find_by_email email db)) [
      | inl missing ↦ absurd (ground arith)
      | inr (u, found) ↦ (u, (found, ground arith, ground arith), ground arith)
    ],
    λ (u, may, e). rw (try_login_ok now email password db u may) (ap ok (sym e)),
  )

  -- The answer of a login: a token that is signed for the user's id, email and role, and the user.
  abbrev pub IsAnswerFor : ℕ → User → AuthResponse → Type 0
  IsAnswerFor now u r =
      (r.access_token ≡ jwt.sign now (record { sub = u.id; email = u.email; role = u.role }))
      × (r.user ≡ record {
        id = u.id;
        email = u.email;
        name = u.name;
        role = u.role;
        is_active = u.is_active;
      })

  generate_token-IsAnswerFor :
      (now : ℕ) (u : User) (r : AuthResponse) → (r ≡ generate_token jwt now u) ↔ IsAnswerFor now u r
  unfolding generate_token
  generate_token-IsAnswerFor now u r = (
    λ e. (ap (λ (a : AuthResponse). a.access_token) e, ap (λ (a : AuthResponse). a.user) e),
    λ (e, f). λ i. record { access_token = e i; user = f i },
  )

  -- A login succeeds exactly for an active user with that email whose password fits; its answer has a
  -- token that is signed for the id, email and role of that user, and names that user.
  pub login_iff :
      (now : ℕ) (email password : String) (db : Db) (r : AuthResponse)
      → ((login users roles bcrypt jwt now email password db).0 ≡ ok r)
        ↔ ((u : User) × MayLogin email password db u × IsAnswerFor now u r)
  login_iff now email password db r =
      let (f, g) = login-generates now email password db r in
      (
        λ h. let (u, may, e) = f h in (u, may, (generate_token-IsAnswerFor now u r).0 e),
        λ (u, may, answer). g (u, may, (generate_token-IsAnswerFor now u r).1 answer),
      )

  -- A login that fails is refused as unauthorized, with one of two messages, and leaves the
  -- database alone; the message names inactivity only if the email is that of an inactive user.
  pub login_fails :
      (now : ℕ) (email password : String) (db : Db) (e : Failure)
      → (login users roles bcrypt jwt now email password db).0 ≡ err e
      → ((login users roles bcrypt jwt now email password db).1 ≡ db)
        × ((e ≡ unauthorized "Invalid credentials")
            ⊎ ((u : User) × (users.find_by_email email db ≡ some u)
                × (u.is_active ≡ false)
                × (e ≡ unauthorized "User is not active")))
  unfolding login
  login_fails now email password db e h = elim (Option-cases (users.find_by_email email db)) [
    | inl missing ↦ (ground arith, inl (ground arith))
    | inr (u, found) ↦ elim (Bool-cases u.is_active) [
      | inl active ↦ (ground arith, inl (ground arith))
      | inr inactive ↦ (ground arith, inr (u, found, inactive, ground arith))
    ]
  ]

  -- A token is valid for a user exactly if it is not invalidated, is well formed, verifies, and
  -- names an active user.
  pub validate_token_iff :
      (now : ℕ) (token : String) (set : List String) (db : Db) (id : String)
      → (validate_token users roles bcrypt jwt now token set db
          ≡ record { is_valid = true; user_id = some id })
        ↔ ((includes token set ≡ false)
            × (is_valid_token_format token ≡ true)
            × ((p : Payload) × (u : User) × (jwt.verify now token ≡ some p)
                × (p.sub ≢ "")
                × (users.find_by_id p.sub db ≡ some u)
                × (u.is_active ≡ true)
                × (u.id ≡ id)))
  unfolding validate_token Users.find_one
  validate_token_iff now token set db id = (
    λ h. elim (Option-cases (jwt.verify now token)) [
      | inl dead ↦ absurd (ground arith)
      | inr (p, verified) ↦ elim (Option-cases (users.find_by_id p.sub db)) [
        | inl missing ↦ absurd (ground arith)
        | inr (u, found) ↦ (
          ground arith,
          ground arith,
          (
            p,
            u,
            verified,
            λ empty. ground (arith, eq_iff p.sub ""),
            found,
            ground arith,
            ground arith,
          ),
        )
      ]
    ],
    λ (new, format, (p, u, verified, sub, found, active, same)).
        ground (arith, eq_iff token "", eq_iff p.sub "", format-ne-nil token),
  )

  -- Whoever registers with a password that is not empty can log in with the same email and password
  -- at any later time, unless the database was changed in between: the answer names the same user,
  -- active, with the role that was asked for or `user`.
  pub login-register :
      IsUserRepository users
      → IsBcrypt bcrypt
      → (now later : ℕ) (salt : String) (dto : CreateUserDto) (db : Db) (r : AuthResponse)
      → dto.password ≢ ""
      → (register users roles bcrypt jwt now salt dto db).0 ≡ ok r
      → let db' = (register users roles bcrypt jwt now salt dto db).1 in
        (s : AuthResponse) × ((login users roles bcrypt jwt later dto.email dto.password db').0
          ≡ ok s)
        × (s.user ≡ r.user)
        × (s.user.role ≡ or_else dto.role UserRole.user)
        × (s.user.is_active ≡ true)
  unfolding register generate_token
  login-register laws hashes now later salt dto db r ne h =
      let asked = record dto { role = some (or_else dto.role UserRole.user) } in
      let (u, created, same, done) =
        >>=-eq-ok (Users.create users roles bcrypt salt asked)
          (λ u s. (ok (generate_token jwt now u), s)) db r h in
      let (free, by_email, by_id, active, role, fits) =
        create-found users roles bcrypt laws salt asked db u hashes ne created in
      let w = record u { roles = some [] } in
      let there = ap (λ (out : Result AuthResponse × Db). out.1) same in
      let may : MayLogin dto.email dto.password (register users roles bcrypt jwt now salt dto db).1
          w =
        (
          subst (λ d. users.find_by_email dto.email d ≡ some w) (sym there) by_email,
          active,
          fits,
        ) in
      (
        generate_token jwt later w,
        (login-generates later dto.email dto.password _ _).1 (w, may, refl),
        ap (λ (x : AuthResponse). x.user) (ok-injective _ _ done),
        role,
        active,
      )

  -- A token from a login validates for the user's id during the next hour, if the library signs for
  -- the user that logs in, the token was not invalidated and the user is still stored as active.
  validate-login :
      IsUserRepository users
      → (now later : ℕ) (email password : String) (db later_db : Db) (r : AuthResponse) (u : User)
        (set : List String)
      → ((v : User) → users.find_by_email email db ≡ some v → IsSigned jwt now (payload_of v))
      → (login users roles bcrypt jwt now email password db).0 ≡ ok r
      → now ≤ later
      → later < now + hour
      → includes r.access_token set ≡ false
      → users.find_by_id r.user.id later_db ≡ some u
      → u.is_active ≡ true
      → r.user.id ≢ ""
      → validate_token users roles bcrypt jwt later r.access_token set later_db
        ≡ record { is_valid = true; user_id = some r.user.id }
  unfolding generate_token
  validate-login laws now later email password db later_db r u set signs h le lt new found active
        ne =
      let (who, may, same) = (login-generates now email password db r).0 h in
      let (format, verifies) = signs who may.0 in
      let token : r.access_token ≡ jwt.sign now (payload_of who) =
        ap (λ (x : AuthResponse). x.access_token) same in
      let own : r.user.id ≡ who.id = ap (λ (x : AuthResponse). x.user.id) same in
      (validate_token_iff later r.access_token set later_db r.user.id).1 (
        new,
        subst (λ t. is_valid_token_format t ≡ true) (sym token) format,
        (
          payload_of who,
          u,
          subst (λ t. jwt.verify later t ≡ some (payload_of who)) (sym token)
              (verifies later le lt),
          λ e. ne (own ∙ e),
          subst (λ i. users.find_by_id i later_db ≡ some u) own found,
          active,
          laws.found_id r.user.id u later_db found,
        ),
      )
