-- ===== src/Gateway/Auth/Passwords.antt =====
-- What happens to a password that `UserService.update` changes: the listener that hashes passwords
-- runs before an insert only.
use synkro.Base.{ℕ, String, true, false, Option, some, ◌≡◌, ◌≢◌, sym, ap, ◌∙◌, arith, ok, or_else}
use synkro.Gateway.Entities.{User, UpdateUserDto, Bcrypt, validate_password, assign}
use synkro.Gateway.Repository.{UserRepository, RoleRepository, IsUserRepository}
use synkro.Gateway.Users
use synkro.Gateway.Users.Effects.{update-IsStored}
use synkro.Gateway.Auth.{Jwt, AuthResponse, login}
use synkro.Gateway.Auth.Login.{login-generates}

no_match :
    (bcrypt : Bcrypt) (x w v : User) (password : String)
    → some x ≡ some w
    → w.password ≡ v.password
    → v.password ≡ password
    → bcrypt.compare password x.password ≡ true
    → bcrypt.compare password password ≡ false
    → ⊥
no_match bcrypt x w v password same stored plain fits unhashed = ground arith

module _ {Db : Type 0} (users : UserRepository Db) (roles : RoleRepository Db) (bcrypt : Bcrypt)
    (jwt : Jwt) where
  -- After a successful update of a user's password nobody can log in with the new password, if
  -- `bcrypt` does not accept a text as its own hash: the password is stored as it was sent.
  pub login-update :
      IsUserRepository users
      → (now : ℕ) (id : String) (dto : UpdateUserDto) (password : String) (db : Db) (v : User)
        (r : AuthResponse)
      → dto.password ≡ some password
      → bcrypt.compare password password ≡ false
      → (Users.update users roles bcrypt id dto db).0 ≡ ok v
      → let db' = (Users.update users roles bcrypt id dto db).1 in
        (v.password ≡ password) × ((login users roles bcrypt jwt now v.email password db').0 ≢ ok r)
  unfolding validate_password assign
  login-update laws now id dto password db v r asked unhashed h =
      let (u, w, found, answer, _, by_id, by_email, stored) =
        update-IsStored users roles bcrypt laws id dto db v h in
      let plain : v.password ≡ password =
        ap (λ (x : User). x.password) answer
        ∙ ap (λ (o : Option String). or_else o u.password) asked in
      (
        plain,
        λ logged_in.
            let (x, (there, _, fits), _) =
              (login-generates users roles bcrypt jwt now v.email password _ r).0 logged_in in
            no_match bcrypt x w v password (sym there ∙ by_email) stored.same_password plain fits
              unhashed,
      )
