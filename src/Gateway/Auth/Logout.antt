-- ===== src/Gateway/Auth/Logout.antt =====
-- Runs of the authentication service: calls of `logout`, the hourly clean-up of the constructor's
-- `setInterval`, time, and whatever the other services write to the database.
use synkro.Base.{
  ℕ, ◌+◌, String, true, false, none, List, [], ◌∷◌, ◌≡◌, ◌≢◌, ◌⊎◌, ◌∙◌, inl, inr, arith, ◌==◌,
  eq_iff, ==_refl, includes, includes-keep, Bool-cases, Option-cases,
}
use synkro.Gateway.Entities.{Bcrypt}
use synkro.Gateway.Repository.{UserRepository, RoleRepository}
use synkro.Gateway.Tokens.{is_valid_token_format}
use synkro.Gateway.Auth.{
  Jwt, IsJwt, TokenValidationResponse, invalid, cleanup_invalidated_tokens, invalidate_token,
  validate_token,
}
use synkro.Gateway.Auth.Cleanup.{is_live, cleanup-eq-keep, includes-invalidate}

-- The service's state, the database and the clock.
pub record World (Db : Type 0) : Type 0 where
  pub invalidated_tokens : List String
  pub db : Db
  pub now : ℕ

pub data Event (Db : Type 0) : Type 0 where
  logout : String → Event Db
  interval : Event Db
  wait : ℕ → Event Db
  write : Db → Event Db

dead_or_live :
    (jwt : Jwt) (now : ℕ) (token : String)
    → (is_live jwt now token ≡ true)
      ⊎ (is_valid_token_format token ≡ false)
      ⊎ (jwt.verify now token ≡ none)
dead_or_live jwt now token = elim (Option-cases (jwt.verify now token)) [
  | inl dead ↦ inr (inr dead)
  | inr (p, verified) ↦ elim (Bool-cases (is_valid_token_format token)) [
    | inl fine ↦ inl (ground arith)
    | inr bad ↦ inr (inl bad)
  ]
]

-- A live token that is in the set stays there, whatever token is invalidated.
invalidate_keeps :
    (jwt : Jwt) (now : ℕ) (t token : String) (set : List String)
    → is_live jwt now token ≡ true
    → includes token set ≡ true
    → includes token (invalidate_token jwt now t set).1 ≡ true
unfolding invalidate_token
invalidate_keeps jwt now t token set live there = elim (Bool-cases (includes t set)) [
  | inl old ↦ ground arith
  | inr new ↦ elim (Bool-cases (t == "")) [
    | inl empty ↦ ground arith
    | inr given ↦
        (includes-invalidate jwt now t set token new (λ e. ground (arith, eq_iff t ""))).1
        ∙ rw (there, live)
  ]
]

live-ne-nil : (jwt : Jwt) (now : ℕ) (token : String) → is_live jwt now token ≡ true → token ≢ ""
unfolding is_valid_token_format
live-ne-nil jwt now token live e = cc (rw e at live)

-- A live token is in the set after it was invalidated.
invalidate_adds :
    (jwt : Jwt) (now : ℕ) (token : String) (set : List String)
    → is_live jwt now token ≡ true
    → token ≢ ""
    → includes token (invalidate_token jwt now token set).1 ≡ true
unfolding invalidate_token
invalidate_adds jwt now token set live ne = elim (Bool-cases (includes token set)) [
  | inl old ↦ ground arith
  | inr new ↦ (includes-invalidate jwt now token set token new ne).1 ∙ rw (new, ==_refl token, live)
]

module _ {Db : Type 0} (jwt : Jwt) where
  unfoldable pub step : Event Db → World Db → World Db
  step (logout token) w = record w {
    invalidated_tokens = (invalidate_token jwt w.now token w.invalidated_tokens).1;
  }
  step interval w = record w {
    invalidated_tokens = cleanup_invalidated_tokens jwt w.now w.invalidated_tokens;
  }
  step (wait n) w = record w { now = w.now + n }
  step (write db) w = record w { db = db }

  abbrev pub run : List (Event Db) → World Db → World Db
  run [] w = w
  run (e ∷ es) w = run es (step e w)

  -- No later call can accept the token: it is in the set, or it will never verify.
  abbrev pub IsRevoked : String → World Db → Type 0
  IsRevoked token w =
      (includes token w.invalidated_tokens ≡ true)
      ⊎ (is_valid_token_format token ≡ false)
      ⊎ (jwt.verify w.now token ≡ none)

  logout-IsRevoked : (token : String) (w : World Db) → IsRevoked token (step (logout token) w)
  unfolding step
  logout-IsRevoked token w = elim (dead_or_live jwt w.now token) [
    | inr dead ↦ inr dead
    | inl live ↦ inl (
        invalidate_adds jwt w.now token w.invalidated_tokens live
          (λ e. live-ne-nil jwt w.now token live e))
  ]

  step-IsRevoked :
      IsJwt jwt
      → (e : Event Db) (token : String) (w : World Db) → IsRevoked token w
      → IsRevoked token (step e w)
  unfolding step
  step-IsRevoked tokens (logout t) token w (inr dead) = inr dead
  step-IsRevoked tokens (logout t) token w (inl there) = elim (dead_or_live jwt w.now token) [
    | inr dead ↦ inr dead
    | inl live ↦ inl (invalidate_keeps jwt w.now t token w.invalidated_tokens live there)
  ]
  step-IsRevoked tokens interval token w (inr dead) = inr dead
  step-IsRevoked tokens interval token w (inl there) = elim (dead_or_live jwt w.now token) [
    | inr dead ↦ inr dead
    | inl live ↦
        inl (rw (cleanup-eq-keep jwt w.now w.invalidated_tokens, includes-keep) (rw (there, live)))
  ]
  step-IsRevoked tokens (wait n) token w (inl there) = inl there
  step-IsRevoked tokens (wait n) token w (inr (inl bad)) = inr (inl bad)
  step-IsRevoked tokens (wait n) token w (inr (inr dead)) =
      inr (inr (tokens w.now (w.now + n) token (omega arith) dead))
  step-IsRevoked tokens (write db) token w h = h

  run-IsRevoked :
      IsJwt jwt
      → (es : List (Event Db)) (token : String) (w : World Db) → IsRevoked token w
      → IsRevoked token (run es w)
  run-IsRevoked tokens [] token w h = h
  run-IsRevoked tokens (e ∷ es) token w h =
      run-IsRevoked tokens es token (step e w) (step-IsRevoked tokens e token w h)

module _ {Db : Type 0} (users : UserRepository Db) (roles : RoleRepository Db) (bcrypt : Bcrypt)
    (jwt : Jwt) where
  -- `validateToken` in a state of the service.
  abbrev pub validates : String → World Db → TokenValidationResponse
  validates token w = validate_token users roles bcrypt jwt w.now token w.invalidated_tokens w.db

  revoked_invalid :
      (token : String) (w : World Db) → IsRevoked jwt token w → validates token w ≡ invalid
  unfolding validate_token
  revoked_invalid token w (inl there) = ground arith
  revoked_invalid token w (inr (inl bad)) = ground arith
  revoked_invalid token w (inr (inr dead)) = ground arith

  -- A token that was logged out never validates again, whatever is logged out, cleaned up or
  -- written to the database later, and however much time passes.
  pub logout-permanent :
      IsJwt jwt
      → (token : String) (w : World Db) (es : List (Event Db))
      → validates token (run jwt es (step jwt (logout token) w)) ≡ invalid
  logout-permanent tokens token w es =
      revoked_invalid token (run jwt es (step jwt (logout token) w)) (
        run-IsRevoked jwt tokens es token (step jwt (logout token) w)
          (logout-IsRevoked jwt token w))
