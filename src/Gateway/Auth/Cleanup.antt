-- ===== src/Gateway/Auth/Cleanup.antt =====
-- What `cleanupInvalidatedTokens` and `invalidateToken` make of the set of invalidated tokens.
use synkro.Base.{
  ℕ, String, Bool, true, false, not, ◌&&◌, ◌||◌, none, List, [], ◌∷◌, ◌++◌, ◌≡◌, ◌≢◌, refl, sym,
  ◌∙◌, inl, inr, arith, ◌==◌, eq_iff, ==_refl, is_some, keep, includes, includes-append,
  includes-keep, All, Distinct, Distinct-concat, keep-Distinct, if◌then◌else◌, Bool-cases,
}
use synkro.Gateway.Tokens.{is_valid_token_format}
use synkro.Gateway.Auth.{
  Jwt, delete, sweep, sweep_all, cleanup_invalidated_tokens, invalidate_token,
}

module _ (jwt : Jwt) where
  -- A token worth remembering: well formed, and it still verifies.
  abbrev pub is_live : ℕ → String → Bool
  is_live now token = is_valid_token_format token && is_some (jwt.verify now token)

  sweep_lem :
      (now : ℕ) (token : String) (set : List String)
      → sweep jwt now token set ≡ (if is_live now token then set else delete token set)
  sweep_lem now token set = ground arith

keep_cong :
    (p q : String → Bool) (xs : List String) → All (λ x. p x ≡ q x) xs → keep p xs ≡ keep q xs
keep_cong p q [] h = refl
keep_cong p q (x ∷ xs) h = rw (h.0, keep_cong p q xs h.1)

keep-keep :
    (p q : String → Bool) (xs : List String) → keep p (keep q xs) ≡ keep (λ x. q x && p x) xs
keep-keep p q [] = refl
keep-keep p q (x ∷ xs) = ground (arith, keep-keep p q xs)

keep_every : (p : String → Bool) (xs : List String) → All (λ x. p x ≡ true) xs → keep p xs ≡ xs
keep_every p [] h = refl
keep_every p (x ∷ xs) h = rw (h.0, keep_every p xs h.1)

All-of {ℓ} : (P : String → Type ℓ) (xs : List String) → ((x : String) → P x) → All P xs
All-of P [] h = tt
All-of P (x ∷ xs) h = (h x, All-of P xs h)

All-map {ℓ κ} :
    (P : String → Type ℓ) (Q : String → Type κ) (xs : List String)
    → ((x : String) → P x → Q x)
    → All P xs
    → All Q xs
All-map P Q [] f h = tt
All-map P Q (x ∷ xs) f (p, h) = (f x p, All-map P Q xs f h)

-- A list includes each of its elements.
All-includes : (xs : List String) → All (λ x. includes x xs ≡ true) xs
All-includes [] = tt
All-includes (x ∷ xs) = (
  ground (arith, ==_refl x),
  All-map (λ y. includes y xs ≡ true) (λ y. includes y (x ∷ xs) ≡ true) xs (λ y h. ground arith)
      (All-includes xs),
)

module _ (jwt : Jwt) where
  -- The loop keeps the live tokens, and those that it does not come to.
  sweep_all-eq-keep :
      (now : ℕ) (xs set : List String)
      → sweep_all jwt now xs set ≡ keep (λ t. is_live jwt now t || not (includes t xs)) set
  unfolding sweep_all
  sweep_all-eq-keep now [] set = sym (keep_every _ set (All-of _ set (λ t. ground arith)))
  sweep_all-eq-keep now (x ∷ xs) set = elim (Bool-cases (is_live jwt now x)) [
    | inl live ↦
        rw (sweep_lem jwt now x set, live)
          (sweep_all-eq-keep now xs set ∙ keep_cong _ _ set (All-of _ set (kept x xs live)))
    | inr dead ↦
        rw (sweep_lem jwt now x set, dead)
          (sweep_all-eq-keep now xs (delete x set)
            ∙ keep-keep _ _ set
            ∙ keep_cong _ _ set (All-of _ set (dropped x xs dead)))
  ]
    where
      kept :
          (x : String) (xs : List String)
          → is_live jwt now x ≡ true
          → (y : String)
          → (is_live jwt now y || not (includes y xs))
            ≡ (is_live jwt now y || not ((x == y) || includes y xs))
      kept x xs live y = elim (Bool-cases (x == y)) [
        | inl same ↦ rw (← (eq_iff x y).0 same, live)
        | inr other ↦ rw other
      ]

      dropped :
          (x : String) (xs : List String)
          → is_live jwt now x ≡ false
          → (y : String)
          → (not (y == x) && (is_live jwt now y || not (includes y xs)))
            ≡ (is_live jwt now y || not ((x == y) || includes y xs))
      dropped x xs dead y = elim (Bool-cases (x == y)) [
        | inl same ↦ rw (← (eq_iff x y).0 same, dead, ==_refl x)
        | inr other ↦ ground (arith, eq_iff x y, eq_iff y x)
      ]

  -- The loop that deletes from the set while it runs over it leaves exactly the live tokens, in
  -- their order.
  pub cleanup-eq-keep :
      (now : ℕ) (set : List String)
      → cleanup_invalidated_tokens jwt now set ≡ keep (is_live jwt now) set
  unfolding cleanup_invalidated_tokens
  cleanup-eq-keep now set =
      sweep_all-eq-keep now set set
      ∙ keep_cong _ (is_live jwt now) set
          (All-map _ _ set (λ t h. rw h (ground arith)) (All-includes set))

  -- `invalidateToken` answers whether the token was a text at all. Afterwards the set holds a token
  -- that is live and was held, or is the one invalidated; if that one was held already, nothing was
  -- cleaned up.
  pub includes-invalidate :
      (now : ℕ) (token : String) (set : List String) (t : String)
      → includes token set ≡ false
      → token ≢ ""
      → ((invalidate_token jwt now token set).0 ≡ true)
        × (includes t (invalidate_token jwt now token set).1
            ≡ ((includes t set || (token == t)) && is_live jwt now t))
  unfolding invalidate_token
  includes-invalidate now token set t new ne = (
    ground (arith, eq_iff token ""),
    elim (Bool-cases (token == "")) [
      | inl empty ↦ absurd (ne ((eq_iff token "").0 empty))
      | inr given ↦
          rw (given, new, cleanup-eq-keep now (set ++ token ∷ []), includes-keep, includes-append)
            (ground arith)
    ],
  )

  -- The comment in `invalidateToken` says that a token that cannot be verified stays in the set. It
  -- does not: the clean-up at the end of the same call removes it.
  pub invalidate-dead :
      (now : ℕ) (token : String) (set : List String)
      → jwt.verify now token ≡ none
      → includes token set ≡ false
      → includes token (invalidate_token jwt now token set).1 ≡ false
  unfolding invalidate_token
  invalidate-dead now token set dead new = elim (Bool-cases (token == "")) [
    | inl empty ↦ ground arith
    | inr given ↦
        rw ((includes-invalidate now token set token new (λ e. ground (arith, eq_iff token ""))).1)
          (ground arith)
  ]

  -- The set lists no token twice.
  pub invalidate-Distinct :
      (now : ℕ) (token : String) (set : List String)
      → Distinct set
      → Distinct (invalidate_token jwt now token set).1
  unfolding invalidate_token
  invalidate-Distinct now token set d = elim (Bool-cases (includes token set)) [
    | inl old ↦ ground arith
    | inr new ↦ ground (
      arith,
      cleanup-eq-keep now (set ++ token ∷ []),
      keep-Distinct (is_live jwt now) (set ++ token ∷ []) (Distinct-concat set token d new),
    )
  ]
