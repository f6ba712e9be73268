-- ===== src/Base/Lists.antt =====
-- Lists as JavaScript arrays and sets: length, `filter`, `includes`, `every`, `find`.
use Prim.Native.Nat.{ℕ, zero, suc, ◌+◌, ◌≤◌}
use Prim.Native.String.{String}
use mathlib.Core.Path.{◌≡◌, refl, sym, ap, ◌∙◌}
use mathlib.Core.Logic.{inl, inr}
use mathlib.Core.Bool.{Bool, true, false, ◌&&◌, ◌||◌}
use mathlib.Core.Option.{Option, none, some}
use mathlib.Core.List.{List, [], ◌∷◌, ◌++◌}
use native.Mathlib.Omega.{arith}
use text.Mathlib.TextEquality.{eq_iff}
use synkro.Base.Tests.{◌==◌, if◌then◌else◌, Bool-cases, if-holds}

module _ {ℓ} {A : Type ℓ} where
  abbrev pub length : List A → ℕ
  length [] = 0
  length (x ∷ xs) = suc (length xs)

  -- `xs.filter(p)`
  abbrev pub keep : (A → Bool) → List A → List A
  keep p [] = []
  keep p (x ∷ xs) = let rest = keep p xs in if p x then x ∷ rest else rest

  -- `xs.every(p)`
  abbrev pub every : (A → Bool) → List A → Bool
  every p [] = true
  every p (x ∷ xs) = p x && every p xs

  -- `xs.some(p)`
  abbrev pub any_of : (A → Bool) → List A → Bool
  any_of p [] = false
  any_of p (x ∷ xs) = p x || any_of p xs

  -- `xs.find(p)`
  abbrev pub find : (A → Bool) → List A → Option A
  find p [] = none
  find p (x ∷ xs) = if p x then some x else find p xs

  -- `xs[n]`
  abbrev pub get_elem? : List A → ℕ → Option A
  get_elem? [] n = none
  get_elem? (x ∷ xs) zero = some x
  get_elem? (x ∷ xs) (suc n) = get_elem? xs n

  pub length-append : (xs ys : List A) → length (xs ++ ys) ≡ length xs + length ys
  length-append [] ys = omega arith
  length-append (x ∷ xs) ys = omega (arith, length-append xs ys)

  pub length-keep : (p : A → Bool) (xs : List A) → length (keep p xs) ≤ length xs
  length-keep p [] = omega arith
  length-keep p (x ∷ xs) = ground (arith, length-keep p xs)

  -- What a filtered list holds passes the test.
  pub get_elem?-keep :
      (p : A → Bool) (xs : List A) (n : ℕ) (a : A) → get_elem? (keep p xs) n ≡ some a → p a ≡ true
  get_elem?-keep p [] n a h = absurd (ground arith)
  get_elem?-keep p (x ∷ xs) n a h = elim (Bool-cases (p x)) [
    | inl good ↦ go good (λ m. get_elem?-keep p xs m a) n (sym (rw good refl) ∙ h)
    | inr bad ↦ get_elem?-keep p xs n a (sym (rw bad refl) ∙ h)
  ]
    where
      go :
          p x ≡ true
          → ((m : ℕ) → get_elem? (keep p xs) m ≡ some a → p a ≡ true)
          → (m : ℕ) → get_elem? (x ∷ keep p xs) m ≡ some a
          → p a ≡ true
      go good rest zero e = let same : x ≡ a = cc in sym (ap p same) ∙ good
      go good rest (suc m) e = rest m e

module _ {ℓ κ} {A : Type ℓ} (P : A → Type κ) where
  abbrev pub All : List A → Type κ
  All [] = Unit
  All (x ∷ xs) = P x × All xs

  pub All-keep : (p : A → Bool) (xs : List A) → All xs → All (keep p xs)
  All-keep p [] h = tt
  All-keep p (x ∷ xs) (q, h) = if-holds All (p x) _ _ (q, All-keep p xs h) (All-keep p xs h)

  pub All-append : (xs ys : List A) → All xs → All ys → All (xs ++ ys)
  All-append [] ys h k = k
  All-append (x ∷ xs) ys (p, h) k = (p, All-append xs ys h k)

-- `xs.includes(s)`, `set.has(s)`
abbrev pub includes : String → List String → Bool
includes s [] = false
includes s (x ∷ xs) = (x == s) || includes s xs

-- No text is listed twice.
abbrev pub Distinct : List String → Type 0
Distinct [] = Unit
Distinct (x ∷ xs) = (includes x xs ≡ false) × Distinct xs

pub includes-append :
    (s : String) (xs ys : List String) → includes s (xs ++ ys) ≡ (includes s xs || includes s ys)
includes-append s [] ys = refl
includes-append s (x ∷ xs) ys = ground (arith, includes-append s xs ys)

pub Distinct-concat :
    (xs : List String) (s : String) → Distinct xs → includes s xs ≡ false → Distinct (xs ++ s ∷ [])
Distinct-concat [] s d h = (refl, tt)
Distinct-concat (x ∷ xs) s d h =
    ground (arith, Distinct-concat xs s d.1, includes-append x xs (s ∷ []), eq_iff s x, eq_iff x s)

-- A filtered list holds what the list holds and the test accepts.
pub includes-keep :
    (p : String → Bool) (s : String) (xs : List String)
    → includes s (keep p xs) ≡ (includes s xs && p s)
includes-keep p s [] = refl
includes-keep p s (x ∷ xs) = elim (Bool-cases (x == s)) [
  | inl same ↦ let e = (eq_iff x s).0 same in ground (arith, includes-keep p s xs, ap p e)
  | inr other ↦ ground (arith, includes-keep p s xs)
]

pub keep-Distinct : (p : String → Bool) (xs : List String) → Distinct xs → Distinct (keep p xs)
keep-Distinct p [] d = tt
keep-Distinct p (x ∷ xs) d = ground (arith, keep-Distinct p xs d.1, includes-keep p x xs)
