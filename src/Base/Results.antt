-- ===== src/Base/Results.antt =====
-- Promises as values: a call ends in a value or in an exception, and leaves a state behind.
use Prim.Native.String.{String}
use mathlib.Core.Path.{◌≡◌, refl}
use native.Mathlib.Omega.{arith}
use mathlib.Core.Bool.{Bool, true, false}
use mathlib.Core.Option.{Option, none, some}
use mathlib.Core.List.{List, [], ◌∷◌}

-- The exceptions of `@nestjs/common` that the code throws, and `failure` for any other error.
pub data Failure : Type 0 where
  unauthorized forbidden not_found conflict bad_request failure : String → Failure

pub data Result {ℓ} (A : Type ℓ) : Type ℓ where
  ok : A → Result A
  err : Failure → Result A

-- An async method over a state `S`. What was written before a throw stays written.
abbrev pub Action : Type 0 → Type 0 → Type 0
Action S A = S → Result A × S

module _ {S A : Type 0} where
  abbrev pub pure : A → Action S A
  pure a s = (ok a, s)

  abbrev pub throw : Failure → Action S A
  throw e s = (err e, s)

  -- a read of the state
  abbrev pub gets : (S → A) → Action S A
  gets f s = (ok (f s), s)

  -- `if (!o) throw e`, where what follows uses `o`
  abbrev pub or_throw : Option A → Failure → Action S A
  or_throw none e = throw e
  or_throw (some a) e = pure a

infixl 5 ◌>>=◌ ◌>>◌
abbrev pub ◌>>=◌ : {S A B : Type 0} → Action S A → (A → Action S B) → Action S B
◌>>=◌ m f s = let (r, s') = m s in elim r [ ok a ↦ f a s' | err e ↦ (err e, s') ]

abbrev pub ◌>>◌ : {S A B : Type 0} → Action S A → Action S B → Action S B
m >> k = m >>= λ _. k

-- `if (c) throw e`
abbrev pub throw_if : {S : Type 0} → Bool → Failure → Action S (Unit {0})
throw_if true e = throw e
throw_if false e = pure tt

-- A write of the state that cannot fail.
abbrev pub modify : {S : Type 0} → (S → S) → Action S (Unit {0})
modify f s = (ok tt, f s)

-- `Promise.all`; of several failures, the first of the list stands for the one that settles first.
abbrev pub all_of : {A : Type 0} → List (Result A) → Result (List A)
all_of [] = ok []
all_of (err e ∷ rs) = err e
all_of (ok a ∷ rs) = elim (all_of rs) [ ok as' ↦ ok (a ∷ as') | err e ↦ err e ]

pub ok-injective : {A : Type 0} (a b : A) → ok a ≡ ok b → a ≡ b
ok-injective a b h = cc

-- A successful sequence: its first part succeeded, and the rest went on from there.
pub >>=-eq-ok :
    {S A B : Type 0} (m : Action S A) (k : A → Action S B) (s : S) (b : B)
    → ((m >>= k) s).0 ≡ ok b
    → (a : A) × ((m s).0 ≡ ok a) × ((m >>= k) s ≡ k a (m s).1) × ((k a (m s).1).0 ≡ ok b)
>>=-eq-ok {S} {A} {B} m k s b = go (m s)
  where
    go :
        (out : Result A × S)
        → ((◌>>=◌ {S = S} (λ _. out) k) s).0 ≡ ok b
        → (a : A) × (out.0 ≡ ok a)
          × ((◌>>=◌ {S = S} (λ _. out) k) s ≡ k a out.1)
          × ((k a out.1).0 ≡ ok b)
    go (ok a, s') h = (a, refl, refl, h)
    go (err e, s') h = absurd (ground arith)

-- The same where the first part is a lookup that may throw.
pub or_throw_then :
    {S A B : Type 0} (o : Option A) (e : Failure) (k : A → Action S B) (s : S) (b : B)
    → ((or_throw o e >>= k) s).0 ≡ ok b
    → (a : A) × (o ≡ some a) × ((or_throw o e >>= k) s ≡ k a s) × ((k a s).0 ≡ ok b)
or_throw_then none e k s b h = absurd (ground arith)
or_throw_then (some a) e k s b h = (a, refl, refl, h)
