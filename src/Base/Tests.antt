-- ===== src/Base/Tests.antt =====
-- Boolean tests as JavaScript makes them: `===` on numbers and texts, and truthiness.
use Prim.Native.Nat.{ℕ, compare, Ordering}
use Prim.Native.String
use Prim.Native.String.{String}
use mathlib.Core.Path.{◌≡◌, refl}
use mathlib.Core.Logic.{◌⊎◌, inl, inr}
use mathlib.Core.Bool.{Bool, true, false, not}
use mathlib.Core.Option.{Option, none, some}
use text.Mathlib.Text.{◌==◌ as text_eq}
use text.Mathlib.TextPositions.{eq_refl}

abbrev pub ltb : ℕ → ℕ → Bool
ltb a b = elim (compare a b) [ Ordering.lt ↦ true | _ ↦ false ]

abbrev pub leb : ℕ → ℕ → Bool
leb a b = elim (compare a b) [ Ordering.gt ↦ false | _ ↦ true ]

abbrev pub eqb : ℕ → ℕ → Bool
eqb a b = elim (compare a b) [ Ordering.eq ↦ true | _ ↦ false ]

-- `s === t` on texts
infix 50 ◌==◌
abbrev pub ◌==◌ : String → String → Bool
s == t = text_eq s t

pub ==_refl : (s : String) → (s == s) ≡ true
==_refl s = eq_refl s

infix 1 if◌then◌else◌
abbrev pub if◌then◌else◌ {ℓ} : {A : Type ℓ} → Bool → A → A → A
if true then x else y = x
if false then x else y = y

-- `!!s` on a text: only the empty one is falsy
abbrev pub truthy : String → Bool
truthy s = not (s == "")

-- `!!o` on an object that may be missing
abbrev pub is_some {ℓ} : {A : Type ℓ} → Option A → Bool
is_some none = false
is_some (some a) = true

-- `!!s` on a text that may be missing
abbrev pub given : Option String → Bool
given none = false
given (some s) = truthy s

-- `o ?? d`
abbrev pub or_else {ℓ} : {A : Type ℓ} → Option A → A → A
or_else none d = d
or_else (some a) d = a

-- `o ?? p` where `p` may be missing too
abbrev pub or_other {ℓ} : {A : Type ℓ} → Option A → Option A → Option A
or_other none p = p
or_other (some a) p = some a

pub Bool-cases : (b : Bool) → (b ≡ true) ⊎ (b ≡ false)
Bool-cases true = inl refl
Bool-cases false = inr refl

pub Option-cases {ℓ} : {A : Type ℓ} (o : Option A) → (o ≡ none) ⊎ ((a : A) × (o ≡ some a))
Option-cases none = inl refl
Option-cases (some a) = inr (a, refl)

-- the template `${a}${b}${c}`
abbrev pub template : String → String → String → String
template a b c = String.◌++◌ a (String.◌++◌ b c)

-- What holds of both branches holds of the test.
pub if-holds {ℓ κ} :
    {A : Type ℓ} (P : A → Type κ) (b : Bool) (x y : A) → P x → P y → P (if b then x else y)
if-holds P true x y p q = p
if-holds P false x y p q = q

pub if-splits :
    {A : Type 0} (P : A → Type 0) (b : Bool) (x y : A)
    → (b ≡ true → P x)
    → (b ≡ false → P y)
    → P (if b then x else y)
if-splits P true x y p q = p refl
if-splits P false x y p q = q refl

-- What holds in both cases of an option holds of the case split.
pub elim-holds :
    {A B : Type 0} (P : B → Type 0) (o : Option A) (d : B) (f : A → B)
    → P d
    → ((a : A) → o ≡ some a → P (f a))
    → P (elim o [ none ↦ d | some a ↦ f a ])
elim-holds P none d f p q = p
elim-holds P (some a) d f p q = q a refl

pub elim-splits :
    {A B : Type 0} (P : B → Type 0) (o : Option A) (d : B) (f : A → B)
    → (o ≡ none → P d)
    → ((a : A) → o ≡ some a → P (f a))
    → P (elim o [ none ↦ d | some a ↦ f a ])
elim-splits P none d f p q = p refl
elim-splits P (some a) d f p q = q a refl
