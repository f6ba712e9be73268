-- ===== src/Base/Sorting.antt =====
-- Sorting by a comparison, as `sort` of an array, and what it gives for an order that the comparison
-- decides.
use Prim.Native.Nat.{Ordering}
use mathlib.Core.Path.{◌≡◌}
use mathlib.Core.Logic.{inl, inr}
use mathlib.Core.Bool.{Bool, true, false}
use mathlib.Core.List.{List, [], ◌∷◌, Perm}
use mathlib.Core.List.Perm
use synkro.Base.Tests.{if◌then◌else◌, if-holds, Bool-cases}
use synkro.Base.Lists.{All}

abbrev pub is_gt : Ordering → Bool
is_gt Ordering.gt = true
is_gt _ = false

-- The language fixes the result of `sort` where the comparison is a total preorder: the order of the
-- comparison, where equal items stay in their order.
module _ {A : Type 0} (compare : A → A → Ordering) where
  abbrev pub insert : A → List A → List A
  insert x [] = x ∷ []
  insert x (y ∷ ys) = let rest = insert x ys in if is_gt (compare x y) then y ∷ rest else x ∷ y ∷ ys

  abbrev pub sort : List A → List A
  sort [] = []
  sort (x ∷ xs) = insert x (sort xs)

  insert-perm : (x : A) (xs : List A) → Perm (insert x xs) (x ∷ xs)
  insert-perm x [] = Perm.rfl
  insert-perm x (y ∷ ys) =
      if-holds (λ out. Perm out (x ∷ y ∷ ys)) (is_gt (compare x y)) _ _
        (Perm.trans (Perm.cons y (insert-perm x ys)) (Perm.swap x y ys)) Perm.rfl

  pub sort-perm : (xs : List A) → Perm (sort xs) xs
  sort-perm [] = Perm.rfl
  sort-perm (x ∷ xs) = Perm.trans (insert-perm x (sort xs)) (Perm.cons x (sort-perm xs))

  module _ {κ} (P : A → Type κ) where
    All-insert : (x : A) (xs : List A) → P x → All P xs → All P (insert x xs)
    All-insert x [] p h = (p, tt)
    All-insert x (y ∷ ys) p (q, h) =
        if-holds (All P) (is_gt (compare x y)) _ _ (q, All-insert x ys p h) (p, (q, h))

    pub All-sort : (xs : List A) → All P xs → All P (sort xs)
    All-sort [] h = tt
    All-sort (x ∷ xs) (p, h) = All-insert x (sort xs) p (All-sort xs h)

module _ {A : Type 0} (R : A → A → Type 0) where
  -- Each item is in the relation to all that follow it.
  abbrev pub Ordered : List A → Type 0
  Ordered [] = Unit
  Ordered (x ∷ xs) = All (R x) xs × Ordered xs

-- The comparison decides the relation `R` on the items with `P`, and `R` is transitive on them.
module _ {A : Type 0} (compare : A → A → Ordering) (R : A → A → Type 0) (P : A → Type 0)
    (after : (a b : A) → P a → P b → is_gt (compare a b) ≡ true → R b a)
    (before : (a b : A) → P a → P b → is_gt (compare a b) ≡ false → R a b)
    (trans : (a b c : A) → P a → P b → P c → R a b → R b c → R a c) where
  below_trans : (x y : A) (ys : List A) → P x → P y → All P ys → R x y → All (R y) ys → All (R x) ys
  below_trans x y [] p q hs r h = tt
  below_trans x y (z ∷ zs) p q (s, hs) r (t, h) =
      (trans x y z p q s r t, below_trans x y zs p q hs r h)

  insert-Ordered :
      (x : A) (xs : List A) → P x → All P xs → Ordered R xs → Ordered R (insert compare x xs)
  insert-Ordered x [] p h s = (tt, tt)
  insert-Ordered x (y ∷ ys) p (q, h) (below, s) = elim (Bool-cases (is_gt (compare x y))) [
    | inl gt ↦
        rw gt (All-insert compare (R y) x ys (after x y p q gt) below, insert-Ordered x ys p h s)
    | inr le ↦
        let r = before x y p q le in rw le ((r, below_trans x y ys p q h r below), (below, s))
  ]

  pub sort-Ordered : (xs : List A) → All P xs → Ordered R (sort compare xs)
  sort-Ordered [] h = tt
  sort-Ordered (x ∷ xs) (p, h) =
      insert-Ordered x (sort compare xs) p (All-sort compare P xs h) (sort-Ordered xs h)
