-- ===== src/Widgets/Table/Order.antt =====
-- The order of the rows of the table.
use Prim.Native.Nat.{Ordering}
use mathlib.Core.List.{Perm}
use synkro.Base.{
  String, Bool, true, false, not, ◌≢◌, some, List, ◌≡◌, refl, ap, ◌∙◌, subst, ◌⊎◌, inl, inr, arith,
  eq_iff, truthy, All, Bool-cases,
}
use synkro.Base.Sorting.{is_gt, Ordered, sort-perm, sort-Ordered}
use synkro.Widgets.Table.{
  Value, undefined, null, boolean, number, text, object, strict_equals, is_missing, Builtins,
  Direction, asc, desc, Table, get_nested_value, compare_values, compare_rows, sorted_data,
}

-- The values of a column, those that `kind` accepts: `>` is a strict linear order on them.
pub record Column (js : Builtins) (kind : Value → Bool) : Type 0 where
  pub present : (a : Value) → kind a ≡ true → is_missing a ≡ false
  pub same : (a b : Value) → kind a ≡ true → kind b ≡ true → strict_equals a b ≡ true → a ≡ b
  pub irreflexive : (a : Value) → kind a ≡ true → js.greater a a ≡ false
  pub asymmetric :
      (a b : Value) → kind a ≡ true → kind b ≡ true → js.greater a b ≡ true → js.greater b a ≡ false
  pub total :
      (a b : Value)
      → kind a ≡ true
      → kind b ≡ true
      → strict_equals a b ≡ false
      → js.greater a b ≡ false
      → js.greater b a ≡ true
  pub transitive :
      (a b c : Value)
      → kind a ≡ true
      → kind b ≡ true
      → kind c ≡ true
      → js.greater a b ≡ true
      → js.greater b c ≡ true
      → js.greater a c ≡ true

missing-equals : (a : Value) → is_missing a ≡ true → strict_equals a a ≡ true
missing-equals undefined h = refl
missing-equals null h = refl
missing-equals (boolean b) h = absurd (ground arith)
missing-equals (number n) h = absurd (ground arith)
missing-equals (text s) h = absurd (ground arith)
missing-equals (object i f) h = absurd (ground arith)

missing-differs :
    (a b : Value)
    → is_missing a ≡ true
    → is_missing b ≡ false
    → (strict_equals a b ≡ false) × (strict_equals b a ≡ false)
missing-differs undefined b h k = ground arith
missing-differs null b h k = ground arith
missing-differs (boolean b) c h k = absurd (ground arith)
missing-differs (number n) c h k = absurd (ground arith)
missing-differs (text s) c h k = absurd (ground arith)
missing-differs (object i f) c h k = absurd (ground arith)

module _ (js : Builtins) where
  -- `a` does not come after `b`: present values in the direction's order, missing values at the end.
  abbrev pub IsBefore : Direction → Value → Value → Type 0
  IsBefore asc a b = (is_missing b ≡ true) ⊎ ((is_missing a ≡ false) × (js.greater a b ≡ false))
  IsBefore desc a b = (is_missing b ≡ true) ⊎ ((is_missing a ≡ false) × (js.greater b a ≡ false))

  IsBefore-missing : (d : Direction) (a b : Value) → is_missing b ≡ true → IsBefore d a b
  IsBefore-missing asc a b m = inl m
  IsBefore-missing desc a b m = inl m

-- A value of the column, or the one kind of missing value in it.
abbrev pub IsCell : (Value → Bool) → Value → Value → Type 0
IsCell kind gap a = (kind a ≡ true) ⊎ (a ≡ gap)

module _ (js : Builtins) (kind : Value → Bool) (column : Column js kind) where
  compare-missing :
      (d : Direction) (a b : Value)
      → is_missing a ≡ true
      → is_missing b ≡ false
      → (compare_values js d a b ≡ Ordering.gt) × (compare_values js d b a ≡ Ordering.lt)
  unfolding compare_values
  compare-missing d a b h k =
      let (e, f) = missing-differs a b h k in (rw (e, h) refl, rw (f, k, h) refl)

  -- Two values of the column are equal, or one is greater than the other.
  compare-kinds :
      (a b : Value)
      → kind a ≡ true
      → kind b ≡ true
      → ((strict_equals a b ≡ true) × (js.greater a b ≡ false) × (js.greater b a ≡ false))
        ⊎ ((strict_equals a b ≡ false) × (js.greater a b ≡ not (js.greater b a)))
  compare-kinds a b h k = elim (Bool-cases (strict_equals a b)) [
    | inl e ↦
        let same = column.same a b h k e in
        let never = column.irreflexive a h in
        inl (
          e,
          subst (λ c. js.greater a c ≡ false) same never,
          subst (λ c. js.greater c a ≡ false) same never,
        )
    | inr e ↦ elim (Bool-cases (js.greater a b)) [
      | inl gt ↦ inr (e, ground (arith, column.asymmetric a b h k gt))
      | inr le ↦ inr (e, ground (arith, column.total a b h k e le))
    ]
  ]

  compare-present :
      (d : Direction) (a b : Value)
      → kind a ≡ true
      → kind b ≡ true
      → (is_gt (compare_values js d a b) ≡ true → IsBefore js d b a)
        × (is_gt (compare_values js d a b) ≡ false → IsBefore js d a b)
  unfolding compare_values
  compare-present asc a b h k =
      ground (arith, compare-kinds a b h k, column.present a h, column.present b k)
  compare-present desc a b h k =
      ground (arith, compare-kinds a b h k, column.present a h, column.present b k)

  not_greater_trans :
      (a b c : Value)
      → kind a ≡ true
      → kind b ≡ true
      → kind c ≡ true
      → js.greater a b ≡ false
      → js.greater b c ≡ false
      → js.greater a c ≡ false
  not_greater_trans a b c p q r h k = elim (Bool-cases (js.greater a c)) [
    | inr le ↦ le
    | inl gt ↦ elim (Bool-cases (strict_equals a b)) [
      | inl e ↦ let same = column.same a b p q e in absurd (cc)
      | inr e ↦ absurd (ground (arith, column.transitive b a c q p r (column.total a b p q e h) gt))
    ]
  ]

  cell-kind :
      (gap a : Value)
      → is_missing gap ≡ true
      → IsCell kind gap a
      → is_missing a ≡ false
      → kind a ≡ true
  cell-kind gap a g (inl k) p = k
  cell-kind gap a g (inr e) p = absurd (ground (arith, ap is_missing e))

  IsBefore-trans :
      (gap : Value) (d : Direction) (a b c : Value)
      → is_missing gap ≡ true
      → IsCell kind gap a
      → IsCell kind gap b
      → IsCell kind gap c
      → IsBefore js d a b
      → IsBefore js d b c
      → IsBefore js d a c
  IsBefore-trans gap d a b c g p q (inr e) h k = IsBefore-missing js d a c (ap is_missing e ∙ g)
  IsBefore-trans gap asc a b c g p q (inl r) h (inl m) = inl m
  IsBefore-trans gap asc a b c g p q (inl r) (inl m) (inr (n, k)) = absurd (ground arith)
  IsBefore-trans gap asc a b c g p q (inl r) (inr (m, h)) (inr (n, k)) =
      inr (m, not_greater_trans a b c (cell-kind gap a g p m) (cell-kind gap b g q n) r h k)
  IsBefore-trans gap desc a b c g p q (inl r) h (inl m) = inl m
  IsBefore-trans gap desc a b c g p q (inl r) (inl m) (inr (n, k)) = absurd (ground arith)
  IsBefore-trans gap desc a b c g p q (inl r) (inr (m, h)) (inr (n, k)) =
      inr (m, not_greater_trans c b a r (cell-kind gap b g q n) (cell-kind gap a g p m) k h)

  compare-cells :
      (gap : Value) (d : Direction) (a b : Value)
      → is_missing gap ≡ true
      → IsCell kind gap a
      → IsCell kind gap b
      → (is_gt (compare_values js d a b) ≡ true → IsBefore js d b a)
        × (is_gt (compare_values js d a b) ≡ false → IsBefore js d a b)
  compare-cells gap d a b g (inl p) (inl q) = compare-present d a b p q
  compare-cells gap d a b g (inl p) (inr e) =
      let m = ap is_missing e ∙ g in
      let (_, lt) = compare-missing d b a m (column.present a p) in
      (λ gt. absurd (ground arith), λ le. IsBefore-missing js d a b m)
  compare-cells gap d a b g (inr e) (inr f) = (
    λ gt. IsBefore-missing js d b a (ap is_missing e ∙ g),
    λ le. IsBefore-missing js d a b (ap is_missing f ∙ g),
  )
  compare-cells gap d a b g (inr e) (inl q) =
      let m = ap is_missing e ∙ g in
      let (gt, _) = compare-missing d a b m (column.present b q) in
      (λ yes_gt. IsBefore-missing js d b a m, λ le. absurd (ground arith))

  -- Where a column holds values that `>` orders linearly and missing values of one kind only, the
  -- table shows all its rows, each as often as it is given, in the order of the chosen direction,
  -- with the rows that have no value in the column after the others in both directions.
  pub sorted_data-Ordered :
      (rows : List Value) (t : Table) (path : String) (gap : Value)
      → t.sort_field ≡ some path
      → path ≢ ""
      → is_missing gap ≡ true
      → All (λ row. IsCell kind gap (get_nested_value js row path)) rows
      → Perm (sorted_data js rows t) rows
        × Ordered
            (λ a b.
              IsBefore js t.sort_direction
                (get_nested_value js a path)
                (get_nested_value js b path))
            (sorted_data js rows t)
  unfolding sorted_data compare_rows
  sorted_data-Ordered rows t path gap chosen named g cells =
      let d = t.sort_direction in
      let value : Value → Value = λ row. get_nested_value js row path in
      let given : truthy path ≡ true = ground (arith, eq_iff path "") in
      rw (chosen, given)
        (
          sort-perm (compare_rows js path d) rows,
          sort-Ordered (compare_rows js path d) (λ a b. IsBefore js d (value a) (value b))
              (λ row. IsCell kind gap (value row))
              (λ a b p q. (compare-cells gap d (value a) (value b) g p q).0)
              (λ a b p q. (compare-cells gap d (value a) (value b) g p q).1)
              (λ a b c p q r. IsBefore-trans gap d (value a) (value b) (value c) g p q r) rows
              cells,
        )
