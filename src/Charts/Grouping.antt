-- ===== src/Charts/Grouping.antt =====
-- The groups after the loop over the points, by a description that looks at one period at a time.
use synkro.Base.{
  ℕ, Bool, true, false, ◌||◌, List, [], ◌∷◌, ◌≡◌, refl, ◌∙◌, arith, eqb, if◌then◌else◌, any_of,
  keep, Bool-cases, inl, inr,
}
use synkro.Charts.{Numbers, Point, Group, new_group, add_to, add_point, group_points}

module _ {N I : Type 0} (numbers : Numbers N) where
  -- The group of a period, which is empty where there is none.
  abbrev pub group_at : ℕ → List (Group N I) → Group N I
  group_at key [] = new_group numbers key
  group_at key (g ∷ gs) = if eqb g.period key then g else group_at key gs

  -- The point lies in the period.
  abbrev pub lies_in : (ℕ → ℕ) → ℕ → Point N I → Bool
  lies_in start key p = eqb (start p.timestamp) key

  -- The points of one period, added up in their order.
  abbrev pub add_all : Group N I → List (Point N I) → Group N I
  add_all g [] = g
  add_all g (p ∷ ps) = add_all (add_to numbers g p) ps

  abbrev pub group_of : (ℕ → ℕ) → ℕ → List (Point N I) → Group N I
  group_of start key points = add_all (new_group numbers key) (keep (lies_in start key) points)

  abbrev pub has_group : ℕ → List (Group N I) → Bool
  has_group key gs = any_of (λ g. eqb g.period key) gs

  abbrev pub DistinctPeriods : List (Group N I) → Type 0
  DistinctPeriods [] = Unit
  DistinctPeriods (g ∷ gs) = (has_group g.period gs ≡ false) × DistinctPeriods gs

  add_point-at :
      (key k : ℕ) (p : Point N I) (gs : List (Group N I))
      → group_at k (add_point numbers key p gs)
        ≡ (if eqb key k then add_to numbers (group_at k gs) p else group_at k gs)
  unfolding add_point
  add_point-at key k p [] = elim (Bool-cases (eqb key k)) [
    | inl same ↦ let e : key ≡ k = ground arith in rw (same, e) refl
    | inr other ↦ rw other refl
  ]
  add_point-at key k p (g ∷ gs) = elim (Bool-cases (eqb g.period key)) [
    | inl same ↦ elim (Bool-cases (eqb g.period k)) [
      | inl here ↦ let e : eqb key k ≡ true = ground arith in rw (same, here, e) refl
      | inr there ↦ let e : eqb key k ≡ false = ground arith in rw (same, there, e) refl
    ]
    | inr other ↦ elim (Bool-cases (eqb g.period k)) [
      | inl here ↦ let e : eqb key k ≡ false = ground arith in rw (other, here, e) refl
      | inr there ↦ rw (other, there) (add_point-at key k p gs)
    ]
  ]

  add_point-has :
      (key k : ℕ) (p : Point N I) (gs : List (Group N I))
      → has_group k (add_point numbers key p gs) ≡ (eqb key k || has_group k gs)
  unfolding add_point
  add_point-has key k p [] = refl
  add_point-has key k p (g ∷ gs) = ground (arith, add_point-has key k p gs)

  add_point-Distinct :
      (key : ℕ) (p : Point N I) (gs : List (Group N I))
      → DistinctPeriods gs
      → DistinctPeriods (add_point numbers key p gs)
  unfolding add_point
  add_point-Distinct key p [] d = (refl, tt)
  add_point-Distinct key p (g ∷ gs) (new, d) = elim (Bool-cases (eqb g.period key)) [
    | inl same ↦ rw same (new, d)
    | inr other ↦
        rw other
          (add_point-has key g.period p gs ∙ ground (arith, new), add_point-Distinct key p gs d)
  ]

  pub group_points-at :
      (start : ℕ → ℕ) (k : ℕ) (ps : List (Point N I)) (gs : List (Group N I))
      → group_at k (group_points numbers start ps gs)
        ≡ add_all (group_at k gs) (keep (lies_in start k) ps)
  unfolding group_points
  group_points-at start k [] gs = refl
  group_points-at start k (p ∷ ps) gs = elim (Bool-cases (eqb (start p.timestamp) k)) [
    | inl inside ↦
        let step : group_at k (add_point numbers (start p.timestamp) p gs)
            ≡ add_to numbers (group_at k gs) p =
          add_point-at (start p.timestamp) k p gs ∙ (rw inside refl) in
        group_points-at start k ps _ ∙ rw (step, inside) refl
    | inr outside ↦
        let step : group_at k (add_point numbers (start p.timestamp) p gs) ≡ group_at k gs =
          add_point-at (start p.timestamp) k p gs ∙ (rw outside refl) in
        group_points-at start k ps _ ∙ rw (step, outside) refl
  ]

  pub group_points-has :
      (start : ℕ → ℕ) (k : ℕ) (ps : List (Point N I)) (gs : List (Group N I))
      → has_group k (group_points numbers start ps gs)
        ≡ (has_group k gs || any_of (lies_in start k) ps)
  unfolding group_points
  group_points-has start k [] gs = ground arith
  group_points-has start k (p ∷ ps) gs = ground (
    arith,
    group_points-has start k ps (add_point numbers (start p.timestamp) p gs),
    add_point-has (start p.timestamp) k p gs,
  )

  pub group_points-Distinct :
      (start : ℕ → ℕ) (ps : List (Point N I)) (gs : List (Group N I))
      → DistinctPeriods gs
      → DistinctPeriods (group_points numbers start ps gs)
  unfolding group_points
  group_points-Distinct start [] gs d = d
  group_points-Distinct start (p ∷ ps) gs d =
      group_points-Distinct start ps _ (add_point-Distinct (start p.timestamp) p gs d)
