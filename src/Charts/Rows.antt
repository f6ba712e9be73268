-- ===== src/Charts/Rows.antt =====
-- One row of a chart over time, from the group of its period.
use synkro.Base.{
  ℕ, ◌+◌, ◌++◌, sym, append-nil, append_assoc, String, List, [], ◌∷◌, map, ◌≡◌, refl, ap, ◌∙◌,
  arith, eqb, keep, length,
}
use synkro.Charts.{Numbers, Point, Group, AggregatedDataPoint, new_group, add_to, row_of}
use synkro.Charts.Grouping.{add_all, lies_in, group_of}

module _ {N I : Type 0} (numbers : Numbers N) where
  abbrev pub sum_of : N → List (Point N I) → N
  sum_of n [] = n
  sum_of n (p ∷ ps) = sum_of (numbers.add n p.value) ps

  -- One row: the label of its time, and the sum, number, average and items of the points of its period.
  abbrev pub IsRow : (ℕ → String) → (ℕ → ℕ) → List (Point N I) → AggregatedDataPoint N I → Type 0
  IsRow label start points r =
      let ps = keep (λ p. eqb (start p.timestamp) r.timestamp) points in
      (r.period ≡ label r.timestamp)
      × (r.value ≡ sum_of numbers.none_yet ps)
      × (r.count ≡ length ps)
      × (r.average ≡ numbers.per (sum_of numbers.none_yet ps) (length ps))
      × (r.items ≡ map (λ p. p.original) ps)

  add_all-sum :
      (g : Group N I) (ps : List (Point N I)) → (add_all numbers g ps).sum ≡ sum_of g.sum ps
  add_all-sum g [] = refl
  add_all-sum g (p ∷ ps) = add_all-sum (add_to numbers g p) ps

  add_all-count :
      (g : Group N I) (ps : List (Point N I)) → (add_all numbers g ps).count ≡ g.count + length ps
  add_all-count g [] = omega arith
  add_all-count g (p ∷ ps) = omega (arith, add_all-count (add_to numbers g p) ps)

  add_all-items :
      (g : Group N I) (ps : List (Point N I))
      → (add_all numbers g ps).items ≡ g.items ++ map (λ p. p.original) ps
  add_all-items g [] = sym (append-nil g.items)
  add_all-items g (p ∷ ps) =
      add_all-items (add_to numbers g p) ps ∙ append_assoc g.items (p.original ∷ []) _

  add_all-period :
      (g : Group N I) (ps : List (Point N I)) → (add_all numbers g ps).period ≡ g.period
  add_all-period g [] = refl
  add_all-period g (p ∷ ps) = add_all-period (add_to numbers g p) ps

  pub row_of-IsRow :
      (label : ℕ → String) (start : ℕ → ℕ) (points : List (Point N I)) (g : Group N I)
      → g ≡ group_of numbers start g.period points
      → IsRow label start points (row_of numbers label g)
  row_of-IsRow label start points g e =
      let ps = keep (lies_in numbers start g.period) points in
      let new : Group N I = new_group numbers g.period in
      let total : g.sum ≡ sum_of numbers.none_yet ps =
        ap (λ (h : Group N I). h.sum) e ∙ add_all-sum new ps in
      let number : g.count ≡ length ps =
        ap (λ (h : Group N I). h.count) e ∙ add_all-count new ps ∙ omega arith in
      (
        refl,
        total,
        number,
        (λ i. numbers.per (total i) (number i)),
        ap (λ (h : Group N I). h.items) e ∙ add_all-items new ps,
      )
