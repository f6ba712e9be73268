-- ===== src/Charts/Laws.antt =====
-- The rows of a chart over time.
use Prim.Native.Nat.{Ordering, compare}
use synkro.Base.{
  ℕ, ◌≤◌, template, String, Bool, true, false, List, [], ◌∷◌, map, ◌≡◌, refl, ap, ◌∙◌, subst, arith,
  eqb, if◌then◌else◌, any_of, keep, length, All, Bool-cases, inl, inr,
}
use synkro.Base.Sorting.{is_gt, insert, sort, Ordered, All-sort, sort-Ordered}
use synkro.Charts.{
  AggregationPeriod, hour, day, week, month, DateFns, Numbers, Point, Group, AggregatedDataPoint,
  group_points, row_of, compare_keys, aggregate_time_series,
}
use synkro.Charts.Grouping.{
  group_at, group_of, has_group, DistinctPeriods, group_points-at, group_points-has,
  group_points-Distinct,
}
use synkro.Charts.Rows.{IsRow, row_of-IsRow}

length-keep-insert :
    {A : Type 0} (compare : A → A → Ordering) (p : A → Bool) (x : A) (xs : List A)
    → length (keep p (insert compare x xs)) ≡ length (keep p (x ∷ xs))
length-keep-insert compare p x [] = refl
length-keep-insert compare p x (y ∷ ys) = elim (Bool-cases (is_gt (compare x y))) [
  | inl gt ↦ rw gt (ground (arith, length-keep-insert compare p x ys))
  | inr le ↦ rw le refl
]

length-keep-sort :
    {A : Type 0} (compare : A → A → Ordering) (p : A → Bool) (xs : List A)
    → length (keep p (sort compare xs)) ≡ length (keep p xs)
length-keep-sort compare p [] = refl
length-keep-sort compare p (x ∷ xs) =
    length-keep-insert compare p x (sort compare xs) ∙ ground (arith, length-keep-sort compare p xs)

module _ {N I : Type 0} (numbers : Numbers N) where
  -- A group in front, of another period, changes nothing.
  groups_behind :
      (g : Group N I) (gs xs : List (Group N I))
      → has_group numbers g.period xs ≡ false
      → All (λ x. x ≡ group_at numbers x.period gs) xs
      → All (λ x. x ≡ group_at numbers x.period (g ∷ gs)) xs
  groups_behind g gs [] new h = tt
  groups_behind g gs (x ∷ xs) new (e, h) =
      let other : eqb g.period x.period ≡ false = ground arith in
      (e ∙ (rw other refl), groups_behind g gs xs (ground arith) h)

  -- With distinct periods, each group is the group at its period.
  groups_at :
      (gs : List (Group N I))
      → DistinctPeriods numbers gs
      → All (λ g. g ≡ group_at numbers g.period gs) gs
  groups_at [] d = tt
  groups_at (g ∷ gs) (new, d) =
      let own : eqb g.period g.period ≡ true = ground arith in
      ((rw own refl), groups_behind g gs gs new (groups_at gs d))

  one_group :
      (k : ℕ) (gs : List (Group N I))
      → DistinctPeriods numbers gs
      → length (keep (λ g. eqb g.period k) gs) ≡ (if has_group numbers k gs then 1 else 0)
  one_group k [] d = refl
  one_group k (g ∷ gs) (new, d) = elim (Bool-cases (eqb g.period k)) [
    | inl same ↦
        let e : g.period ≡ k = ground arith in
        let none_left : has_group numbers k gs ≡ false =
          subst (λ n. has_group numbers n gs ≡ false) e new in
        let tail : length (keep (λ g'. eqb g'.period k) gs) ≡ 0 =
          one_group k gs d ∙ (rw none_left refl) in
        rw same (omega (arith, tail))
    | inr other ↦ rw other (one_group k gs d)
  ]

  rows-IsRow :
      (label : ℕ → String) (start : ℕ → ℕ) (points : List (Point N I)) (gs : List (Group N I))
      → All (λ g. g ≡ group_of numbers start g.period points) gs
      → All (IsRow numbers label start points) (map (row_of numbers label) gs)
  rows-IsRow label start points [] h = tt
  rows-IsRow label start points (g ∷ gs) (e, h) =
      (row_of-IsRow numbers label start points g e, rows-IsRow label start points gs h)

  each_group :
      (start : ℕ → ℕ) (points : List (Point N I)) (all gs : List (Group N I))
      → ((k : ℕ) → group_at numbers k all ≡ group_of numbers start k points)
      → All (λ g. g ≡ group_at numbers g.period all) gs
      → All (λ g. g ≡ group_of numbers start g.period points) gs
  each_group start points all [] h a = tt
  each_group start points all (g ∷ gs) h (e, a) =
      (e ∙ h g.period, each_group start points all gs h a)

  abbrev pub NotAfter : AggregatedDataPoint N I → AggregatedDataPoint N I → Type 0
  NotAfter a b = a.timestamp ≤ b.timestamp

  below-map :
      (label : ℕ → String) (g : Group N I) (gs : List (Group N I))
      → All (λ x. g.period ≤ x.period) gs
      → All (NotAfter (row_of numbers label g)) (map (row_of numbers label) gs)
  below-map label g [] h = tt
  below-map label g (x ∷ xs) (p, h) = (p, below-map label g xs h)

  Ordered-map :
      (label : ℕ → String) (gs : List (Group N I))
      → Ordered (λ a b. a.period ≤ b.period) gs
      → Ordered NotAfter (map (row_of numbers label) gs)
  Ordered-map label [] h = tt
  Ordered-map label (g ∷ gs) (p, h) = (below-map label g gs p, Ordered-map label gs h)

  length-keep-map :
      (label : ℕ → String) (k : ℕ) (gs : List (Group N I))
      → length (keep (λ r. eqb r.timestamp k) (map (row_of numbers label) gs))
        ≡ length (keep (λ g. eqb g.period k) gs)
  length-keep-map label k [] = refl
  length-keep-map label k (g ∷ gs) = ground (arith, length-keep-map label k gs)

  everything : (xs : List (Group N I)) → All (λ g. Unit {0}) xs
  everything [] = tt
  everything (x ∷ xs) = (tt, everything xs)

  sorted-Ordered :
      (gs : List (Group N I))
      → Ordered (λ a b. a.period ≤ b.period) (sort (compare_keys numbers) gs)
  sorted-Ordered gs =
      sort-Ordered (compare_keys numbers) (λ a b. a.period ≤ b.period) (λ g. Unit {0})
        (λ a b p q h. ground arith) (λ a b p q h. ground arith) (λ a b c p q r h k. omega arith) gs
        (everything gs)

  -- What is known of the rows of groups, whatever the periods and labels are.
  abbrev pub AreRows :
      (ℕ → String) → (ℕ → ℕ) → List (Point N I) → List (AggregatedDataPoint N I) → Type 0
  AreRows label start points rows =
      Ordered NotAfter rows
      × All (IsRow numbers label start points) rows
      × ((k : ℕ)
          → length (keep (λ r. eqb r.timestamp k) rows)
            ≡ (if any_of (λ p. eqb (start p.timestamp) k) points then 1 else 0))

  groups-AreRows :
      (label : ℕ → String) (start : ℕ → ℕ) (points : List (Point N I))
      → AreRows label start points (
          map
            (row_of numbers label)
            (sort (compare_keys numbers) (group_points numbers start points [])))
  groups-AreRows label start points =
      let groups : List (Group N I) = group_points numbers start points [] in
      let distinct = group_points-Distinct numbers start points [] tt in
      let each =
        each_group start points groups groups (λ k. group_points-at numbers start k points [])
          (groups_at groups distinct) in
      (
        Ordered-map label (sort (compare_keys numbers) groups) (sorted-Ordered groups),
        rows-IsRow label start points (sort (compare_keys numbers) groups)
            (All-sort (compare_keys numbers) _ groups each),
        λ k.
            length-keep-map label k (sort (compare_keys numbers) groups)
            ∙ length-keep-sort (compare_keys numbers) (λ g. eqb g.period k) groups
            ∙ one_group k groups distinct
            ∙ ap (λ b. if b then 1 else 0) (group_points-has numbers start k points []),
      )

-- The start of the period that a time lies in, and the text that names a period.
abbrev pub start_in : DateFns → AggregationPeriod → ℕ → ℕ
start_in dates hour = dates.start_of_hour
start_in dates day = dates.start_of_day
start_in dates week = dates.start_of_week
start_in dates month = dates.start_of_month

abbrev pub name_in : DateFns → AggregationPeriod → ℕ → String
name_in dates hour t = dates.format t "MMM dd HH:mm"
name_in dates day t = dates.format t "MMM dd yyyy"
name_in dates week t = template "Week of " (dates.format t "MMM dd yyyy") ""
name_in dates month t = dates.format t "MMM yyyy"

module _ {N I : Type 0} (numbers : Numbers N) where
  -- The rows come in the order of their times; a row has the sum, the number, the average and the items
  -- of exactly the points of its period, added up and listed in their order, and the name of the period
  -- (or its ISO time); and a time is that of one row if a point lies in the period that starts then,
  -- and of none otherwise. Periods start where `date-fns` says for the hour, day, week or month.
  pub aggregate-IsRow :
      (dates : DateFns) (period : AggregationPeriod) (labels : Bool) (points : List (Point N I))
      → AreRows numbers
          (if labels then name_in dates period else dates.to_iso_string)
          (start_in dates period)
          points
          (aggregate_time_series numbers dates period labels points)
  unfolding aggregate_time_series
  aggregate-IsRow dates hour false points = groups-AreRows numbers _ _ points
  aggregate-IsRow dates hour true points = groups-AreRows numbers _ _ points
  aggregate-IsRow dates day false points = groups-AreRows numbers _ _ points
  aggregate-IsRow dates day true points = groups-AreRows numbers _ _ points
  aggregate-IsRow dates week false points = groups-AreRows numbers _ _ points
  aggregate-IsRow dates week true points = groups-AreRows numbers _ _ points
  aggregate-IsRow dates month false points = groups-AreRows numbers _ _ points
  aggregate-IsRow dates month true points = groups-AreRows numbers _ _ points
