-- ===== src/Analytics/Service/Formatting.antt =====
-- `formatChartData` of frontend-dashboard/src/utils/helpers.ts: the rows get new names of fields, and the
-- metadata keeps the old ones.
use synkro.Base.{
  String, true, false, Option, none, some, List, [], ◌∷◌, map, ◌≡◌, ◌≢◌, refl, sym, ◌∙◌, ap, subst,
  ◌==◌, eq_iff, arith, truthy, Result, ok, ok-injective, All,
}
use synkro.Analytics.Values.{
  Value, null, boolean, number, text, array, object, Items, Fields, BuiltIns, ◌>>=◌, property,
  get_field, opt_field, list_of, end, arr, chart,
}
use synkro.Analytics.Validation.Laws.{>>=-inv}
use synkro.Analytics.Service.{
  pick, format_rows, formatted, format_items, two_names, format_chart_data,
}
use synkro.Charts.Volume.{field_name}

abbrev row : {N : Type 0} → Option (Value N) → Option (Value N) → Fields N
row o p = opt_field "x" o (opt_field "y" p end)

module _ {N : Type 0} where
  row-x : (o p : Option (Value N)) → get_field "x" (row o p) ≡ o
  unfolding get_field
  row-x none none = refl
  row-x none (some v) = refl
  row-x (some u) none = refl
  row-x (some u) (some v) = refl

  row-other :
      (name : String) (o p : Option (Value N))
      → ("x" == name) ≡ false
      → ("y" == name) ≡ false
      → get_field name (row o p) ≡ none
  unfolding get_field
  row-other name none none x y = refl
  row-other name none (some v) x y = rw y refl
  row-other name (some u) none x y = rw x refl
  row-other name (some u) (some v) x y = rw (x, y) refl

  pick-row :
      (s t : String) (v : Value N) (fs : Fields N)
      → pick (("x", s) ∷ ("y", t) ∷ []) v ≡ ok fs
      → row (property s v) (property t v) ≡ fs
  pick-row s t null fs h = absurd (ground arith)
  pick-row s t (boolean b) fs h = ok-injective _ fs h
  pick-row s t (number n) fs h = ok-injective _ fs h
  pick-row s t (text c) fs h = ok-injective _ fs h
  pick-row s t (array vs) fs h = ok-injective _ fs h
  pick-row s t (object gs) fs h = ok-injective _ fs h

  -- What the rows hold: the values of the named field as `x`, and nothing under its old name.
  abbrev pub AreRenamed : String → List (Value N) → List (Value N) → Type 0
  AreRenamed s vs rows =
      (map (property "x") rows ≡ map (property s) vs) × All (λ r. property s r ≡ none) rows

  format_rows-AreRenamed :
      (s t : String) (vs rows : List (Value N))
      → s ≢ "x"
      → s ≢ "y"
      → format_rows (("x", s) ∷ ("y", t) ∷ []) vs ≡ ok rows
      → AreRenamed s vs rows
  format_rows-AreRenamed s t [] rows nx ny h =
      subst (AreRenamed s []) (ok-injective [] rows h) (refl, tt)
  format_rows-AreRenamed s t (v ∷ vs) rows nx ny h =
      let (fs, e, f) =
        >>=-inv (pick (("x", s) ∷ ("y", t) ∷ []) v)
          (λ fs. format_rows (("x", s) ∷ ("y", t) ∷ []) vs >>= λ rest. ok (object fs ∷ rest)) rows
          h in
      let (rest, g, k) =
        >>=-inv (format_rows (("x", s) ∷ ("y", t) ∷ []) vs) (λ rest. ok (object fs ∷ rest)) rows
          f in
      let (same, gone) = format_rows-AreRenamed s t vs rest nx ny g in
      let own = pick-row s t v fs e in
      let x : ("x" == s) ≡ false = ground (arith, eq_iff "x" s) in
      let y : ("y" == s) ≡ false = ground (arith, eq_iff "y" s) in
      subst (AreRenamed s (v ∷ vs)) (ok-injective (object fs ∷ rest) rows k) (
        cons-eq (ap (get_field "x") (sym own) ∙ row-x (property s v) (property t v)) same,
        (ap (get_field s) (sym own) ∙ row-other s (property s v) (property t v) x y, gone),
      )
    where
      cons-eq :
          {o p : Option (Value N)} {os ps : List (Option (Value N))}
          → o ≡ p
          → os ≡ ps
          → (o ∷ os) ≡ (p ∷ ps)
      cons-eq e f = cc

module _ {N : Type 0} (js : BuiltIns N) where
  -- Where `formatChartData` formats a line chart whose x axis is named `s`, other than `x` and `y`, the
  -- values of the field `s` are the fields `x` of the rows, no row has a field `s`, and the metadata
  -- still names it.
  pub format_chart_data-AreRenamed :
      (s : String) (us : Items N) (meta : Fields N) (v : Value N)
      → get_field "type" meta ≡ some (text "line")
      → get_field "xAxis" meta ≡ some (text s)
      → truthy s ≡ true
      → s ≢ "x"
      → s ≢ "y"
      → format_chart_data js (some (array us)) (some (object meta)) ≡ ok v
      → (rows : List (Value N)) × (v ≡ chart (arr rows) (object meta))
        × AreRenamed s (list_of us) rows
  unfolding format_chart_data
  format_chart_data-AreRenamed s us meta v line at_x named nx ny h =
      let start : formatted (list_of us) (object meta) names ≡ ok v =
        ap (λ k. format_items js (list_of us) k (object meta)) (sym line) ∙ h in
      let (ks, e, f) =
        >>=-inv names
          (λ ks. format_rows ks (list_of us) >>= λ rows. ok (chart (arr rows) (object meta))) v
          start in
      let (rows, g, k) =
        >>=-inv (format_rows ks (list_of us)) (λ rows. ok (chart (arr rows) (object meta))) v f in
      let (first, e1, f1) = >>=-inv axis with_second ks e in
      let (t, e2, f2) = >>=-inv second (λ t. ok (("x", first) ∷ ("y", t) ∷ [])) ks f1 in
      let same : first ≡ s =
        ok-injective first s (sym e1 ∙ ap (λ o. field_name js o none "x") at_x ∙ rw named refl) in
      let keys : ks ≡ ("x", s) ∷ ("y", t) ∷ [] =
        sym (ok-injective _ ks f2) ∙ ap (λ n. ("x", n) ∷ ("y", t) ∷ []) same in
      (
        rows,
        sym (ok-injective _ v k),
        format_rows-AreRenamed s t (list_of us) rows nx ny
            (ap (λ n. format_rows n (list_of us)) (sym keys) ∙ g),
      )
    where
      names : Result (List (String × String))
      names = two_names js "x" "xAxis" "y" "yAxis" (object meta)

      axis : Result String
      axis = field_name js (get_field "xAxis" meta) none "x"

      second : Result String
      second = field_name js (get_field "yAxis" meta) none "y"

      with_second : String → Result (List (String × String))
      with_second first = second >>= λ t. ok (("x", first) ∷ ("y", t) ∷ [])
