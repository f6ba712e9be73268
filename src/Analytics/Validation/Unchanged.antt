-- ===== src/Analytics/Validation/Unchanged.antt =====
-- `validateChartData` of frontend-dashboard/src/hooks/useAnalytics.ts on a chart that lacks nothing.
use synkro.Base.{
  String, false, Option, none, some, List, [], ◌∷◌, ◌≡◌, refl, ◌∙◌, ap, arith, Bool-cases, inl, inr,
  ok, All,
}
use synkro.Analytics.Values.{
  Value, object, Fields, end, field, BuiltIns, get_field, set_field, is_type, holds, copy_fields,
}
use synkro.Analytics.Validation.{
  ChartType, sankey, pie, funnel, line_or_area, stacked_bar, other_chart, chart_type, complete,
  rename, rename_to, rename_all, is_mislabelled, validate_metadata, validate_object,
  validate_chart_data, set_metadata,
}
use synkro.Analytics.Validation.Laws.{completed_fields, Has}

set-get :
    {N : Type 0} (k : String) (v : Value N) (fs : Fields N)
    → get_field k fs ≡ some v
    → set_field k v fs ≡ fs
unfolding get_field set_field
set-get k v end h = cc
set-get k v (field j u fs) h = ground (arith, set-get k v fs)

-- The fields that `validateChartData` would fill in.
abbrev pub fields_of : ChartType → List String
fields_of funnel = "dimension" ∷ "metric" ∷ "metrics" ∷ []
fields_of t = completed_fields t

module _ {N : Type 0} (js : BuiltIns N) where
  abbrev pub Lacks : Fields N → String → Type 0
  Lacks meta k = holds js (get_field k meta) ≡ false

  -- Copying changes nothing (all numbers are finite), no field is spelled in snake case, the fields
  -- of the type are there, and no counts by status are labelled as a sankey diagram.
  pub record IsReady (fs meta : Fields N) : Type 0 where
    pub finite : copy_fields js fs ≡ fs
    pub finite_metadata : copy_fields js meta ≡ meta
    pub at_metadata : get_field "metadata" fs ≡ some (object meta)
    pub typed : Has js meta "type"
    pub no_x_axis : Lacks meta "x_axis"
    pub no_y_axis : Lacks meta "y_axis"
    pub no_group_by : Lacks meta "group_by"
    pub complete : All (Has js meta) (fields_of (chart_type (get_field "type" meta)))
    pub no_status : is_type "status" (get_field "nodes" meta) ≡ false

  rename-keeps :
      (snake camel : String) (meta : Fields N)
      → Lacks meta snake
      → rename js snake camel meta ≡ meta
  unfolding rename
  rename-keeps snake camel meta h = go (get_field snake meta) h
    where
      go : (o : Option (Value N)) → holds js o ≡ false → rename_to js o camel meta ≡ meta
      go none h = refl
      go (some v) h = rw h refl

  rename_all-keeps :
      (meta : Fields N)
      → Lacks meta "x_axis"
      → Lacks meta "y_axis"
      → Lacks meta "group_by"
      → rename_all js meta ≡ meta
  unfolding rename_all
  rename_all-keeps meta x y g =
      rw (rename-keeps "x_axis" "xAxis" meta x)
        (rw (rename-keeps "y_axis" "yAxis" meta y) (rename-keeps "group_by" "groupBy" meta g))

  complete-keeps :
      (t : ChartType) (dat : Option (Value N)) (meta : Fields N)
      → All (Has js meta) (fields_of t)
      → complete js t dat meta ≡ ok meta
  unfolding complete
  complete-keeps sankey dat meta h = rw (h.0, h.1.0, h.1.1.0) refl
  complete-keeps pie dat meta h = rw (h.0, h.1.0) refl
  complete-keeps funnel dat meta h = rw (h.0, h.1.0, h.1.1.0) refl
  complete-keeps line_or_area dat meta h = rw (h.0, h.1.0) refl
  complete-keeps stacked_bar dat meta h = rw (h.0, h.1.0, h.1.1.0) refl
  complete-keeps other_chart dat meta h = refl

  labelled :
      (dat : Option (Value N)) (meta : Fields N)
      → is_type "status" (get_field "nodes" meta) ≡ false
      → is_mislabelled js dat meta ≡ ok false
  unfolding is_mislabelled
  labelled none meta h = refl
  labelled (some v) meta h = elim (Bool-cases (is_type "sankey" (get_field "type" meta))) [
    | inl a ↦ rw (a, h) refl
    | inr a ↦ rw a refl
  ]

  -- `validateChartData` gives a chart back as it is, if all its numbers are finite, its metadata has a
  -- type, the fields that are filled in for its type and none in snake case, and its nodes are not
  -- `status`.
  pub validate-ready :
      (fs meta : Fields N) → IsReady fs meta → validate_chart_data js (object fs) ≡ ok (object fs)
  unfolding validate_chart_data validate_metadata
  validate-ready fs meta r =
      let named = rename_all-keeps meta r.no_x_axis r.no_y_axis r.no_group_by in
      let dat = get_field "data" fs in
      let whole : validate_metadata js dat meta ≡ ok meta =
        rw (named, labelled dat meta r.no_status)
          (complete-keeps (chart_type (get_field "type" meta)) dat meta r.complete) in
      let kept : set_metadata js fs meta ≡ object fs =
        rw r.finite (ap object (set-get "metadata" (object meta) fs r.at_metadata)) in
      ap (λ o. validate_object js o fs) r.at_metadata
      ∙ rw
          (
            r.typed,
            r.finite,
            r.finite_metadata,
            whole,
            set-get "metadata" (object meta) fs r.at_metadata,
          )
          refl
