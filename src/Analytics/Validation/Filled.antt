-- ===== src/Analytics/Validation/Filled.antt =====
-- `validateChartData` of frontend-dashboard/src/hooks/useAnalytics.ts as a whole.
use synkro.Base.{
  String, Bool, true, false, Option, none, some, ◌≡◌, refl, sym, ◌∙◌, ap, inl, inr, ◌⊎◌, Bool-cases,
  ok, All, ok-injective,
}
use synkro.Analytics.Values.{
  Value, text, object, Fields, BuiltIns, get_field, set_field, holds, copy_fields,
}
use synkro.Analytics.Validation.{
  chart_type, complete_by_type, relabel_if, rename_to, rename, rename_all, is_mislabelled, relabel,
  validate_metadata, validate_object, set_metadata, validate_chart_data,
}
use synkro.Analytics.Validation.Reading.{Extends, Extends-trans, set-Extends, get-set, get-delete}
use synkro.Analytics.Validation.Laws.{completed_fields, >>=-inv, Has}
use synkro.Analytics.Validation.Completion.{IsCompleted, complete-IsCompleted}

module _ {N : Type 0} (js : BuiltIns N) where
  -- The metadata has every field that is filled in for its type.
  abbrev pub IsFilledIn : Fields N → Type 0
  IsFilledIn meta = All (Has js meta) (completed_fields (chart_type (get_field "type" meta)))

  -- Counts by status, drawn as a pie.
  abbrev pub CountsStatus : Fields N → Type 0
  CountsStatus meta =
      (get_field "type" meta ≡ some (text "pie"))
      × (get_field "dimension" meta ≡ some (text "status"))
      × (get_field "metric" meta ≡ some (text "count"))

  rename_to-Extends :
      (o : Option (Value N)) (camel : String) (meta : Fields N)
      → Extends js meta (rename_to js o camel meta)
  rename_to-Extends none camel meta = λ k h. refl
  rename_to-Extends (some v) camel meta = elim (Bool-cases (holds js (some v))) [
    | inl good ↦ elim (Bool-cases (holds js (get_field camel meta))) [
      | inl old ↦ rw (good, old) (λ k h. refl)
      | inr new ↦ rw (good, new) (set-Extends js camel v meta new)
    ]
    | inr bad ↦ rw bad (λ k h. refl)
  ]

  rename-Extends :
      (snake camel : String) (meta : Fields N) → Extends js meta (rename js snake camel meta)
  unfolding rename
  rename-Extends snake camel meta = rename_to-Extends (get_field snake meta) camel meta

  rename_all-Extends : (meta : Fields N) → Extends js meta (rename_all js meta)
  unfolding rename_all
  rename_all-Extends meta = Extends-trans js meta _ _ (rename-Extends "x_axis" "xAxis" meta) (
      Extends-trans js _ _ _ (rename-Extends "y_axis" "yAxis" _)
        (rename-Extends "group_by" "groupBy" _))

  relabel-CountsStatus : (meta : Fields N) → CountsStatus (relabel js meta)
  unfolding relabel
  relabel-CountsStatus meta =
      (simp (get-delete, get-set), simp (get-delete, get-set), simp (get-delete, get-set))

  -- The validated metadata, where nothing was thrown.
  pub record IsValidated (meta done : Fields N) : Type 0 where
    pub drawable : IsFilledIn done
    pub kept : Extends js meta done ⊎ CountsStatus done

  IsFilledIn-of :
      (meta done : Fields N)
      → IsCompleted js (chart_type (get_field "type" meta)) meta done
      → IsFilledIn done
  IsFilledIn-of meta done c = rw c.same_type c.has

  pub validate_metadata-IsValidated :
      (dat : Option (Value N)) (meta done : Fields N)
      → validate_metadata js dat meta ≡ ok done
      → IsValidated meta done
  unfolding validate_metadata
  validate_metadata-IsValidated dat meta done e =
      let (wrong, f, g) =
        >>=-inv (is_mislabelled js dat (rename_all js meta))
          (λ wrong. complete_by_type js dat (relabel_if js wrong (rename_all js meta))) done e in
      go wrong g
    where
      go :
          (wrong : Bool)
          → complete_by_type js dat (relabel_if js wrong (rename_all js meta)) ≡ ok done
          → IsValidated meta done
      go false g =
          let c = complete-IsCompleted js _ dat (rename_all js meta) done g in
          record {
            drawable = IsFilledIn-of (rename_all js meta) done c;
            kept =
                inl (
                  Extends-trans js meta (rename_all js meta) done (rename_all-Extends meta) c.kept);
          }
      go true g =
          let c = complete-IsCompleted js _ dat (relabel js (rename_all js meta)) done g in
          let (t, d, m) = relabel-CountsStatus (rename_all js meta) in
          record {
            drawable = IsFilledIn-of (relabel js (rename_all js meta)) done c;
            kept = inr (
              c.same_type ∙ t,
              c.kept "dimension" (rw d refl) ∙ d,
              c.kept "metric" (rw m refl) ∙ m,
            );
          }

  -- `validateChartData`, of an answer whose metadata has a type that is truthy, either throws or gives a
  -- copy of the answer whose metadata has each field that is filled in for its type (source, target
  -- and value; dimension and metric; the axes; the axes and the groups). Truthy fields of the answer
  -- are kept, except where counts by status that are labelled as a sankey diagram become a pie.
  pub validate-IsFilledIn :
      (fs meta : Fields N) (v : Value N)
      → get_field "metadata" fs ≡ some (object meta)
      → Has js meta "type"
      → validate_chart_data js (object fs) ≡ ok v
      → (done : Fields N) × (v ≡ object (set_field "metadata" (object done) (copy_fields js fs)))
        × IsFilledIn done
        × (Extends js (copy_fields js meta) done ⊎ CountsStatus done)
  unfolding validate_chart_data
  validate-IsFilledIn fs meta v at_meta typed e =
      let same : validate_object js (some (object meta)) fs ≡ ok v =
        ap (λ o. validate_object js o fs) (sym at_meta) ∙ e in
      let (done, f, g) =
        >>=-inv (validate_metadata js (get_field "data" (copy_fields js fs)) (copy_fields js meta))
          (λ done. ok (set_metadata js fs done)) v (sym (rw typed refl) ∙ same) in
      let w =
        validate_metadata-IsValidated (get_field "data" (copy_fields js fs)) (copy_fields js meta)
          done f in
      (done, sym (ok-injective _ v g), w.drawable, w.kept)
