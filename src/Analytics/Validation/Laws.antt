-- ===== src/Analytics/Validation/Laws.antt =====
-- `validateChartData` of frontend-dashboard/src/hooks/useAnalytics.ts: what the metadata has afterwards.
use synkro.Base.{
  String, true, false, Option, none, some, List, [], ◌∷◌, ◌≡◌, refl, sym, ◌∙◌, ◌==◌, arith, inl,
  inr, Bool-cases, truthy, Result, ok, err, subst, ok-injective, ltb, length,
}
use synkro.Analytics.Values.{
  Value, text, Fields, BuiltIns, get_field, set_field, holds, ◌>>=◌, is_nonempty,
}
use synkro.Analytics.Validation.{
  ChartType, sankey, pie, funnel, line_or_area, stacked_bar, other_chart, or_text, fill, default_to,
  fill_metrics, keys_of, first_of, numeric_keys, with_metrics,
}
use synkro.Analytics.Validation.Reading.{Extends, set-Extends, get-set, get-set_self}

-- The fields that the `switch` fills in, by type. It names no bar and no combo charts, whose axes the
-- drawing reads as well.
abbrev pub completed_fields : ChartType → List String
completed_fields sankey = "source" ∷ "target" ∷ "value" ∷ []
completed_fields pie = "dimension" ∷ "metric" ∷ []
completed_fields funnel = "dimension" ∷ "metric" ∷ []
completed_fields line_or_area = "xAxis" ∷ "yAxis" ∷ []
completed_fields stacked_bar = "xAxis" ∷ "yAxis" ∷ "groupBy" ∷ []
completed_fields other_chart = []

pub >>=-inv :
    {A B : Type 0} (r : Result A) (f : A → Result B) (b : B)
    → (r >>= f) ≡ ok b
    → (a : A) × (r ≡ ok a) × (f a ≡ ok b)
>>=-inv (ok a) f b h = (a, refl, h)
>>=-inv (err e) f b h = absurd (ground arith)

or_text-truthy :
    (name : Option String) (default : String)
    → truthy default ≡ true
    → truthy (or_text name default) ≡ true
or_text-truthy none default h = h
or_text-truthy (some s) default h = elim (Bool-cases (truthy s)) [ inl e ↦ rw e e | inr e ↦ rw e h ]

module _ {N : Type 0} (js : BuiltIns N) where
  abbrev pub Has : Fields N → String → Type 0
  Has meta k = holds js (get_field k meta) ≡ true

  -- A falsy field of some name but `type` was given a value.
  pub record IsFilled (key : String) (meta done : Fields N) : Type 0 where
    pub filled : Has done key
    pub kept : Extends js meta done
    pub same_type : get_field "type" done ≡ get_field "type" meta

  set-IsFilled :
      (key s : String) (meta : Fields N)
      → (key == "type") ≡ false
      → truthy s ≡ true
      → holds js (get_field key meta) ≡ false
      → IsFilled key meta (set_field key (text s) meta)
  set-IsFilled key s meta h t empty = record {
    filled = rw (get-set_self key (text s) meta) t;
    kept = set-Extends js key (text s) meta empty;
    same_type = get-set key "type" (text s) meta ∙ rw h refl;
  }

  pub default_to-IsFilled :
      (key s : String) (meta : Fields N)
      → (key == "type") ≡ false
      → truthy s ≡ true
      → IsFilled key meta (default_to js key s meta)
  unfolding default_to
  default_to-IsFilled key s meta h t = elim (Bool-cases (holds js (get_field key meta))) [
    | inl there ↦ rw there (record { filled = there; kept = λ k e. refl; same_type = refl })
    | inr empty ↦ rw empty (set-IsFilled key s meta h t empty)
  ]

  pub fill-IsFilled :
      (choose : List (String × Value N) → Option String) (key missing empty : String)
      (dat : Option (Value N)) (meta done : Fields N)
      → (key == "type") ≡ false
      → truthy missing ≡ true
      → truthy empty ≡ true
      → fill js choose key missing empty dat meta ≡ ok done
      → IsFilled key meta done
  unfolding fill
  fill-IsFilled choose key missing empty dat meta done h t u e =
      elim (Bool-cases (holds js (get_field key meta))) [
        | inl there ↦ there_case there (sym (rw there refl) ∙ e)
        | inr gone ↦ elim (Bool-cases (is_nonempty js dat)) [
          | inl full ↦
              let (es, r, f) =
                >>=-inv (keys_of js (first_of dat))
                  (λ es. ok (set_field key (text (or_text (choose es) missing)) meta)) done
                  (sym (rw (gone, full) refl) ∙ e) in
              subst (IsFilled key meta) (ok-injective _ _ f)
                (set-IsFilled key _ meta h (or_text-truthy (choose es) missing t) gone)
          | inr bare ↦
              subst (IsFilled key meta) (ok-injective _ _ (sym (rw (gone, bare) refl) ∙ e))
                (set-IsFilled key empty meta h u gone)
        ]
      ]
    where
      there_case : holds js (get_field key meta) ≡ true → ok meta ≡ ok done → IsFilled key meta done
      there_case there f =
          subst (IsFilled key meta) (ok-injective meta done f)
            (record { filled = there; kept = λ k e. refl; same_type = refl })

  pub fill_metrics-Extends :
      (dat : Option (Value N)) (meta done : Fields N)
      → fill_metrics js dat meta ≡ ok done
      → Extends js meta done × (get_field "type" done ≡ get_field "type" meta)
  unfolding fill_metrics
  fill_metrics-Extends dat meta done e = elim (Bool-cases (holds js (get_field "metrics" meta))) [
    | inl there ↦ same meta (sym (rw there refl) ∙ e)
    | inr gone ↦ elim (Bool-cases (is_nonempty js dat)) [
      | inl full ↦
          let (es, r, f) =
            >>=-inv (keys_of js (first_of dat))
              (λ es. ok (with_metrics js (numeric_keys js es) meta)) done
              (sym (rw (gone, full) refl) ∙ e) in
          written gone (numeric_keys js es) f
      | inr bare ↦ same meta (sym (rw (gone, bare) refl) ∙ e)
    ]
  ]
    where
      same :
          (m : Fields N)
          → ok m ≡ ok done
          → Extends js m done × (get_field "type" done ≡ get_field "type" m)
      same m f =
          subst (λ d. Extends js m d × (get_field "type" d ≡ get_field "type" m))
            (ok-injective m done f) (λ k h. refl, refl)

      written :
          holds js (get_field "metrics" meta) ≡ false
          → (names : List String) → ok (with_metrics js names meta) ≡ ok done
          → Extends js meta done × (get_field "type" done ≡ get_field "type" meta)
      written gone names f =
          subst (λ d. Extends js meta d × (get_field "type" d ≡ get_field "type" meta))
            (ok-injective _ done f)
            (elim (Bool-cases (ltb 1 (length names))) [
              | inl several ↦
                  rw several (set-Extends js "metrics" _ meta gone, get-set "metrics" "type" _ meta)
              | inr few ↦ rw few (λ k h. refl, refl)
            ])
