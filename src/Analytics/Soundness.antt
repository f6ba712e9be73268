-- ===== src/Analytics/Soundness.antt =====
-- frontend-dashboard/src/hooks/useAnalytics.ts: what the methods answer that validate their charts.
use synkro.Base.{
  false, Option, none, some, ◌≡◌, ◌≢◌, refl, sym, ◌∙◌, ap, subst, arith, inl, inr, Bool-cases, ok,
  ok-injective,
}
use synkro.Analytics.Values.{
  Value, null, number, text, boolean, array, object, Fields, BuiltIns, get_field, set_field, holds,
  copy_fields,
}
use synkro.Analytics.Validation.{validate_object, validate_chart_data}
use synkro.Analytics.Validation.Reading.{get-set_self}
use synkro.Analytics.Validation.Laws.{Has}
use synkro.Analytics.Validation.Filled.{IsFilledIn, validate-IsFilledIn}

module _ {N : Type 0} (js : BuiltIns N) where
  -- Where the metadata has a type, it has the fields that are filled in for its type.
  abbrev pub IsSound : Value N → Type 0
  IsSound v =
      (fs meta : Fields N)
      → v ≡ object fs
      → get_field "metadata" fs ≡ some (object meta)
      → Has js meta "type"
      → IsFilledIn js meta

  pub object-injective : (fs gs : Fields N) → object fs ≡ object gs → fs ≡ gs
  object-injective fs gs h = cc

  untyped-IsSound :
      (fs meta : Fields N) (v : Value N)
      → get_field "metadata" fs ≡ some (object meta)
      → holds js (get_field "type" meta) ≡ false
      → object fs ≡ v
      → IsSound v
  untyped-IsSound fs meta v at_meta untyped e gs meta' f g typed =
      let same : fs ≡ gs = object-injective fs gs (e ∙ f) in
      let same' : object meta ≡ object meta' = cc in
      let m : meta ≡ meta' = object-injective meta meta' same' in
      absurd (ground (arith, ap (λ n. holds js (get_field "type" n)) m))

  done-IsSound :
      (fs done : Fields N) (v : Value N)
      → v ≡ object (set_field "metadata" (object done) fs)
      → IsFilledIn js done
      → IsSound v
  done-IsSound fs done v e good gs meta f g typed =
      let same : set_field "metadata" (object done) fs ≡ gs = object-injective _ gs (sym e ∙ f) in
      let at : get_field "metadata" gs ≡ some (object done) =
        subst (λ n. get_field "metadata" n ≡ some (object done)) same
          (get-set_self "metadata" (object done) fs) in
      let same' : object done ≡ object meta = cc in
      subst (IsFilledIn js) (object-injective done meta same') good

  kept-IsSound :
      (o : Option (Value N)) (fs : Fields N) (v : Value N)
      → ((meta : Fields N) → o ≢ some (object meta))
      → get_field "metadata" fs ≡ o
      → ok (object fs) ≡ ok v
      → IsSound v
  kept-IsSound o fs v none_there at e gs meta f g typed =
      let same : fs ≡ gs = object-injective fs gs (ok-injective (object fs) v e ∙ f) in
      absurd (none_there meta (sym at ∙ ap (get_field "metadata") same ∙ g))

  validate_object-IsSound :
      (o : Option (Value N)) (fs : Fields N) (v : Value N)
      → get_field "metadata" fs ≡ o
      → validate_object js o fs ≡ ok v
      → IsSound v
  unfolding validate_chart_data
  validate_object-IsSound none fs v at e = kept-IsSound none fs v (λ m h. cc) at e
  validate_object-IsSound (some null) fs v at e = kept-IsSound (some null) fs v (λ m h. cc) at e
  validate_object-IsSound (some (number n)) fs v at e =
      kept-IsSound (some (number n)) fs v (λ m h. cc) at e
  validate_object-IsSound (some (text s)) fs v at e =
      kept-IsSound (some (text s)) fs v (λ m h. cc) at e
  validate_object-IsSound (some (boolean b)) fs v at e =
      kept-IsSound (some (boolean b)) fs v (λ m h. cc) at e
  validate_object-IsSound (some (array vs)) fs v at e =
      kept-IsSound (some (array vs)) fs v (λ m h. cc) at e
  validate_object-IsSound (some (object meta)) fs v at e =
      elim (Bool-cases (holds js (get_field "type" meta))) [
        | inl typed ↦
            let (done, f, g, k) =
              validate-IsFilledIn js fs meta v at typed
                (validate_object_lem fs (some (object meta)) v at e) in
            done-IsSound (copy_fields js fs) done v f g
        | inr untyped ↦
            untyped-IsSound fs meta v at untyped
              (ok-injective (object fs) v (sym (rw untyped refl) ∙ e))
      ]
    where
      validate_object_lem :
          (fs : Fields N) (o : Option (Value N)) (v : Value N)
          → get_field "metadata" fs ≡ o
          → validate_object js o fs ≡ ok v
          → validate_chart_data js (object fs) ≡ ok v
      validate_object_lem fs o v at e = ap (λ p. validate_object js p fs) at ∙ e

  -- what is no object
  plain-IsSound : (u v : Value N) → ((fs : Fields N) → u ≢ object fs) → ok u ≡ ok v → IsSound v
  plain-IsSound u v no_object e fs meta f g typed = absurd (no_object fs (ok-injective u v e ∙ f))

  pub validate-IsSound : (u v : Value N) → validate_chart_data js u ≡ ok v → IsSound v
  unfolding validate_chart_data
  validate-IsSound (object fs) v e = validate_object-IsSound (get_field "metadata" fs) fs v refl e
  validate-IsSound null v e = plain-IsSound null v (λ fs h. cc) e
  validate-IsSound (number n) v e = plain-IsSound (number n) v (λ fs h. cc) e
  validate-IsSound (text s) v e = plain-IsSound (text s) v (λ fs h. cc) e
  validate-IsSound (boolean b) v e = plain-IsSound (boolean b) v (λ fs h. cc) e
  validate-IsSound (array vs) v e = plain-IsSound (array vs) v (λ fs h. cc) e
