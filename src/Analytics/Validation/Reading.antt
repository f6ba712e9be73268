-- ===== src/Analytics/Validation/Reading.antt =====
-- Objects of frontend-dashboard/src/hooks/useAnalytics.ts as lists of fields: what is read after a write.
use synkro.Base.{
  String, true, false, some, ◌≡◌, refl, ◌∙◌, ap, ◌==◌, if◌then◌else◌, eq_iff, arith, inl, inr,
  Bool-cases, ==_refl,
}
use synkro.Analytics.Values.{
  Value, Fields, end, field, BuiltIns, get_field, set_field, delete_field, holds,
}

module _ {N : Type 0} where
  pub get-set :
      (j k : String) (v : Value N) (fs : Fields N)
      → get_field k (set_field j v fs) ≡ (if j == k then some v else get_field k fs)
  unfolding get_field set_field
  get-set j k v end = refl
  get-set j k v (field i u fs) =
      ground (arith, eq_iff j k, eq_iff i j, eq_iff i k, get-set j k v fs)

  pub get-set_self :
      (j : String) (v : Value N) (fs : Fields N) → get_field j (set_field j v fs) ≡ some v
  get-set_self j v fs = get-set j j v fs ∙ rw (==_refl j) refl

  pub get-delete :
      (j k : String) (fs : Fields N)
      → (j == k) ≡ false
      → get_field k (delete_field j fs) ≡ get_field k fs
  unfolding get_field delete_field
  get-delete j k end h = refl
  get-delete j k (field i u fs) h =
      ground (arith, eq_iff j k, eq_iff i j, eq_iff i k, get-delete j k fs h)

module _ {N : Type 0} (js : BuiltIns N) where
  -- Every field of the first object that is truthy is in the second one.
  abbrev pub Extends : Fields N → Fields N → Type 0
  Extends fs gs = (k : String) → holds js (get_field k fs) ≡ true → get_field k gs ≡ get_field k fs

  pub Extends-trans : (fs gs hs : Fields N) → Extends fs gs → Extends gs hs → Extends fs hs
  Extends-trans fs gs hs p q k h = q k (rw (p k h) h) ∙ p k h

  -- a write of a field that is falsy
  pub set-Extends :
      (j : String) (v : Value N) (fs : Fields N)
      → holds js (get_field j fs) ≡ false
      → Extends fs (set_field j v fs)
  set-Extends j v fs empty k h = elim (Bool-cases (j == k)) [
    | inl same ↦
        absurd
          (ground (arith, eq_iff j k, ap (λ i. holds js (get_field i fs)) ((eq_iff j k).0 same)))
    | inr other ↦ get-set j k v fs ∙ rw other refl
  ]
