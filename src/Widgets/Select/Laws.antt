-- ===== src/Widgets/Select/Laws.antt =====
-- What holds of a selection after any use of the widget.
use synkro.Base.{
  ℕ, zero, suc, ◌+◌, ◌≤◌, ◌⊎◌, String, true, false, not, Option, none, some, List, [], ◌∷◌, ◌++◌,
  map, ◌≡◌, refl, sym, ap, ◌∙◌, subst, arith, ◌==◌, length, keep, any_of, get_elem?, includes,
  Distinct, Distinct-concat, keep-Distinct, All, All-append, length-append, length-keep, All-keep,
  get_elem?-keep, Bool-cases, inl, inr, if-holds, elim-splits, if-splits,
}
use mathlib.Core.Option.{some-injective}
use synkro.Widgets.Select.{
  Quantities, SelectOption, Select, Delta, minus, plus, or_one, is_full, shift_quantity,
  handle_select, handle_remove, change_item, handle_quantity_change, Event, open_list, close_list,
  type_search, click_option, click_remove, click_quantity, step, run,
}

-- The number of options is within `maxItems`, where there is one and it is not 0.
abbrev pub IsWithin : Option ℕ → ℕ → Type 0
IsWithin none n = Unit
IsWithin (some zero) n = Unit
IsWithin (some (suc most)) n = n ≤ suc most

IsWithin-suc :
    (max_items : Option ℕ) (n : ℕ)
    → IsWithin max_items n
    → is_full max_items n ≡ false
    → IsWithin max_items (n + 1)
IsWithin-suc none n w room = tt
IsWithin-suc (some zero) n w room = tt
IsWithin-suc (some (suc most)) n w room = ground arith

IsWithin-less :
    (max_items : Option ℕ) (m n : ℕ) → m ≤ n → IsWithin max_items n → IsWithin max_items m
IsWithin-less none m n le w = tt
IsWithin-less (some zero) m n le w = tt
IsWithin-less (some (suc most)) m n le w = omega arith

get_elem?-All :
    {A : Type 0} (P : A → Type 0) (xs : List A) (n : ℕ) (a : A)
    → All P xs
    → get_elem? xs n ≡ some a
    → P a
get_elem?-All P [] n a h e = absurd (ground arith)
get_elem?-All P (x ∷ xs) zero a (p, h) e = subst P (some-injective _ _ e) p
get_elem?-All P (x ∷ xs) (suc n) a (p, h) e = get_elem?-All P xs n a h e

length-map : {A B : Type 0} (f : A → B) (xs : List A) → length (map f xs) ≡ length xs
length-map f [] = refl
length-map f (x ∷ xs) = omega (arith, length-map f xs)

module _ {M Q : Type 0} where
  abbrev pub values_of : List (SelectOption String M Q) → List String
  values_of xs = map (λ item. item.value) xs

  any_of-values :
      (v : String) (xs : List (SelectOption String M Q))
      → any_of (λ item. item.value == v) xs ≡ includes v (values_of xs)
  any_of-values v [] = refl
  any_of-values v (x ∷ xs) = rw (any_of-values v xs) refl

  values_of-append :
      (xs : List (SelectOption String M Q)) (x : SelectOption String M Q)
      → values_of (xs ++ x ∷ []) ≡ values_of xs ++ x.value ∷ []
  values_of-append [] x = refl
  values_of-append (y ∷ ys) x = ap (λ l. y.value ∷ l) (values_of-append ys x)

  values_of-keep :
      (v : String) (xs : List (SelectOption String M Q))
      → values_of (keep (λ item. not (item.value == v)) xs)
        ≡ keep (λ w. not (w == v)) (values_of xs)
  values_of-keep v [] = refl
  values_of-keep v (x ∷ xs) = elim (Bool-cases (x.value == v)) [
    | inl same ↦ rw same (values_of-keep v xs)
    | inr other ↦ rw other (ap (λ l. x.value ∷ l) (values_of-keep v xs))
  ]

-- What is used of `>= 1`: it holds of 1, and of `Math.max(1, n + 1)` and `Math.max(1, n - 1)` for a number
-- `n` that is truthy, so not `NaN`; and what holds of it is truthy.
pub record IsAtLeastOne {Q : Type 0} (numbers : Quantities Q) (AtLeastOne : Q → Type 0)
    : Type 0 where
  pub one_fits : AtLeastOne numbers.one
  pub next_fits :
      (n : Q) → numbers.is_truthy n ≡ true → AtLeastOne (numbers.max_one (numbers.next n))
  pub previous_fits :
      (n : Q) → numbers.is_truthy n ≡ true → AtLeastOne (numbers.max_one (numbers.previous n))
  pub fits_truthy : (n : Q) → AtLeastOne n → numbers.is_truthy n ≡ true

module _ {Q : Type 0} (numbers : Quantities Q) (AtLeastOne : Q → Type 0) where
  -- A quantity that is at least 1, or falsy, or missing.
  abbrev pub OfferedQuantity : Option Q → Type 0
  OfferedQuantity none = Unit
  OfferedQuantity (some q) = (numbers.is_truthy q ≡ false) ⊎ AtLeastOne q

module _ {Q : Type 0} (numbers : Quantities Q) (AtLeastOne : Q → Type 0)
    (order : IsAtLeastOne numbers AtLeastOne) where
  or_one-fits :
      (q : Option Q) → OfferedQuantity numbers AtLeastOne q → AtLeastOne (or_one numbers q)
  or_one-fits none h = order.one_fits
  or_one-fits (some q) (inl falsy) = rw falsy order.one_fits
  or_one-fits (some q) (inr fits) = rw (order.fits_truthy q fits) fits

  shift-fits : (d : Delta) (n : Q) → AtLeastOne n → AtLeastOne (shift_quantity numbers d n)
  shift-fits minus n h = order.previous_fits n (order.fits_truthy n h)
  shift-fits plus n h = order.next_fits n (order.fits_truthy n h)

module _ {M Q : Type 0} (numbers : Quantities Q) (AtLeastOne : Q → Type 0)
    (order : IsAtLeastOne numbers AtLeastOne) where
  -- The quantity is there and at least 1.
  abbrev pub IsCounted : SelectOption String M Q → Type 0
  IsCounted item = (q : Q) × (item.quantity ≡ some q) × AtLeastOne q

  abbrev pub IsOffered : SelectOption String M Q → Type 0
  IsOffered item = OfferedQuantity numbers AtLeastOne item.quantity

  -- The options that are shown have quantities that are falsy or at least 1, or none.
  abbrev pub OffersCounts : Event String M Q → Type 0
  OffersCounts (click_option options n) = All IsOffered options
  OffersCounts _ = Unit

  counted-fits :
      (item : SelectOption String M Q) → IsCounted item → AtLeastOne (or_one numbers item.quantity)
  counted-fits item (q, e, fits) =
      subst (λ o. AtLeastOne (or_one numbers o)) (sym e)
        (or_one-fits numbers AtLeastOne order (some q) (inr fits))

  abbrev pub IsSelection : Option ℕ → List (SelectOption String M Q) → Type 0
  IsSelection max_items xs =
      Distinct (values_of xs) × IsWithin max_items (length xs) × All IsCounted xs

  values_of-change :
      (v : String) (d : Delta) (xs : List (SelectOption String M Q))
      → values_of (map (change_item numbers ◌==◌ v d) xs) ≡ values_of xs
  values_of-change v d [] = refl
  values_of-change v d (x ∷ xs) = elim (Bool-cases (x.value == v)) [
    | inl same ↦ rw same (ap (λ l. x.value ∷ l) (values_of-change v d xs))
    | inr other ↦ rw other (ap (λ l. x.value ∷ l) (values_of-change v d xs))
  ]

  change-IsCounted :
      (v : String) (d : Delta) (xs : List (SelectOption String M Q))
      → All IsCounted xs
      → All IsCounted (map (change_item numbers ◌==◌ v d) xs)
  change-IsCounted v d [] h = tt
  change-IsCounted v d (x ∷ xs) (p, h) = (
    if-holds IsCounted (x.value == v) _ x
        (_, refl, shift-fits numbers AtLeastOne order d _ (counted-fits x p)) p,
    change-IsCounted v d xs h,
  )

  select-IsSelection :
      (max_items : Option ℕ) (o : SelectOption String M Q) (s : Select String M Q)
      → IsOffered o
      → any_of (λ item. item.value == o.value) s.values ≡ false
      → IsSelection max_items s.values
      → IsSelection max_items (handle_select numbers max_items o s).values
  unfolding handle_select
  select-IsSelection max_items o s offered new (d, w, c) =
      let Holds = λ (t : Select String M Q). IsSelection max_items t.values in
      if-splits Holds (is_full max_items (length s.values)) s _ (λ f. (d, w, c))
        (λ room. (
          subst Distinct (sym (values_of-append s.values _)) (
              Distinct-concat (values_of s.values) o.value d
                (sym (any_of-values o.value s.values) ∙ new)),
          subst (IsWithin max_items) (sym (length-append s.values _))
              (IsWithin-suc max_items _ w room),
          All-append IsCounted s.values _ c
              ((_, refl, or_one-fits numbers AtLeastOne order o.quantity offered), tt),
        ))

  remove-IsSelection :
      (max_items : Option ℕ) (v : String) (s : Select String M Q)
      → IsSelection max_items s.values
      → IsSelection max_items (handle_remove ◌==◌ v s).values
  unfolding handle_remove
  remove-IsSelection max_items v s (d, w, c) = (
    subst Distinct (sym (values_of-keep v s.values)) (keep-Distinct _ (values_of s.values) d),
    IsWithin-less max_items _ _ (length-keep _ s.values) w,
    All-keep IsCounted _ s.values c,
  )

  quantity-IsSelection :
      (max_items : Option ℕ) (v : String) (d : Delta) (s : Select String M Q)
      → IsSelection max_items s.values
      → IsSelection max_items (handle_quantity_change numbers ◌==◌ v d s).values
  unfolding handle_quantity_change
  quantity-IsSelection max_items v delta s (d, w, c) = (
    subst Distinct (sym (values_of-change v delta s.values)) d,
    subst (IsWithin max_items) (sym (length-map (change_item numbers ◌==◌ v delta) s.values)) w,
    change-IsCounted v delta s.values c,
  )

  step-IsSelection :
      (max_items : Option ℕ) (e : Event String M Q) (s : Select String M Q)
      → OffersCounts e
      → IsSelection max_items s.values
      → IsSelection max_items (step numbers ◌==◌ max_items e s).values
  unfolding step
  step-IsSelection max_items open_list s offers h = h
  step-IsSelection max_items close_list s offers h = h
  step-IsSelection max_items (type_search text) s offers h = h
  step-IsSelection max_items (click_remove v) s offers h = remove-IsSelection max_items v s h
  step-IsSelection max_items (click_quantity v d) s offers h =
      quantity-IsSelection max_items v d s h
  step-IsSelection max_items (click_option options n) s offers h =
      let Holds = λ (t : Select String M Q). IsSelection max_items t.values in
      let is_new =
        λ (o : SelectOption String M Q). not (any_of (λ item. item.value == o.value) s.values) in
      if-holds Holds (not s.is_open) s _ h (
        elim-splits Holds (get_elem? (keep is_new options) n) s _ (λ e. h)
          (λ o e.
            let free = get_elem?-keep is_new options n o e in
            select-IsSelection max_items o s
              (get_elem?-All IsOffered _ n o (All-keep IsOffered is_new options offers) e)
              (ground arith) h))

  -- From a selection without repeated options, within `maxItems` and with quantities of at least 1,
  -- any use of the widget (options shown and clicked, removed, counted up and down, in any order)
  -- leaves such a selection, if the options that are shown have no quantity, one that is falsy, or one
  -- of at least 1.
  pub run-IsSelection :
      (max_items : Option ℕ) (es : List (Event String M Q)) (s : Select String M Q)
      → All OffersCounts es
      → IsSelection max_items s.values
      → IsSelection max_items (run numbers ◌==◌ max_items es s).values
  unfolding run
  run-IsSelection max_items [] s offers h = h
  run-IsSelection max_items (e ∷ es) s (offer, offers) h =
      run-IsSelection max_items es (step numbers ◌==◌ max_items e s) offers
        (step-IsSelection max_items e s offer h)
