-- ===== src/Widgets/Table/Selection.antt =====
-- The boxes of the rows and the header.
use synkro.Base.{
  Bool, true, not, ◌&&◌, ◌||◌, List, [], ◌∷◌, ◌++◌, ◌≡◌, refl, ap, arith, eq_iff, if◌then◌else◌,
  keep, any_of, Bool-cases, inl, inr,
}
use synkro.Widgets.Table.{
  Value, undefined, null, boolean, number, text, object, strict_equals, Builtins, Table, id_of,
  is_selected, handle_select_item, toggle_row,
}

equals-symmetric : (a b : Value) → strict_equals a b ≡ strict_equals b a
equals-symmetric undefined b = ground arith
equals-symmetric null b = ground arith
equals-symmetric (boolean p) b = ground arith
equals-symmetric (number n) b = ground arith
equals-symmetric (text s) (text t) = ground (arith, eq_iff s t, eq_iff t s)
equals-symmetric (text s) b = ground arith
equals-symmetric (object i f) b = ground arith

equals-replaced : (a b c : Value) → strict_equals a b ≡ true → strict_equals a c ≡ strict_equals b c
equals-replaced undefined b c h = ground arith
equals-replaced null b c h = ground arith
equals-replaced (boolean p) b c h = ground arith
equals-replaced (number n) b c h = ground arith
equals-replaced (text s) (text t) c h =
    let e : s ≡ t = (eq_iff s t).0 h in ap (λ u. strict_equals (text u) c) e
equals-replaced (text s) b c h = absurd (ground arith)
equals-replaced (object i f) b c h = ground arith

any_of-append :
    {A : Type 0} (p : A → Bool) (xs ys : List A)
    → any_of p (xs ++ ys) ≡ (any_of p xs || any_of p ys)
any_of-append p [] ys = refl
any_of-append p (x ∷ xs) ys = ground (arith, any_of-append p xs ys)

module _ (js : Builtins) where
  -- The rows with the id of `item` are gone from the list, and no other row is.
  keep-others :
      (item row : Value) (items : List Value)
      → any_of
          (λ i. strict_equals (id_of js i) (id_of js row))
          (keep (λ i. not (strict_equals (id_of js i) (id_of js item))) items)
        ≡ (not (strict_equals (id_of js item) (id_of js row))
            && any_of (λ i. strict_equals (id_of js i) (id_of js row)) items)
  keep-others item row [] = ground arith
  keep-others item row (i ∷ is) =
      let a = id_of js i in
      let b = id_of js item in
      let c = id_of js row in
      elim (Bool-cases (strict_equals a b)) [
        | inl e ↦ rw e (ground (arith, keep-others item row is, equals-replaced a b c e))
        | inr e ↦ rw e (
            ground (
              arith,
              keep-others item row is,
              equals-replaced b c a,
              equals-symmetric a b,
              equals-symmetric a c,
            ))
      ]

  -- Rows with the same id have the same box.
  is_selected-same :
      (item row : Value) (items : List Value)
      → strict_equals (id_of js item) (id_of js row) ≡ true
      → any_of (λ i. strict_equals (id_of js i) (id_of js item)) items
        ≡ any_of (λ i. strict_equals (id_of js i) (id_of js row)) items
  is_selected-same item row [] e = refl
  is_selected-same item row (i ∷ is) e =
      let a = id_of js i in
      let b = id_of js item in
      let c = id_of js row in
      ground (
        arith,
        is_selected-same item row is e,
        equals-replaced b c a e,
        equals-symmetric a b,
        equals-symmetric a c,
      )

  -- A click on the box of a row checks or unchecks the boxes of all rows with its id, and no others.
  pub is_selected-toggle_row :
      (item row : Value) (t : Table)
      → is_selected js (toggle_row js item t) row ≡ (
          if strict_equals (id_of js item) (id_of js row)
          then not (is_selected js t row)
          else is_selected js t row)
  unfolding toggle_row handle_select_item
  is_selected-toggle_row item row t =
      let items = t.selected_items in
      let appended =
        any_of-append (λ i. strict_equals (id_of js i) (id_of js row)) items (item ∷ []) in
      elim (Bool-cases (is_selected js t item)) [
        | inl on ↦
            rw on (ground (arith, keep-others item row items, is_selected-same item row items))
        | inr off ↦ rw off (ground (arith, appended, is_selected-same item row items))
      ]
