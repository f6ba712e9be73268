-- ===== src/Backoffice/Orders/Sending/Parts.antt =====
-- The shipping and payment parts of an order that the orders module sends, and what it leaves of them to
-- its caller.
use synkro.Base.{
  String, true, false, Option, none, some, ◌≡◌, refl, sym, ◌∙◌, ap, ◌==◌, if◌then◌else◌, eq_iff,
  inl, inr, Bool-cases, Option-cases, subst, ◌⊎◌,
}
use synkro.Analytics.Values.{
  Value, null, boolean, number, text, array, object, Fields, field, end, fields, BuiltIns,
  get_field, set_field, holds, entries,
}
use synkro.Analytics.Validation.Reading.{get-set, get-set_self}
use synkro.Backoffice.Orders.Sending.{
  Part, part_name, amount_name, parse_amount, with_order_id, change_part,
}

module _ {N : Type 0} (js : BuiltIns N) where
  -- a part of the data after its change
  abbrev pub changed : (Value N → Value N) → Option (Value N) → Option (Value N)
  changed f none = none
  changed f (some v) = if holds js (some v) then some (f v) else some v

  pub change_part-same :
      (f : Value N → Value N) (p : Part) (dat : Fields N)
      → get_field (part_name p) (change_part js f p dat) ≡ changed f (get_field (part_name p) dat)
  change_part-same f p dat = elim (Option-cases (get_field (part_name p) dat)) [
    | inl e ↦ rw (change_part, e) e
    | inr (v, e) ↦ elim (Bool-cases (holds js (some v))) [
      | inl t ↦ rw (change_part, e, t) (get-set_self (part_name p) (f v) dat)
      | inr t ↦ rw (change_part, e, t) e
    ]
  ]

  pub change_part-other :
      (f : Value N → Value N) (p : Part) (k : String) (dat : Fields N)
      → (part_name p == k) ≡ false
      → get_field k (change_part js f p dat) ≡ get_field k dat
  change_part-other f p k dat other = elim (Option-cases (get_field (part_name p) dat)) [
    | inl e ↦ rw (change_part, e) refl
    | inr (v, e) ↦ elim (Bool-cases (holds js (some v))) [
      | inl t ↦ rw (change_part, e, t) (get-set (part_name p) k (f v) dat ∙ rw other refl)
      | inr t ↦ rw (change_part, e, t) refl
    ]
  ]

  fields-entries : (gs : Fields N) → fields (entries js (object gs)) ≡ gs
  fields-entries end = refl
  fields-entries (field k v gs) = ap (field k v) (fields-entries gs)

module _ {N : Type 0} (parse_float : String → N) where
  -- an amount that is a text is sent as a number
  abbrev pub as_number : Option (Value N) → Option (Value N)
  as_number (some (text s)) = some (number (parse_float s))
  as_number o = o

  -- Of the fields only the amount may differ, and it is not a text.
  abbrev pub IsParsed : String → Fields N → Fields N → Type 0
  IsParsed a gs hs =
      (k : String)
      → get_field k hs ≡ (if a == k then as_number (get_field k gs) else get_field k gs)

  keep-IsParsed :
      (a : String) (gs : Fields N) → as_number (get_field a gs) ≡ get_field a gs → IsParsed a gs gs
  keep-IsParsed a gs kept k = elim (Bool-cases (a == k)) [
    | inl same ↦
        let j : a ≡ k = (eq_iff a k).0 same in
        rw same (sym (subst (λ i. as_number (get_field i gs) ≡ get_field i gs) j kept))
    | inr other ↦ rw other refl
  ]

  write-IsParsed :
      (a : String) (gs : Fields N) (v : Value N)
      → some v ≡ as_number (get_field a gs)
      → IsParsed a gs (set_field a v gs)
  write-IsParsed a gs v e k = get-set a k v gs ∙ elim (Bool-cases (a == k)) [
    | inl same ↦
        let j : a ≡ k = (eq_iff a k).0 same in
        rw same (subst (λ i. some v ≡ as_number (get_field i gs)) j e)
    | inr other ↦ rw other refl
  ]

  parse_amount-IsParsed :
      (a : String) (gs : Fields N)
      → (hs : Fields N) × (parse_amount parse_float a (object gs) ≡ object hs) × IsParsed a gs hs
  unfolding parse_amount
  parse_amount-IsParsed a gs = elim (Option-cases (get_field a gs)) [
    | inl e ↦ (gs, rw (parse_amount, e) refl, keep-IsParsed a gs (rw e refl))
    | inr (text s, e) ↦
        let v = number (parse_float s) in
        (set_field a v gs, rw (parse_amount, e) refl, write-IsParsed a gs v (rw e refl))
    | inr (null, e) ↦ (gs, rw (parse_amount, e) refl, keep-IsParsed a gs (rw e refl))
    | inr (boolean b, e) ↦ (gs, rw (parse_amount, e) refl, keep-IsParsed a gs (rw e refl))
    | inr (number n, e) ↦ (gs, rw (parse_amount, e) refl, keep-IsParsed a gs (rw e refl))
    | inr (array vs, e) ↦ (gs, rw (parse_amount, e) refl, keep-IsParsed a gs (rw e refl))
    | inr (object fs, e) ↦ (gs, rw (parse_amount, e) refl, keep-IsParsed a gs (rw e refl))
  ]

module _ {N : Type 0} (js : BuiltIns N) (parse_float : String → N) where
  -- a part that is no object: the caller keeps it, and where it is truthy an object is sent for it
  abbrev pub IsOther : String → Option (Value N) → Option (Value N) → Option (Value N) → Type 0
  IsOther id part sent left =
      (left ≡ part)
      × (((holds js part ≡ false) × (sent ≡ part))
          ⊎ ((holds js part ≡ true)
              × (fs : Fields N) × (sent ≡ some (object fs))
              × (get_field "order_id" fs ≡ some (text id))))

  -- A part that is an object is sent with the order's id, and its amount, if it is a text, as a number;
  -- the caller's has the number, too, and keeps its order id.
  abbrev pub IsPart :
      String → Part → Option (Value N) → Option (Value N) → Option (Value N) → Type 0
  IsPart id p (some (object gs)) sent left =
      (fs : Fields N) × (hs : Fields N) × (sent ≡ some (object fs))
      × (left ≡ some (object hs))
      × ((k : String)
          → get_field k fs ≡ (if "order_id" == k then some (text id) else get_field k hs))
      × IsParsed parse_float (amount_name p) gs hs
  IsPart id p part sent left = IsOther id part sent left

  abbrev pub sent_part : String → Part → Value N → Value N
  sent_part id p v = with_order_id js id (parse_amount parse_float (amount_name p) v)

  abbrev pub left_part : Part → Value N → Value N
  left_part p v = parse_amount parse_float (amount_name p) v

  changed-IsOther :
      (id : String) (p : Part) (v : Value N)
      → left_part p v ≡ v
      → IsOther id
          (some v)
          (changed js (sent_part id p) (some v))
          (changed js (left_part p) (some v))
  unfolding with_order_id
  changed-IsOther id p v e = elim (Bool-cases (holds js (some v))) [
    | inl t ↦
        let fs = fields (entries js v) in
        (
          rw t (ap some e),
          inr (t, set_field "order_id" (text id) fs, rw (t, e) refl, get-set_self "order_id" _ fs),
        )
    | inr t ↦ (rw t refl, inl (t, rw t refl))
  ]

  pub changed-IsPart :
      (id : String) (p : Part) (part : Option (Value N))
      → IsPart id p part (changed js (sent_part id p) part) (changed js (left_part p) part)
  unfolding with_order_id parse_amount
  changed-IsPart id p (some (object gs)) =
      let (hs, e, parsed) = parse_amount-IsParsed parse_float (amount_name p) gs in
      (
        set_field "order_id" (text id) hs,
        hs,
        ap (λ v. some (with_order_id js id v)) e
            ∙ ap (λ fs. some (object (set_field "order_id" (text id) fs))) (fields-entries js hs),
        ap some e,
        (λ k. get-set "order_id" k (text id) hs),
        parsed,
      )
  changed-IsPart id p none = (refl, inl (refl, refl))
  changed-IsPart id p (some null) = changed-IsOther id p null refl
  changed-IsPart id p (some (boolean b)) = changed-IsOther id p (boolean b) refl
  changed-IsPart id p (some (number n)) = changed-IsOther id p (number n) refl
  changed-IsPart id p (some (text s)) = changed-IsOther id p (text s) refl
  changed-IsPart id p (some (array vs)) = changed-IsOther id p (array vs) refl
