-- ===== src/Backoffice/Orders/Sending/Laws.antt =====
-- What the orders module sends of an order, and what it leaves to its caller.
use synkro.Base.{
  ℕ, String, false, Option, some, ◌≡◌, refl, sym, ◌∙◌, ap, ◌==◌, eq_iff, inl, inr, Bool-cases,
  subst, ◌⊎◌,
}
use synkro.Http.Calls.{post, put}
use synkro.Backoffice.Builder.{Builder, endpoint_text, join_path}
use synkro.Analytics.Values.{Value, object, Fields, BuiltIns, get_field}
use synkro.Backoffice.Orders.Sending.{
  Part, shipping, payment, part_name, change_part, modified_data, data_afterwards, generate_uuid,
  create_order, update_order,
}
use synkro.Backoffice.Orders.Sending.Parts.{
  changed, change_part-same, change_part-other, sent_part, left_part, changed-IsPart, IsPart,
}

module _ {N : Type 0} (js : BuiltIns N) (parse_float : String → N) where
  -- what becomes of the data, field by field
  abbrev pub IsModified : String → Fields N → Fields N → Fields N → Type 0
  IsModified id dat sent left =
      ((p : Part)
        → IsPart js parse_float id p (get_field (part_name p) dat) (get_field (part_name p) sent)
            (get_field (part_name p) left))
      × ((k : String)
          → ((get_field k sent ≡ get_field k dat) × (get_field k left ≡ get_field k dat))
            ⊎ ((p : Part) × (part_name p ≡ k)))

  module _ (f : Part → Value N → Value N) (dat : Fields N) where
    abbrev both : Fields N
    both = change_part js (f payment) payment (change_part js (f shipping) shipping dat)

    both-part :
        (p : Part) → get_field (part_name p) both ≡ changed js (f p) (get_field (part_name p) dat)
    both-part shipping =
        change_part-other js (f payment) payment "shipping_info" _ refl
        ∙ change_part-same js (f shipping) shipping dat
    both-part payment =
        change_part-same js (f payment) payment _
        ∙ ap (changed js (f payment))
            (change_part-other js (f shipping) shipping "payment_info" dat refl)

    both-other :
        (k : String)
        → ("shipping_info" == k) ≡ false
        → ("payment_info" == k) ≡ false
        → get_field k both ≡ get_field k dat
    both-other k s t =
        change_part-other js (f payment) payment k _ t
        ∙ change_part-other js (f shipping) shipping k dat s

  part_cases :
      (k : String)
      → ((p : Part) × (part_name p ≡ k))
        ⊎ ((("shipping_info" == k) ≡ false) × (("payment_info" == k) ≡ false))
  part_cases k = elim (Bool-cases ("shipping_info" == k)) [
    | inl s ↦ inl (shipping, (eq_iff "shipping_info" k).0 s)
    | inr s ↦ elim (Bool-cases ("payment_info" == k)) [
      | inl t ↦ inl (payment, (eq_iff "payment_info" k).0 t)
      | inr t ↦ inr (s, t)
    ]
  ]

  data-IsModified :
      (id : String) (dat : Fields N)
      → IsModified id dat (modified_data js parse_float id dat) (data_afterwards js parse_float dat)
  unfolding modified_data data_afterwards
  data-IsModified id dat = (
    (λ p.
        let part = get_field (part_name p) dat in
        let left = get_field (part_name p) (both (left_part js parse_float) dat) in
        let sent = changed js (sent_part js parse_float id p) part in
        subst (λ o. IsPart js parse_float id p part o left)
          (sym (both-part (sent_part js parse_float id) dat p))
          (subst (λ o. IsPart js parse_float id p part sent o)
            (sym (both-part (left_part js parse_float) dat p))
            (changed-IsPart js parse_float id p part))),
    λ k. elim (part_cases k) [
      | inl part ↦ inr part
      | inr (s, t) ↦ inl (
        both-other (sent_part js parse_float id) dat k s t,
        both-other (left_part js parse_float) dat k s t,
      )
    ],
  )

  -- An order is created by one POST to the endpoint of the module and updated by one PUT to that of the
  -- order. A shipping or payment part that is an object is sent with the order's id (a new UUID for a new
  -- order) as `order_id`, and with its amount as a number, if it is a text; its other fields, and all
  -- other fields of the order, are sent as they are. The parts that the caller keeps have the numbers,
  -- too, but no new id.
  pub orders-IsModified :
      {A : Type 0} (b : Builder A) (crypto_uuid : Option String) (random : ℕ → ℕ) (id : String)
      (dat : Fields N)
      → ((sent : Fields N) × ((create_order js parse_float b crypto_uuid random dat).0
            ≡ post (endpoint_text b) (some (object sent)))
          × IsModified
              (generate_uuid crypto_uuid random)
              dat
              sent
              (create_order js parse_float b crypto_uuid random dat).1)
        × ((sent : Fields N) × ((update_order js parse_float b id dat).0
              ≡ put (join_path (endpoint_text b) id) (some (object sent)))
            × IsModified id dat sent (update_order js parse_float b id dat).1)
  unfolding create_order update_order
  orders-IsModified b crypto_uuid random id dat =
      let new_id = generate_uuid crypto_uuid random in
      (
        (modified_data js parse_float new_id dat, refl, data-IsModified new_id dat),
        (modified_data js parse_float id dat, refl, data-IsModified id dat),
      )
