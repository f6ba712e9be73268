-- ===== src/Backoffice/Orders/Tests.antt =====
-- Orders as frontend-dashboard/src/backoffice/core/builders/BackofficeDirector.tsx sends them.
use synkro.Base.{ℕ, String, none, some, [], ◌∷◌, ◌≡◌, refl}
use synkro.Http.Calls.{post, put}
use synkro.Backoffice.Builder.{Builder, new_builder}
use synkro.Analytics.Values.{number, text, object, Fields, fields, obj, get_field, set_field}
use synkro.Analytics.Tests.{js}
use synkro.Backoffice.Orders.Sending.{
  generate_uuid, modified_data, data_afterwards, create_order, update_order,
}
use synkro.Backoffice.Orders.Sending.Laws.{IsModified, orders-IsModified}

abbrev orders : Builder (Unit {0})
orders = record new_builder { api_endpoint = some "/orders" }

abbrev parse_float : String → ℕ
parse_float s = 7

-- a shipping part with a text, a payment part, and another field
abbrev order : Fields ℕ
order = fields (
    ("customer_id", text "c1")
    ∷ ("shipping_info", obj (("shipping_cost", text "7.00") ∷ ("city", text "Rome") ∷ []))
    ∷ ("payment_info", obj (("amount", number 3) ∷ []))
    ∷ [])

sent_order :
    modified_data js parse_float "o1" order
    ≡ fields (
        ("customer_id", text "c1")
        ∷ (
          "shipping_info",
          obj (("shipping_cost", number 7) ∷ ("city", text "Rome") ∷ ("order_id", text "o1") ∷ []),
        )
        ∷ ("payment_info", obj (("amount", number 3) ∷ ("order_id", text "o1") ∷ []))
        ∷ [])
unfolding modified_data get_field set_field
sent_order = refl

kept_order :
    data_afterwards js parse_float order
    ≡ fields (
        ("customer_id", text "c1")
        ∷ ("shipping_info", obj (("shipping_cost", number 7) ∷ ("city", text "Rome") ∷ []))
        ∷ ("payment_info", obj (("amount", number 3) ∷ []))
        ∷ [])
unfolding data_afterwards get_field set_field
kept_order = refl

uuid : generate_uuid none (λ n. 11) ≡ "bbbbbbbb-bbbb-4bbb-bbbb-bbbbbbbbbbbb"
unfolding generate_uuid
uuid = refl

orders-IsModified_example :
    ((sent : Fields ℕ) × ((create_order js parse_float orders none (λ n. 11) order).0
        ≡ post "/orders" (some (object sent)))
      × IsModified js parse_float
          (generate_uuid none (λ n. 11))
          order
          sent
          (create_order js parse_float orders none (λ n. 11) order).1)
    × ((sent : Fields ℕ) × ((update_order js parse_float orders "o1" order).0
          ≡ put "/orders/o1" (some (object sent)))
        × IsModified js parse_float "o1" order sent
            (update_order js parse_float orders "o1" order).1)
orders-IsModified_example = orders-IsModified js parse_float orders none (λ n. 11) "o1" order
