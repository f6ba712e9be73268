-- ===== src/Http/Hooks/Described.antt =====
-- The API of the five resources, and the calls of the hooks' methods.
use Prim.Native.String
use Prim.Native.String.{[], ◌∷◌}
use synkro.Base.{String, true, Option, none, some, ◌≡◌, refl, ◌∙◌, arith, List}
use synkro.Http.{starts_with_slash}
use synkro.Http.Calls.{endpoint_of, method_of, data_of}
use synkro.Http.Hooks.Routes.{
  Payload, whole, with_status, with_quantity, with_amount, Call, OrderMethod, list_orders,
  get_order, create_order, update_order, update_order_status, get_order_items, update_order_item,
  delete_order_item, PaymentMethod, list_payments, get_payment, create_payment, update_payment,
  delete_payment, process_payment, refund_payment, ShippingMethod, list_shipments, get_shipment,
  create_shipment, update_shipment, delete_shipment, update_shipment_status, mark_as_delivered,
  get_shipment_by_tracking, InventoryMethod, list_inventory_items, get_inventory_item,
  create_inventory_item, update_inventory_item, delete_inventory_item, adjust_quantity,
  list_transactions, create_transaction, list_reservations, create_reservation, update_reservation,
  delete_reservation, CustomerMethod, list_customers, get_customer, create_customer,
  update_customer, delete_customer, order_call, payment_call, shipping_call, inventory_call,
  customer_call, Method, orders, payments, shipping, inventory, customers, hook_call,
}

slash-append :
    (s t : String) → starts_with_slash s ≡ true → starts_with_slash (String.◌++◌ s t) ≡ true
slash-append [] t h = absurd (ground arith)
slash-append (c ∷ s) t h = (λ i. starts_with_slash (String.append.cons c s t i)) ∙ h

-- The path of a resource, and one below it.
abbrev pub below : String → List String → String
below path List.[] = path
below path (List.◌∷◌ s ss) = String.◌++◌ path (String.◌++◌ "/" (below s ss))

below-slash :
    (path : String) (ss : List String)
    → starts_with_slash path ≡ true
    → starts_with_slash (below path ss) ≡ true
below-slash path List.[] h = h
below-slash path (List.◌∷◌ s ss) h = slash-append path (String.◌++◌ "/" (below s ss)) h

-- What a method asks for: the verb, the path and the data.
pub record Described (D : Type 0) : Type 0 where
  pub verb : String
  pub path : String
  pub content : Option (Payload D)

-- The API of the five resources.
module _ {D : Type 0} where
  abbrev asks : String → String → Option (Payload D) → Described D
  asks verb path content = record { verb = verb; path = path; content = content }

  abbrev order_described : OrderMethod D → Described D
  order_described list_orders = asks "GET" "/api/orders" none
  order_described (get_order id) = asks "GET" (below "/api/orders" (List.◌∷◌ id List.[])) none
  order_described (create_order d) = asks "POST" "/api/orders" (some (whole d))
  order_described (update_order id d) =
      asks "PUT" (below "/api/orders" (List.◌∷◌ id List.[])) (some (whole d))
  order_described (update_order_status id status) =
      asks "PUT" (below "/api/orders" (List.◌∷◌ id (List.◌∷◌ "status" List.[])))
        (some (with_status status))
  order_described (get_order_items id) =
      asks "GET" (below "/api/orders" (List.◌∷◌ id (List.◌∷◌ "items" List.[]))) none
  order_described (update_order_item id item d) =
      asks "PUT" (below "/api/orders" (List.◌∷◌ id (List.◌∷◌ "items" (List.◌∷◌ item List.[]))))
        (some (whole d))
  order_described (delete_order_item id item) =
      asks "DELETE" (below "/api/orders" (List.◌∷◌ id (List.◌∷◌ "items" (List.◌∷◌ item List.[]))))
        none

  abbrev payment_described : PaymentMethod D → Described D
  payment_described list_payments = asks "GET" "/api/payments" none
  payment_described (get_payment id) = asks "GET" (below "/api/payments" (List.◌∷◌ id List.[])) none
  payment_described (create_payment d) = asks "POST" "/api/payments" (some (whole d))
  payment_described (update_payment id d) =
      asks "PUT" (below "/api/payments" (List.◌∷◌ id List.[])) (some (whole d))
  payment_described (delete_payment id) =
      asks "DELETE" (below "/api/payments" (List.◌∷◌ id List.[])) none
  payment_described (process_payment id) =
      asks "POST" (below "/api/payments" (List.◌∷◌ id (List.◌∷◌ "process" List.[]))) none
  payment_described (refund_payment id amount) =
      asks "POST" (below "/api/payments" (List.◌∷◌ id (List.◌∷◌ "refund" List.[])))
        (some (with_amount amount))

  abbrev shipping_described : ShippingMethod D → Described D
  shipping_described list_shipments = asks "GET" "/api/shipping" none
  shipping_described (get_shipment id) =
      asks "GET" (below "/api/shipping" (List.◌∷◌ id List.[])) none
  shipping_described (create_shipment d) = asks "POST" "/api/shipping" (some (whole d))
  shipping_described (update_shipment id d) =
      asks "PUT" (below "/api/shipping" (List.◌∷◌ id List.[])) (some (whole d))
  shipping_described (delete_shipment id) =
      asks "DELETE" (below "/api/shipping" (List.◌∷◌ id List.[])) none
  shipping_described (update_shipment_status id status) =
      asks "PUT" (below "/api/shipping" (List.◌∷◌ id (List.◌∷◌ "status" List.[])))
        (some (with_status status))
  shipping_described (mark_as_delivered id) =
      asks "POST" (below "/api/shipping" (List.◌∷◌ id (List.◌∷◌ "deliver" List.[]))) none
  shipping_described (get_shipment_by_tracking number) =
      asks "GET" (below "/api/shipping" (List.◌∷◌ "tracking" (List.◌∷◌ number List.[]))) none

  abbrev inventory_described : InventoryMethod D → Described D
  inventory_described list_inventory_items = asks "GET" "/api/inventory" none
  inventory_described (get_inventory_item id) =
      asks "GET" (below "/api/inventory" (List.◌∷◌ id List.[])) none
  inventory_described (create_inventory_item d) = asks "POST" "/api/inventory" (some (whole d))
  inventory_described (update_inventory_item id d) =
      asks "PUT" (below "/api/inventory" (List.◌∷◌ id List.[])) (some (whole d))
  inventory_described (delete_inventory_item id) =
      asks "DELETE" (below "/api/inventory" (List.◌∷◌ id List.[])) none
  inventory_described (adjust_quantity id quantity) =
      asks "PUT" (below "/api/inventory" (List.◌∷◌ id (List.◌∷◌ "adjust" List.[])))
        (some (with_quantity quantity))
  inventory_described list_transactions =
      asks "GET" (below "/api/inventory" (List.◌∷◌ "transactions" List.[])) none
  inventory_described (create_transaction d) =
      asks "POST" (below "/api/inventory" (List.◌∷◌ "transactions" List.[])) (some (whole d))
  inventory_described list_reservations =
      asks "GET" (below "/api/inventory" (List.◌∷◌ "reservations" List.[])) none
  inventory_described (create_reservation d) =
      asks "POST" (below "/api/inventory" (List.◌∷◌ "reservations" List.[])) (some (whole d))
  inventory_described (update_reservation id d) =
      asks "PUT" (below "/api/inventory" (List.◌∷◌ "reservations" (List.◌∷◌ id List.[])))
        (some (whole d))
  inventory_described (delete_reservation id) =
      asks "DELETE" (below "/api/inventory" (List.◌∷◌ "reservations" (List.◌∷◌ id List.[]))) none

  abbrev customer_described : CustomerMethod D → Described D
  customer_described list_customers = asks "GET" "/api/customers" none
  customer_described (get_customer id) =
      asks "GET" (below "/api/customers" (List.◌∷◌ id List.[])) none
  customer_described (create_customer d) = asks "POST" "/api/customers" (some (whole d))
  customer_described (update_customer id d) =
      asks "PUT" (below "/api/customers" (List.◌∷◌ id List.[])) (some (whole d))
  customer_described (delete_customer id) =
      asks "DELETE" (below "/api/customers" (List.◌∷◌ id List.[])) none

  abbrev pub described : Method D → Described D
  described (orders m) = order_described m
  described (payments m) = payment_described m
  described (shipping m) = shipping_described m
  described (inventory m) = inventory_described m
  described (customers m) = customer_described m

  -- The call is the one that is described, and its path begins with a slash.
  abbrev pub IsDescribed : Call D → Described D → Type 0
  IsDescribed c d =
      (method_of c ≡ d.verb)
      × (endpoint_of c ≡ d.path)
      × (data_of c ≡ d.content)
      × (starts_with_slash d.path ≡ true)

  order-IsDescribed : (m : OrderMethod D) → IsDescribed (order_call m) (order_described m)
  unfolding order_call
  order-IsDescribed list_orders = (refl, refl, refl, refl)
  order-IsDescribed (get_order id) =
      (refl, refl, refl, below-slash "/api/orders" (List.◌∷◌ id List.[]) refl)
  order-IsDescribed (create_order d) = (refl, refl, refl, refl)
  order-IsDescribed (update_order id d) =
      (refl, refl, refl, below-slash "/api/orders" (List.◌∷◌ id List.[]) refl)
  order-IsDescribed (update_order_status id status) =
      (refl, refl, refl, below-slash "/api/orders" (List.◌∷◌ id (List.◌∷◌ "status" List.[])) refl)
  order-IsDescribed (get_order_items id) =
      (refl, refl, refl, below-slash "/api/orders" (List.◌∷◌ id (List.◌∷◌ "items" List.[])) refl)
  order-IsDescribed (update_order_item id item d) = (
    refl,
    refl,
    refl,
    below-slash "/api/orders" (List.◌∷◌ id (List.◌∷◌ "items" (List.◌∷◌ item List.[]))) refl,
  )
  order-IsDescribed (delete_order_item id item) = (
    refl,
    refl,
    refl,
    below-slash "/api/orders" (List.◌∷◌ id (List.◌∷◌ "items" (List.◌∷◌ item List.[]))) refl,
  )

  payment-IsDescribed : (m : PaymentMethod D) → IsDescribed (payment_call m) (payment_described m)
  unfolding payment_call
  payment-IsDescribed list_payments = (refl, refl, refl, refl)
  payment-IsDescribed (get_payment id) =
      (refl, refl, refl, below-slash "/api/payments" (List.◌∷◌ id List.[]) refl)
  payment-IsDescribed (create_payment d) = (refl, refl, refl, refl)
  payment-IsDescribed (update_payment id d) =
      (refl, refl, refl, below-slash "/api/payments" (List.◌∷◌ id List.[]) refl)
  payment-IsDescribed (delete_payment id) =
      (refl, refl, refl, below-slash "/api/payments" (List.◌∷◌ id List.[]) refl)
  payment-IsDescribed (process_payment id) = (
    refl,
    refl,
    refl,
    below-slash "/api/payments" (List.◌∷◌ id (List.◌∷◌ "process" List.[])) refl,
  )
  payment-IsDescribed (refund_payment id amount) =
      (refl, refl, refl, below-slash "/api/payments" (List.◌∷◌ id (List.◌∷◌ "refund" List.[])) refl)

  shipping-IsDescribed :
      (m : ShippingMethod D) → IsDescribed (shipping_call m) (shipping_described m)
  unfolding shipping_call
  shipping-IsDescribed list_shipments = (refl, refl, refl, refl)
  shipping-IsDescribed (get_shipment id) =
      (refl, refl, refl, below-slash "/api/shipping" (List.◌∷◌ id List.[]) refl)
  shipping-IsDescribed (create_shipment d) = (refl, refl, refl, refl)
  shipping-IsDescribed (update_shipment id d) =
      (refl, refl, refl, below-slash "/api/shipping" (List.◌∷◌ id List.[]) refl)
  shipping-IsDescribed (delete_shipment id) =
      (refl, refl, refl, below-slash "/api/shipping" (List.◌∷◌ id List.[]) refl)
  shipping-IsDescribed (update_shipment_status id status) =
      (refl, refl, refl, below-slash "/api/shipping" (List.◌∷◌ id (List.◌∷◌ "status" List.[])) refl)
  shipping-IsDescribed (mark_as_delivered id) = (
    refl,
    refl,
    refl,
    below-slash "/api/shipping" (List.◌∷◌ id (List.◌∷◌ "deliver" List.[])) refl,
  )
  shipping-IsDescribed (get_shipment_by_tracking number) = (
    refl,
    refl,
    refl,
    below-slash "/api/shipping" (List.◌∷◌ "tracking" (List.◌∷◌ number List.[])) refl,
  )

  inventory-IsDescribed :
      (m : InventoryMethod D) → IsDescribed (inventory_call m) (inventory_described m)
  unfolding inventory_call
  inventory-IsDescribed list_inventory_items = (refl, refl, refl, refl)
  inventory-IsDescribed (get_inventory_item id) =
      (refl, refl, refl, below-slash "/api/inventory" (List.◌∷◌ id List.[]) refl)
  inventory-IsDescribed (create_inventory_item d) = (refl, refl, refl, refl)
  inventory-IsDescribed (update_inventory_item id d) =
      (refl, refl, refl, below-slash "/api/inventory" (List.◌∷◌ id List.[]) refl)
  inventory-IsDescribed (delete_inventory_item id) =
      (refl, refl, refl, below-slash "/api/inventory" (List.◌∷◌ id List.[]) refl)
  inventory-IsDescribed (adjust_quantity id quantity) = (
    refl,
    refl,
    refl,
    below-slash "/api/inventory" (List.◌∷◌ id (List.◌∷◌ "adjust" List.[])) refl,
  )
  inventory-IsDescribed list_transactions =
      (refl, refl, refl, below-slash "/api/inventory" (List.◌∷◌ "transactions" List.[]) refl)
  inventory-IsDescribed (create_transaction d) =
      (refl, refl, refl, below-slash "/api/inventory" (List.◌∷◌ "transactions" List.[]) refl)
  inventory-IsDescribed list_reservations =
      (refl, refl, refl, below-slash "/api/inventory" (List.◌∷◌ "reservations" List.[]) refl)
  inventory-IsDescribed (create_reservation d) =
      (refl, refl, refl, below-slash "/api/inventory" (List.◌∷◌ "reservations" List.[]) refl)
  inventory-IsDescribed (update_reservation id d) = (
    refl,
    refl,
    refl,
    below-slash "/api/inventory" (List.◌∷◌ "reservations" (List.◌∷◌ id List.[])) refl,
  )
  inventory-IsDescribed (delete_reservation id) = (
    refl,
    refl,
    refl,
    below-slash "/api/inventory" (List.◌∷◌ "reservations" (List.◌∷◌ id List.[])) refl,
  )

  customer-IsDescribed :
      (m : CustomerMethod D) → IsDescribed (customer_call m) (customer_described m)
  unfolding customer_call
  customer-IsDescribed list_customers = (refl, refl, refl, refl)
  customer-IsDescribed (get_customer id) =
      (refl, refl, refl, below-slash "/api/customers" (List.◌∷◌ id List.[]) refl)
  customer-IsDescribed (create_customer d) = (refl, refl, refl, refl)
  customer-IsDescribed (update_customer id d) =
      (refl, refl, refl, below-slash "/api/customers" (List.◌∷◌ id List.[]) refl)
  customer-IsDescribed (delete_customer id) =
      (refl, refl, refl, below-slash "/api/customers" (List.◌∷◌ id List.[]) refl)

  pub call-IsDescribed : (m : Method D) → IsDescribed (hook_call m) (described m)
  unfolding hook_call
  call-IsDescribed (orders m) = order-IsDescribed m
  call-IsDescribed (payments m) = payment-IsDescribed m
  call-IsDescribed (shipping m) = shipping-IsDescribed m
  call-IsDescribed (inventory m) = inventory-IsDescribed m
  call-IsDescribed (customers m) = customer-IsDescribed m
