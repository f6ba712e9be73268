-- ===== src/Http/Hooks/Routes.antt =====
-- The calls of the methods of frontend-dashboard/src/hooks.
use synkro.Base.{ℕ, String, true, Option, none, some, template, Result}
use synkro.AuthApp.Store.{Json}
use synkro.AuthApp.Messaging.{Person}
use synkro.Dashboard.Session.{AuthConfig, Browser}
use synkro.Http.{FetchCall, Outcome, ApiService, Window}
use synkro.Http.Calls.{ApiCall, get, post, put, delete, perform}
use synkro.Http.Hooks.{Hook, track}

-- The data of a call: the caller's, or an object with one field.
pub data Payload (D : Type 0) : Type 0 where
  whole : D → Payload D
  with_status : String → Payload D
  with_quantity : ℕ → Payload D
  with_amount : Option ℕ → Payload D

abbrev pub Call : Type 0 → Type 0
Call D = ApiCall (Unit {0}) (Payload D)

-- The template `${path}/${id}`, and `${path}/${id}/${rest}`.
abbrev pub at_id : String → String → String
at_id path id = template path "/" id

abbrev pub under_id : String → String → String → String
under_id path id rest = at_id path (at_id id rest)

pub data OrderMethod (D : Type 0) : Type 0 where
  list_orders : OrderMethod D
  get_order : String → OrderMethod D
  create_order : D → OrderMethod D
  update_order : String → D → OrderMethod D
  update_order_status : String → String → OrderMethod D
  get_order_items : String → OrderMethod D
  update_order_item : String → String → D → OrderMethod D
  delete_order_item : String → String → OrderMethod D

pub data PaymentMethod (D : Type 0) : Type 0 where
  list_payments : PaymentMethod D
  get_payment : String → PaymentMethod D
  create_payment : D → PaymentMethod D
  update_payment : String → D → PaymentMethod D
  delete_payment process_payment : String → PaymentMethod D
  refund_payment : String → Option ℕ → PaymentMethod D

pub data ShippingMethod (D : Type 0) : Type 0 where
  list_shipments : ShippingMethod D
  get_shipment : String → ShippingMethod D
  create_shipment : D → ShippingMethod D
  update_shipment : String → D → ShippingMethod D
  delete_shipment : String → ShippingMethod D
  update_shipment_status : String → String → ShippingMethod D
  mark_as_delivered get_shipment_by_tracking : String → ShippingMethod D

pub data InventoryMethod (D : Type 0) : Type 0 where
  list_inventory_items : InventoryMethod D
  get_inventory_item : String → InventoryMethod D
  create_inventory_item : D → InventoryMethod D
  update_inventory_item : String → D → InventoryMethod D
  delete_inventory_item : String → InventoryMethod D
  adjust_quantity : String → ℕ → InventoryMethod D
  list_transactions : InventoryMethod D
  create_transaction : D → InventoryMethod D
  list_reservations : InventoryMethod D
  create_reservation : D → InventoryMethod D
  update_reservation : String → D → InventoryMethod D
  delete_reservation : String → InventoryMethod D

pub data CustomerMethod (D : Type 0) : Type 0 where
  list_customers : CustomerMethod D
  get_customer : String → CustomerMethod D
  create_customer : D → CustomerMethod D
  update_customer : String → D → CustomerMethod D
  delete_customer : String → CustomerMethod D

module _ {D : Type 0} where
  unfoldable pub order_call : OrderMethod D → Call D
  order_call list_orders = get "/api/orders" none
  order_call (get_order id) = get (at_id "/api/orders" id) none
  order_call (create_order d) = post "/api/orders" (some (whole d))
  order_call (update_order id d) = put (at_id "/api/orders" id) (some (whole d))
  order_call (update_order_status id status) =
      put (under_id "/api/orders" id "status") (some (with_status status))
  order_call (get_order_items id) = get (under_id "/api/orders" id "items") none
  order_call (update_order_item id item d) =
      put (under_id "/api/orders" id (at_id "items" item)) (some (whole d))
  order_call (delete_order_item id item) = delete (under_id "/api/orders" id (at_id "items" item))

  unfoldable pub payment_call : PaymentMethod D → Call D
  payment_call list_payments = get "/api/payments" none
  payment_call (get_payment id) = get (at_id "/api/payments" id) none
  payment_call (create_payment d) = post "/api/payments" (some (whole d))
  payment_call (update_payment id d) = put (at_id "/api/payments" id) (some (whole d))
  payment_call (delete_payment id) = delete (at_id "/api/payments" id)
  payment_call (process_payment id) = post (under_id "/api/payments" id "process") none
  payment_call (refund_payment id amount) =
      post (under_id "/api/payments" id "refund") (some (with_amount amount))

  unfoldable pub shipping_call : ShippingMethod D → Call D
  shipping_call list_shipments = get "/api/shipping" none
  shipping_call (get_shipment id) = get (at_id "/api/shipping" id) none
  shipping_call (create_shipment d) = post "/api/shipping" (some (whole d))
  shipping_call (update_shipment id d) = put (at_id "/api/shipping" id) (some (whole d))
  shipping_call (delete_shipment id) = delete (at_id "/api/shipping" id)
  shipping_call (update_shipment_status id status) =
      put (under_id "/api/shipping" id "status") (some (with_status status))
  shipping_call (mark_as_delivered id) = post (under_id "/api/shipping" id "deliver") none
  shipping_call (get_shipment_by_tracking number) =
      get (under_id "/api/shipping" "tracking" number) none

  unfoldable pub inventory_call : InventoryMethod D → Call D
  inventory_call list_inventory_items = get "/api/inventory" none
  inventory_call (get_inventory_item id) = get (at_id "/api/inventory" id) none
  inventory_call (create_inventory_item d) = post "/api/inventory" (some (whole d))
  inventory_call (update_inventory_item id d) = put (at_id "/api/inventory" id) (some (whole d))
  inventory_call (delete_inventory_item id) = delete (at_id "/api/inventory" id)
  inventory_call (adjust_quantity id quantity) =
      put (under_id "/api/inventory" id "adjust") (some (with_quantity quantity))
  inventory_call list_transactions = get "/api/inventory/transactions" none
  inventory_call (create_transaction d) = post "/api/inventory/transactions" (some (whole d))
  inventory_call list_reservations = get "/api/inventory/reservations" none
  inventory_call (create_reservation d) = post "/api/inventory/reservations" (some (whole d))
  inventory_call (update_reservation id d) =
      put (under_id "/api/inventory" "reservations" id) (some (whole d))
  inventory_call (delete_reservation id) = delete (under_id "/api/inventory" "reservations" id)

  unfoldable pub customer_call : CustomerMethod D → Call D
  customer_call list_customers = get "/api/customers" none
  customer_call (get_customer id) = get (at_id "/api/customers" id) none
  customer_call (create_customer d) = post "/api/customers" (some (whole d))
  customer_call (update_customer id d) = put (at_id "/api/customers" id) (some (whole d))
  customer_call (delete_customer id) = delete (at_id "/api/customers" id)

-- A method of one of the five hooks, and its call.
pub data Method (D : Type 0) : Type 0 where
  orders : OrderMethod D → Method D
  payments : PaymentMethod D → Method D
  shipping : ShippingMethod D → Method D
  inventory : InventoryMethod D → Method D
  customers : CustomerMethod D → Method D

module _ {D : Type 0} where
  unfoldable pub hook_call : Method D → Call D
  unfolding order_call payment_call shipping_call inventory_call customer_call
  hook_call (orders m) = order_call m
  hook_call (payments m) = payment_call m
  hook_call (shipping m) = shipping_call m
  hook_call (inventory m) = inventory_call m
  hook_call (customers m) = customer_call m

-- A method of a hook over its `ApiService`.
unfoldable pub hook_method :
    {D B : Type 0}
    → AuthConfig
    → Json Person
    → Browser
    → (String → Option (Unit {0}) → String)
    → (ℕ → String)
    → ApiService
    → (Payload D → B)
    → (FetchCall B → Outcome B)
    → Method D
    → Hook
    → Window
    → Result B × Hook × Window
unfolding track perform
hook_method auth codec browser url show service stringify fetch m h w =
    track (perform auth codec browser url show service stringify (λ d. true) fetch (hook_call m)) h
      w
