-- ===== src/Backoffice/Store/Laws.antt =====
-- The paths of the modules lead to them.
use Prim.Native.String
use synkro.Base.{String, false, Option, some, ◌≡◌, ◌⊎◌, inl, inr, refl, ap, ok}
use synkro.Backoffice.Builder.Plain.{PlainModule}
use synkro.Backoffice.Store.{
  BackofficeState, AllScreens, initialize, get_module_by_path_segment, resolve,
}

pub data ModuleKey : Type 0 where
  the_customers the_warehouses the_inventory the_orders the_transactions the_reservations :
      ModuleKey

abbrev pub key_text : ModuleKey → String
key_text the_customers = "customers"
key_text the_warehouses = "warehouses"
key_text the_inventory = "inventory"
key_text the_orders = "orders"
key_text the_transactions = "transactions"
key_text the_reservations = "reservations"

-- The key in the singular; for the one key that has no plural form, with an `s`.
abbrev pub other_text : ModuleKey → String
other_text the_customers = "customer"
other_text the_warehouses = "warehouse"
other_text the_inventory = "inventorys"
other_text the_orders = "order"
other_text the_transactions = "transaction"
other_text the_reservations = "reservation"

abbrev pub endpoint_text : ModuleKey → String
endpoint_text the_customers = "/api/customers"
endpoint_text the_warehouses = "/api/warehouses"
endpoint_text the_inventory = "/api/inventory"
endpoint_text the_orders = "/api/orders"
endpoint_text the_transactions = "/api/inventory/transactions"
endpoint_text the_reservations = "/api/inventory/reservations"

-- The module with the path of a key and the endpoint of its resource.
abbrev pub IsFound : {A : Type 0} → ModuleKey → Option (PlainModule A) → Type 0
IsFound {A} k found =
    (m : PlainModule A) × (found ≡ some m)
    × (m.config.base_path ≡ String.◌++◌ "/backoffice/" (key_text k))
    × (m.api_endpoint ≡ endpoint_text k)

module _ {A : Type 0} (screens : AllScreens A) (to_lower_case : String → String) where
  started : BackofficeState A → BackofficeState A
  unfolding initialize
  started s = (initialize screens (record s { is_initialized = false })).1

  key-IsFound :
      (k : ModuleKey) (s : BackofficeState A) (segment : String)
      → to_lower_case segment ≡ key_text k
      → IsFound k (get_module_by_path_segment to_lower_case (started s) segment)
  unfolding started initialize get_module_by_path_segment
  key-IsFound the_customers s segment e = (_, ap (resolve to_lower_case (started s)) e, refl, refl)
  key-IsFound the_warehouses s segment e = (_, ap (resolve to_lower_case (started s)) e, refl, refl)
  key-IsFound the_inventory s segment e = (_, ap (resolve to_lower_case (started s)) e, refl, refl)
  key-IsFound the_orders s segment e = (_, ap (resolve to_lower_case (started s)) e, refl, refl)
  key-IsFound the_transactions s segment e =
      (_, ap (resolve to_lower_case (started s)) e, refl, refl)
  key-IsFound the_reservations s segment e =
      (_, ap (resolve to_lower_case (started s)) e, refl, refl)

  other-IsFound :
      (k : ModuleKey) (s : BackofficeState A) (segment : String)
      → to_lower_case segment ≡ other_text k
      → IsFound k (get_module_by_path_segment to_lower_case (started s) segment)
  unfolding started initialize get_module_by_path_segment
  other-IsFound the_customers s segment e =
      (_, ap (resolve to_lower_case (started s)) e, refl, refl)
  other-IsFound the_warehouses s segment e =
      (_, ap (resolve to_lower_case (started s)) e, refl, refl)
  other-IsFound the_inventory s segment e =
      (_, ap (resolve to_lower_case (started s)) e, refl, refl)
  other-IsFound the_orders s segment e = (_, ap (resolve to_lower_case (started s)) e, refl, refl)
  other-IsFound the_transactions s segment e =
      (_, ap (resolve to_lower_case (started s)) e, refl, refl)
  other-IsFound the_reservations s segment e =
      (_, ap (resolve to_lower_case (started s)) e, refl, refl)

  -- Initialising the store succeeds, a second time changes nothing, and then the path segment of each
  -- module, in any case and with or without its last `s`, leads to the module with that path below
  -- `/backoffice/` and with the endpoint of its resource.
  pub initialize-IsFound :
      (k : ModuleKey) (s : BackofficeState A) (segment : String)
      → s.is_initialized ≡ false
      → (to_lower_case segment ≡ key_text k) ⊎ (to_lower_case segment ≡ other_text k)
      → let (r, s') = initialize screens s in
        (r ≡ ok tt)
        × (initialize screens s' ≡ (ok tt, s'))
        × IsFound k (get_module_by_path_segment to_lower_case s' segment)
  unfolding initialize started
  initialize-IsFound k s segment new named = rw new (
    refl,
    refl,
    elim named [ inl e ↦ key-IsFound k s segment e | inr e ↦ other-IsFound k s segment e ],
  )
