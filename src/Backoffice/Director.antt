-- ===== src/Backoffice/Director.antt =====
-- The modules of frontend-dashboard/src/backoffice/core/builders/BackofficeDirector.tsx: their titles,
-- paths and endpoints. The icons, permissions and screens are of a type `A`, given for each module.
use synkro.Base.{String, [], ◌∷◌, Result}
use synkro.Backoffice.Builder.{BackofficeConfig}
use synkro.Backoffice.Builder.Plain.{
  PlainModule, new_builder, config_is, endpoint_is, nav_item_is, list_is, form_is, detail_is,
  set_all, build,
}

pub record Screens (A : Type 0) : Type 0 where
  pub rest : A
  pub nav_item : A
  pub list : A
  pub form : A
  pub detail : A

abbrev pub module_config : {A : Type 0} → String → String → Screens A → BackofficeConfig A
module_config title base_path s = record { title = title; base_path = base_path; rest = s.rest }

module _ {A : Type 0} where
  unfoldable pub build_customer_module : Screens A → Result (PlainModule A)
  unfolding set_all build
  build_customer_module s = build (
      set_all
        (config_is (module_config "Customers" "/backoffice/customers" s)
          ∷ endpoint_is "/api/customers"
          ∷ nav_item_is s.nav_item
          ∷ list_is s.list
          ∷ form_is s.form
          ∷ detail_is s.detail
          ∷ [])
        new_builder)

  unfoldable pub build_warehouse_module : Screens A → Result (PlainModule A)
  unfolding set_all build
  build_warehouse_module s = build (
      set_all
        (config_is (module_config "Warehouses" "/backoffice/warehouses" s)
          ∷ endpoint_is "/api/warehouses"
          ∷ nav_item_is s.nav_item
          ∷ list_is s.list
          ∷ form_is s.form
          ∷ detail_is s.detail
          ∷ [])
        new_builder)

  unfoldable pub build_inventory_module : Screens A → Result (PlainModule A)
  unfolding set_all build
  build_inventory_module s = build (
      set_all
        (config_is (module_config "Inventory" "/backoffice/inventory" s)
          ∷ endpoint_is "/api/inventory"
          ∷ nav_item_is s.nav_item
          ∷ list_is s.list
          ∷ form_is s.form
          ∷ detail_is s.detail
          ∷ [])
        new_builder)

  unfoldable pub build_order_module : Screens A → Result (PlainModule A)
  unfolding set_all build
  build_order_module s = build (
      set_all
        (config_is (module_config "Orders" "/backoffice/orders" s)
          ∷ endpoint_is "/api/orders"
          ∷ nav_item_is s.nav_item
          ∷ list_is s.list
          ∷ form_is s.form
          ∷ detail_is s.detail
          ∷ [])
        new_builder)

  unfoldable pub build_inventory_transactions_module : Screens A → Result (PlainModule A)
  unfolding set_all build
  build_inventory_transactions_module s = build (
      set_all
        (config_is (module_config "Inv. Transactions" "/backoffice/transactions" s)
          ∷ endpoint_is "/api/inventory/transactions"
          ∷ nav_item_is s.nav_item
          ∷ form_is s.form
          ∷ list_is s.list
          ∷ detail_is s.detail
          ∷ [])
        new_builder)

  unfoldable pub build_inventory_reservations_module : Screens A → Result (PlainModule A)
  unfolding set_all build
  build_inventory_reservations_module s = build (
      set_all
        (config_is (module_config "Inv. Reservations" "/backoffice/reservations" s)
          ∷ endpoint_is "/api/inventory/reservations"
          ∷ nav_item_is s.nav_item
          ∷ form_is s.form
          ∷ list_is s.list
          ∷ detail_is s.detail
          ∷ [])
        new_builder)
