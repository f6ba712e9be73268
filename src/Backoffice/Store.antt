-- ===== src/Backoffice/Store.antt =====
-- frontend-dashboard/src/backoffice/core/builders/BackofficeStore.tsx: the store of the modules. The
-- screens of the modules and `toLowerCase` are arguments; the base URL reaches only `ApiService`.
pub mod Laws
use Prim.Native.String
use Prim.Native.String.{[], ◌∷◌}
use synkro.Base.{
  String, code, Bool, true, false, ◌&&◌, Option, none, some, List, ◌==◌, eqb, if◌then◌else◌, Result,
  ok, err,
}
use synkro.Backoffice.Builder.Plain.{PlainModule}
use synkro.Backoffice.Director.{
  Screens, build_customer_module, build_warehouse_module, build_inventory_module,
  build_order_module, build_inventory_transactions_module, build_inventory_reservations_module,
}

abbrev pub Modules : Type 0 → Type 0
Modules A = List (String × PlainModule A)

pub record BackofficeState (A : Type 0) : Type 0 where
  pub modules : Modules A
  pub is_initialized : Bool

-- the screens of each module
pub record AllScreens (A : Type 0) : Type 0 where
  pub customers : Screens A
  pub warehouses : Screens A
  pub inventory : Screens A
  pub orders : Screens A
  pub transactions : Screens A
  pub reservations : Screens A

-- `s.endsWith("s") ? s.slice(0, -1) : none`
abbrev pub ends_with_s : String → Bool
ends_with_s [] = false
ends_with_s (c ∷ s) = if s == "" then eqb (code c) b's' else ends_with_s s

abbrev pub without_last : String → String
without_last [] = []
without_last (c ∷ s) = let rest = without_last s in if s == "" then [] else c ∷ rest

-- `modules[name]`
abbrev pub module_at : {A : Type 0} → String → Modules A → Option (PlainModule A)
module_at name List.[] = none
module_at name (List.◌∷◌ (key, m) rest) = if key == name then some m else module_at name rest

-- the modules that are built, unless a build throws
abbrev pub all_built : {A : Type 0} → List (String × Result (PlainModule A)) → Result (Modules A)
all_built List.[] = ok List.[]
all_built (List.◌∷◌ (key, r) rest) =
    let others = all_built rest in
    elim r [
      | err e ↦ err e
      | ok m ↦ elim others [ err e ↦ err e | ok ms ↦ ok (List.◌∷◌ (key, m) ms) ]
    ]

module _ {A : Type 0} where
  abbrev pub get_module : BackofficeState A → String → Option (PlainModule A)
  get_module s name = module_at name s.modules

  unfoldable pub initialize :
      AllScreens A → BackofficeState A → Result (Unit {0}) × BackofficeState A
  unfolding build_customer_module build_warehouse_module build_inventory_module build_order_module
      build_inventory_transactions_module build_inventory_reservations_module
  initialize screens s =
      if s.is_initialized
      then (ok tt, s)
      else elim (all_built (
          List.◌∷◌ ("customers", build_customer_module screens.customers)
            (List.◌∷◌ ("warehouses", build_warehouse_module screens.warehouses)
              (List.◌∷◌ ("inventory", build_inventory_module screens.inventory)
                (List.◌∷◌ ("orders", build_order_module screens.orders)
                  (List.◌∷◌
                    ("transactions", build_inventory_transactions_module screens.transactions)
                    (List.◌∷◌
                      ("reservations", build_inventory_reservations_module screens.reservations)
                      List.[]))))))) [
                        | err e ↦ (err e, s)
                        | ok modules ↦ (ok tt, record { modules = modules; is_initialized = true })
                      ]

  module _ (to_lower_case : String → String) where
    -- the loop over the keys
    abbrev pub find_key : String → Modules A → Option (PlainModule A)
    find_key segment List.[] = none
    find_key segment (List.◌∷◌ (key, m) rest) =
        if to_lower_case key == segment then some m else find_key segment rest

    -- the lookup of a segment that is in lower case
    abbrev pub resolve : BackofficeState A → String → Option (PlainModule A)
    resolve s segment = elim (module_at segment s.modules) [
      | some m ↦ some m
      | none ↦
          elim (if ends_with_s segment then module_at (without_last segment) s.modules else none) [
            | some m ↦ some m
            | none ↦ elim (module_at (String.◌++◌ segment "s") s.modules) [
              | some m ↦ some m
              | none ↦ find_key segment s.modules
            ]
          ]
    ]

    unfoldable pub get_module_by_path_segment : BackofficeState A → String → Option (PlainModule A)
    get_module_by_path_segment s path_segment = resolve s (to_lower_case path_segment)
