-- ===== src/Backoffice/Tests.antt =====
-- The back office at concrete inputs.
use synkro.Base.{
  ◌+◌, ◌-◌, not, eqb, ltb, if◌then◌else◌, ℕ, String, true, false, none, some, List, [], ◌∷◌, ◌++◌,
  map, ◌≡◌, inr, refl, sym, ap, ok,
}
use synkro.Widgets.Select.{Quantities, available_options}
use synkro.Backoffice.Builder.{
  BackofficeConfig, Builder, BackofficeModule, Call, set_config, set_api_endpoint,
  add_query_invalidation, reset, new_builder, run, build,
}
use synkro.Backoffice.Builder.Laws.{view, empty_view, replay, IsBuilt, run-IsBuilt}
use synkro.Backoffice.Builder.Plain as Plain
use synkro.Backoffice.Builder.Agreement.{call_of, SameBuild, build-agrees}
use synkro.Backoffice.Orders.{
  Product, option_of, OrderItem, same_value, as_option, select_product, remove_product,
}
use synkro.Backoffice.Orders.Laws.{forgotten, select_product-forgets}
use synkro.Backoffice.Stock.{StockItem}
use synkro.Backoffice.Director.{Screens}
use synkro.Backoffice.Store.{BackofficeState, AllScreens, initialize, get_module_by_path_segment}
use synkro.Backoffice.Store.Laws.{the_transactions, IsFound, initialize-IsFound}
use mathlib.Core.Option.{some-injective}
use synkro.Backoffice.Forms.{has_time, text, FormField, Form, Dates, handle_submit}
use synkro.Backoffice.Forms.Submit.{IsSubmitted, handle_submit-IsSubmitted}

-- text that is in lower case already
abbrev lower : String → String
lower s = s

abbrev config : BackofficeConfig (Unit {0})
config = record { title = "orders"; base_path = "/backoffice/orders"; rest = tt }

abbrev calls : List (Call (Unit {0}))
calls =
    set_api_endpoint "/api/old"
    ∷ reset
    ∷ set_config config
    ∷ set_api_endpoint "/api/orders"
    ∷ add_query_invalidation "/api/orders"
    ∷ []

keys_once : (run calls new_builder).query_invalidations ≡ "/api/orders" ∷ []
unfolding run
keys_once = refl

run-IsBuilt_example :
    (view (run calls new_builder) ≡ replay calls empty_view)
    × IsBuilt lower (replay calls empty_view) (build lower (run calls new_builder))
run-IsBuilt_example = run-IsBuilt lower calls

abbrev ready : Builder (Unit {0})
ready = record new_builder { config = some config; api_endpoint = some "/api/orders" }

abbrev order_module : BackofficeModule (Unit {0})
order_module = record {
  config = config;
  api_endpoint = "/api/orders";
  list_config = none;
  form_config = none;
  detail_config = none;
  nav_item = none;
  module_name = "orders";
  query_invalidations = [];
}

abbrev settings : List (Plain.Setting (Unit {0}))
settings = Plain.config_is config ∷ Plain.endpoint_is "/api/orders" ∷ []

build-agrees_example :
    SameBuild
      (build lower (run (map call_of settings) new_builder))
      (Plain.build (Plain.set_all settings Plain.new_builder))
build-agrees_example = build-agrees lower settings

abbrev product : String → Product ℕ
product id = record { id = id; name = id; sku = ""; price = 5 }

abbrev whole : Quantities ℕ
whole = record {
  one = 1;
  is_truthy = λ n. not (eqb n 0);
  next = λ n. n + 1;
  previous = λ n. n - 1;
  max_one = λ n. if ltb 1 n then n else 1;
}

abbrev chosen : OrderItem ℕ ℕ
chosen = record { product_id = some "p1"; sku = ""; name = "p1"; quantity = 2; unit_price = 5 }

-- the text of a price
abbrev to_fixed : ℕ → String
to_fixed n = "5.00"

select_product-forgets_example :
    (select_product 0 whole (option_of to_fixed (product "p2")) (chosen ∷ [])
      ≡ map (forgotten 0 whole) (chosen ∷ [])
        ++ record { product_id = some "p2"; sku = ""; name = "p2"; quantity = 1; unit_price = 5 }
          ∷ [])
    × (available_options same_value
          (map (option_of to_fixed) (product "p1" ∷ []))
          (map (as_option 0 whole) (chosen ∷ []))
        ≡ map (option_of to_fixed) (product "p1" ∷ []))
    × (remove_product 0 whole chosen (chosen ∷ []) ≡ [])
select_product-forgets_example =
    select_product-forgets 0 whole to_fixed (product "p2") chosen (chosen ∷ []) (product "p1" ∷ [])

abbrev stock : List StockItem
stock =
    record {
      status = none;
      quantity = 0;
      low_stock_threshold = some 5;
      overstock_threshold = some 9;
    }
    ∷ record {
      status = some "Low Stock";
      quantity = 4;
      low_stock_threshold = some 5;
      overstock_threshold = none;
    }
    ∷ []

abbrev screens : Screens (Unit {0})
screens = record { rest = tt; nav_item = tt; list = tt; form = tt; detail = tt }

abbrev all_screens : AllScreens (Unit {0})
all_screens = record {
  customers = screens;
  warehouses = screens;
  inventory = screens;
  orders = screens;
  transactions = screens;
  reservations = screens;
}

abbrev empty_store : BackofficeState (Unit {0})
empty_store = record { modules = []; is_initialized = false }

initialize-IsFound_example :
    let (r, s') = initialize all_screens empty_store in
    (r ≡ ok tt)
    × (initialize all_screens s' ≡ (ok tt, s'))
    × IsFound the_transactions (get_module_by_path_segment lower s' "transaction")
initialize-IsFound_example =
    initialize-IsFound all_screens lower the_transactions empty_store "transaction" refl (inr refl)

-- dates whose texts all have a time
abbrev dates : Dates
dates = record { iso = λ ms. "T"; iso_of_day = λ day. some "T" }

abbrev due : FormField (Unit {0})
due = record {
  name = "due";
  label = "Due";
  type = "date";
  required = true;
  hidden = false;
  validation = none;
}

abbrev form : Form (Unit {0})
form = record {
  values = λ name. text "2026-01-02";
  errors = λ name. none;
  touched = λ name. false;
  submitted = [];
  invalidated = [];
}

day_time : (s t : String) → dates.iso_of_day s ≡ some t → has_time t ≡ true
day_time s t e = sym (ap has_time (some-injective _ _ e))

handle_submit-IsSubmitted_example :
    IsSubmitted dates
      (due ∷ [])
      ("orders" ∷ [])
      form
      (handle_submit dates (due ∷ []) ("orders" ∷ []) form)
handle_submit-IsSubmitted_example =
    handle_submit-IsSubmitted dates (λ ms. refl) day_time (due ∷ []) ("orders" ∷ []) form
