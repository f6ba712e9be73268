-- ===== src/Widgets/Select.antt =====
-- frontend-dashboard/src/components/ui/MultiSelectAutocomplete.tsx: the selected options, which the
-- parent keeps as `onChange` reports them, whether the list is open, and the text searched for. A
-- quantity is any number, of a type `Q`; the query that fetches the options is an argument of the events.
pub mod Laws
use synkro.Base.{
  ℕ, suc, ◌+◌, ◌-◌, String, Bool, true, false, not, ◌&&◌, ◌||◌, Option, none, some, List, [], ◌∷◌,
  ◌++◌, map, ◌==◌, ltb, leb, eqb, if◌then◌else◌, length, keep, any_of, get_elem?,
}

-- `Option` of the source; `rest` holds its optional fields but for the quantity. The values are texts
-- where the parent keeps the options as they are, and a parent may drop the labels too.
pub record SelectOption (V M Q : Type 0) : Type 0 where
  pub value : V
  pub label : Option String
  pub quantity : Option Q
  pub rest : M

pub record Select (V M Q : Type 0) : Type 0 where
  pub values : List (SelectOption V M Q)
  pub is_open : Bool
  pub search : String

-- the buttons of a selected option: its quantity goes down or up by one
pub data Delta : Type 0 where
  minus plus : Delta

-- 1, `!!n`, `n + 1`, `n + (-1)` and `Math.max(1, n)`
pub record Quantities (Q : Type 0) : Type 0 where
  pub one : Q
  pub is_truthy : Q → Bool
  pub next : Q → Q
  pub previous : Q → Q
  pub max_one : Q → Q

module _ {Q : Type 0} (numbers : Quantities Q) where
  -- `n || 1`, on a number that may be missing
  abbrev pub or_one : Option Q → Q
  or_one none = numbers.one
  or_one (some n) = if numbers.is_truthy n then n else numbers.one

  -- `Math.max(1, n + delta)`
  abbrev pub shift_quantity : Delta → Q → Q
  shift_quantity minus n = numbers.max_one (numbers.previous n)
  shift_quantity plus n = numbers.max_one (numbers.next n)

-- `maxItems && n >= maxItems`
abbrev pub is_full : Option ℕ → ℕ → Bool
is_full none n = false
is_full (some most) n = not (eqb most 0) && leb most n

-- What a user does: open the list, search, click on the n-th option shown among those fetched,
-- use the buttons of the selected option with a value, or click outside.
pub data Event (V M Q : Type 0) : Type 0 where
  open_list close_list : Event V M Q
  type_search : String → Event V M Q
  click_option : List (SelectOption V M Q) → ℕ → Event V M Q
  click_remove : V → Event V M Q
  click_quantity : V → Delta → Event V M Q

module _ {V M Q : Type 0} where
  unfoldable pub handle_select :
      Quantities Q → Option ℕ → SelectOption V M Q → Select V M Q → Select V M Q
  handle_select numbers max_items option s =
      if is_full max_items (length s.values) then s else record {
        values =
            s.values ++ record option { quantity = some (or_one numbers option.quantity) } ∷ [];
        is_open = if is_full max_items (length s.values + 1) then false else s.is_open;
        search = "";
      }

  abbrev pub handle_close : Select V M Q → Select V M Q
  handle_close s = record s { is_open = false; search = "" }

-- `same` is `===` on the values.
module _ {V M Q : Type 0} (same : V → V → Bool) where
  abbrev pub available_options :
      List (SelectOption V M Q) → List (SelectOption V M Q) → List (SelectOption V M Q)
  available_options options values =
      keep (λ option. not (any_of (λ item. same item.value option.value) values)) options

  unfoldable pub handle_remove : V → Select V M Q → Select V M Q
  handle_remove v s = record s { values = keep (λ item. not (same item.value v)) s.values }

module _ {V M Q : Type 0} (numbers : Quantities Q) (same : V → V → Bool) where
  abbrev pub change_item : V → Delta → SelectOption V M Q → SelectOption V M Q
  change_item v delta item =
      if same item.value v
      then record item {
        quantity = some (shift_quantity numbers delta (or_one numbers item.quantity));
      }
      else item

  unfoldable pub handle_quantity_change : V → Delta → Select V M Q → Select V M Q
  handle_quantity_change v delta s = record s { values = map (change_item v delta) s.values }

  unfoldable pub step : Option ℕ → Event V M Q → Select V M Q → Select V M Q
  unfolding handle_select handle_remove handle_quantity_change
  step max_items open_list s = record s { is_open = true }
  step max_items close_list s = handle_close s
  step max_items (type_search text) s = record s { search = text }
  step max_items (click_option options n) s =
      if not s.is_open then s else elim (get_elem? (available_options same options s.values) n) [
        | none ↦ s
        | some option ↦ handle_select numbers max_items option s
      ]
  step max_items (click_remove v) s = handle_remove same v s
  step max_items (click_quantity v delta) s = handle_quantity_change v delta s

  unfoldable pub run : Option ℕ → List (Event V M Q) → Select V M Q → Select V M Q
  unfolding step
  run max_items [] s = s
  run max_items (e ∷ es) s = run max_items es (step max_items e s)
