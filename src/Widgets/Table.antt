-- ===== src/Widgets/Table.antt =====
-- frontend-dashboard/src/backoffice/components/organisms/DataTable.tsx: the sorting of the rows and
-- the selected rows. The rows are JavaScript values, an object with its identity; the numbers are
-- whole. `a[key]` on a value that is no object and `a > b` are the language's, and parameters.
pub mod Order
pub mod Selection
use Prim.Native.Nat.{Ordering}
use synkro.Base.{
  ℕ, String, Bool, true, false, not, ◌&&◌, ◌||◌, Option, none, some, List, [], ◌∷◌, ◌++◌, ◌==◌, eqb,
  if◌then◌else◌, truthy, keep, any_of,
}
use synkro.Base.Sorting.{sort}
use synkro.Gateway.Tokens.{split_dots}

mutual
  pub data Value : Type 0 where
    undefined null : Value
    boolean : Bool → Value
    number : ℕ → Value
    text : String → Value
    object : ℕ → Fields → Value

  pub data Fields : Type 0 where
    nil : Fields
    field : String → Value → Fields → Fields

-- `a === b`; objects are compared by their identity
abbrev pub strict_equals : Value → Value → Bool
strict_equals undefined undefined = true
strict_equals null null = true
strict_equals (boolean true) (boolean b) = b
strict_equals (boolean false) (boolean b) = not b
strict_equals (number m) (number n) = eqb m n
strict_equals (text s) (text t) = s == t
strict_equals (object i f) (object j g) = eqb i j
strict_equals _ _ = false

abbrev pub is_missing : Value → Bool
is_missing undefined = true
is_missing null = true
is_missing _ = false

-- `a ? ... : ...`
abbrev pub is_truthy : Value → Bool
is_truthy undefined = false
is_truthy null = false
is_truthy (boolean b) = b
is_truthy (number n) = not (eqb n 0)
is_truthy (text s) = truthy s
is_truthy (object i f) = true

abbrev pub field_of : String → Fields → Value
field_of key nil = undefined
field_of key (field k v rest) = if k == key then v else field_of key rest

pub record Builtins : Type 0 where
  pub property : Value → String → Value
  pub greater : Value → Value → Bool

pub data Direction : Type 0 where
  asc desc : Direction

pub record Table : Type 0 where
  pub sort_field : Option String
  pub sort_direction : Direction
  pub selected_items : List Value

-- `-comparison`
abbrev pub negated : Ordering → Ordering
negated Ordering.lt = Ordering.gt
negated Ordering.eq = Ordering.eq
negated Ordering.gt = Ordering.lt

module _ (js : Builtins) where
  -- `value[key]`
  abbrev pub member : Value → String → Value
  member (object i f) key = field_of key f
  member v key = js.property v key

  -- the fold of `getNestedValue`
  abbrev pub follow : Value → List String → Value
  follow v [] = v
  follow v (key ∷ keys) = follow (if is_truthy v then member v key else null) keys

  unfoldable pub get_nested_value : Value → String → Value
  get_nested_value v path = follow v (split_dots path)

  unfoldable pub compare_values : Direction → Value → Value → Ordering
  compare_values direction a b =
      if strict_equals a b
      then Ordering.eq
      else if is_missing a
      then Ordering.gt
      else if is_missing b
      then Ordering.lt
      else (let comparison = if js.greater a b then Ordering.gt else Ordering.lt in
          elim direction [ asc ↦ comparison | desc ↦ negated comparison ])

  -- the comparison that `sortedData` sorts with
  unfoldable pub compare_rows : String → Direction → Value → Value → Ordering
  unfolding get_nested_value compare_values
  compare_rows path direction a b =
      compare_values direction (get_nested_value a path) (get_nested_value b path)

  unfoldable pub sorted_data : List Value → Table → List Value
  unfolding compare_rows
  sorted_data rows t = elim t.sort_field [
    | none ↦ rows
    | some path ↦ if truthy path then sort (compare_rows path t.sort_direction) rows else rows
  ]

  abbrev pub id_of : Value → Value
  id_of item = member item "id"

  -- the state of the box of a row
  abbrev pub is_selected : Table → Value → Bool
  is_selected t item = any_of (λ i. strict_equals (id_of i) (id_of item)) t.selected_items

  unfoldable pub handle_select_item : Value → Bool → Table → Table
  handle_select_item item true t = record t { selected_items = t.selected_items ++ item ∷ [] }
  handle_select_item item false t = record t {
    selected_items = keep (λ i. not (strict_equals (id_of i) (id_of item))) t.selected_items;
  }

  -- a click on the box of a row
  unfoldable pub toggle_row : Value → Table → Table
  unfolding handle_select_item
  toggle_row item t = handle_select_item item (not (is_selected t item)) t

abbrev pub handle_select_all : List Value → Bool → Table → Table
handle_select_all rows all t = record t { selected_items = if all then rows else [] }

abbrev pub opposite : Direction → Direction
opposite asc = desc
opposite desc = asc

-- a click on the header of a column
unfoldable pub handle_sort : String → Table → Table
handle_sort path t = elim t.sort_field [
  | none ↦ record t { sort_field = some path; sort_direction = asc }
  | some current ↦
      if current == path
      then record t { sort_direction = opposite t.sort_direction }
      else record t { sort_field = some path; sort_direction = asc }
]
