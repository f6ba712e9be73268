-- ===== src/Backoffice/Orders.antt =====
-- The field of an order's products in frontend-dashboard/src/backoffice/core/builders/
-- BackofficeDirector.tsx (`OrderItemsField`): the widget of `Widgets.Select`, whose parent keeps order
-- items in place of the options. The prices are of a type `P` with the number 0,
-- the quantities of a type `Q`.
pub mod Laws
pub mod Sending
mod Tests
use synkro.Base.{
  ℕ, String, Bool, true, false, Option, none, some, List, [], ◌∷◌, map, ◌==◌, if◌then◌else◌,
  or_else, or_other, template,
}
use synkro.Widgets.Select.{
  Quantities, SelectOption, Select, Delta, handle_select, handle_remove, handle_quantity_change,
}

-- the optional fields of an option that the field reads
pub record ProductFields (P : Type 0) : Type 0 where
  pub id : Option String
  pub name : Option String
  pub sku : Option String
  pub price : Option P

pub record OrderItem (P Q : Type 0) : Type 0 where
  pub product_id : Option String
  pub sku : String
  pub name : String
  pub quantity : Q
  pub unit_price : P

-- A product that the search answers, with a price that is a number.
pub record Product (P : Type 0) : Type 0 where
  pub id : String
  pub name : String
  pub sku : String
  pub price : P

-- The option of a product; `to_fixed` is the price with two digits.
abbrev pub option_of :
    {P Q : Type 0} → (P → String) → Product P → SelectOption (Option String) (ProductFields P) Q
option_of to_fixed p = record {
  value = some p.id;
  label = some (template p.name (template " (" p.sku ") - $") (to_fixed p.price));
  quantity = none;
  rest = record { id = some p.id; name = some p.name; sku = some p.sku; price = some p.price };
}

-- `===` on a text that may be missing
abbrev pub same_value : Option String → Option String → Bool
same_value none none = true
same_value (some s) (some t) = s == t
same_value _ _ = false

module _ {P Q : Type 0} (zero_price : P) (numbers : Quantities Q) where
  -- An order item where the widget expects an option: it has no value, no label, no id and no price.
  abbrev pub as_option : OrderItem P Q → SelectOption (Option String) (ProductFields P) Q
  as_option item = record {
    value = none;
    label = none;
    quantity = some item.quantity;
    rest = record { id = none; name = some item.name; sku = some item.sku; price = none };
  }

  abbrev pub item_of : SelectOption (Option String) (ProductFields P) Q → OrderItem P Q
  item_of option = record {
    product_id = or_other option.rest.id option.value;
    sku = or_else option.rest.sku "";
    name = or_else option.rest.name "";
    quantity = or_else option.quantity numbers.one;
    unit_price = or_else option.rest.price zero_price;
  }

  abbrev pub shown : List (OrderItem P Q) → Select (Option String) (ProductFields P) Q
  shown items = record { values = map as_option items; is_open = true; search = "" }

  -- what the form keeps after a click on an option, and on the button that removes an item
  unfoldable pub select_product :
      SelectOption (Option String) (ProductFields P) Q → List (OrderItem P Q) → List (OrderItem P Q)
  unfolding handle_select
  select_product option items = map item_of (handle_select numbers none option (shown items)).values

  unfoldable pub remove_product : OrderItem P Q → List (OrderItem P Q) → List (OrderItem P Q)
  unfolding handle_remove
  remove_product item items =
      map item_of (handle_remove same_value (as_option item).value (shown items)).values

-- `handleUpdateQuantity`
abbrev pub update_quantity :
    {P Q : Type 0} → Option String → Q → List (OrderItem P Q) → List (OrderItem P Q)
update_quantity id n [] = []
update_quantity id n (item ∷ items) =
    let rest = update_quantity id n items in
    if same_value item.product_id id then record item { quantity = n } ∷ rest else item ∷ rest
