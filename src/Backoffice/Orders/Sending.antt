-- ===== src/Backoffice/Orders/Sending.antt =====
-- `createItem` and `updateItem` of the orders module, which frontend-dashboard/src/backoffice/core/
-- builders/BackofficeDirector.tsx puts in place of those of the builder, with `generateUUID`. The data
-- is an object, as a form hands it over. What they change in place is in the data of their caller
-- afterwards. The methods of the builder, here in its state at the time of the call, are those of
-- `Backoffice.Builder`, which the builder of the application has with the same text. `parse_float` is
-- `parseFloat`.
pub mod Parts
pub mod Laws
use Prim.Native.String.{[], ◌∷◌, ◌++◌}
use Prim.Native.Char.{code}
use synkro.Base.{
  ℕ, ◌+◌, ◌%◌, zero, suc, String, Option, none, some, if◌then◌else◌, eqb, ◌||◌, or_else,
}
use synkro.Http.Calls.{ApiCall}
use synkro.Backoffice.Builder.{Builder, create_item, update_item}
use synkro.Analytics.Values.{
  Value, number, text, object, Fields, fields, BuiltIns, get_field, set_field, holds, entries,
}

-- the character at a position, as a text
abbrev char_at : ℕ → String → String
char_at n [] = []
char_at zero (c ∷ s) = c ∷ []
char_at (suc n) (c ∷ s) = char_at n s

-- `toString(16)` of a number below 16
abbrev pub hex_digit : ℕ → String
hex_digit n = char_at n "0123456789abcdef"

-- The replacement of every x and y; `random n` is `(Math.random() * 16) | 0` at its call number n.
unfoldable pub fill_digits : (ℕ → ℕ) → ℕ → String → String
fill_digits random n [] = []
fill_digits random n (c ∷ s) =
    let is_x = eqb (code c) b'x' in
    let is_y = eqb (code c) b'y' in
    let rest = fill_digits random (if is_x || is_y then suc n else n) s in
    if is_x
    then hex_digit (random n) ++ rest
    else if is_y
    then hex_digit (8 + random n % 4) ++ rest
    else c ∷ rest

-- `crypto.randomUUID()`, where there is one, is the first argument.
unfoldable pub generate_uuid : Option String → (ℕ → ℕ) → String
unfolding fill_digits
generate_uuid crypto_uuid random =
    or_else crypto_uuid (fill_digits random 0 "xxxxxxxx-xxxx-4xxx-yxxx-xxxxxxxxxxxx")

-- the parts of an order that name it
pub data Part : Type 0 where
  shipping payment : Part

abbrev pub part_name : Part → String
part_name shipping = "shipping_info"
part_name payment = "payment_info"

abbrev pub amount_name : Part → String
amount_name shipping = "shipping_cost"
amount_name payment = "amount"

module _ {N : Type 0} (parse_float : String → N) where
  -- `if (typeof v.k === "string") v.k = parseFloat(v.k)`
  unfoldable pub parse_amount : String → Value N → Value N
  parse_amount k (object fs) = elim (get_field k fs) [
    | some (text s) ↦ object (set_field k (number (parse_float s)) fs)
    | _ ↦ object fs
  ]
  parse_amount k v = v

module _ {N : Type 0} (js : BuiltIns N) where
  -- `{ ...v, order_id: id }`
  unfoldable pub with_order_id : String → Value N → Value N
  with_order_id id v = object (set_field "order_id" (text id) (fields (entries js v)))

  abbrev pub change_part : (Value N → Value N) → Part → Fields N → Fields N
  change_part f p dat = elim (get_field (part_name p) dat) [
    | none ↦ dat
    | some v ↦ if holds js (some v) then set_field (part_name p) (f v) dat else dat
  ]

module _ {N : Type 0} (js : BuiltIns N) (parse_float : String → N) where
  -- the data that is sent, and that of the caller
  unfoldable pub modified_data : String → Fields N → Fields N
  unfolding parse_amount with_order_id
  modified_data id dat =
      let change : Part → Fields N → Fields N = λ p.
        change_part js (λ v. with_order_id js id (parse_amount parse_float (amount_name p) v)) p in
      change payment (change shipping dat)

  unfoldable pub data_afterwards : Fields N → Fields N
  unfolding parse_amount
  data_afterwards dat =
      let change : Part → Fields N → Fields N =
        λ p. change_part js (parse_amount parse_float (amount_name p)) p in
      change payment (change shipping dat)

  module _ {A : Type 0} (b : Builder A) where
    unfoldable pub create_order :
        Option String → (ℕ → ℕ) → Fields N → ApiCall (Value N) (Value N) × Fields N
    unfolding modified_data data_afterwards generate_uuid
    create_order crypto_uuid random dat =
        let temp_order_id = generate_uuid crypto_uuid random in
        (create_item b (object (modified_data temp_order_id dat)), data_afterwards dat)

    unfoldable pub update_order : String → Fields N → ApiCall (Value N) (Value N) × Fields N
    unfolding modified_data data_afterwards
    update_order id dat = (update_item b id (object (modified_data id dat)), data_afterwards dat)
