-- ===== src/Analytics/Values.antt =====
-- The JSON values that frontend-dashboard/src/hooks/useAnalytics.ts and its services handle without
-- types, with the operations of JavaScript on them. A double is of a type `N`; the arithmetic on
-- doubles and the conversions of values to numbers are built in, and parameters (`BuiltIns`). A field
-- that is `undefined` is one that is not there.
use Prim.Native.Nat.{Ordering}
use Prim.Native.String.{[], ◌∷◌}
use synkro.Base.{
  ℕ, suc, String, Bool, true, false, Option, none, some, List, ◌==◌, if◌then◌else◌, truthy, Failure,
  failure, Result, ok, err,
}

mutual
  pub data Value (N : Type 0) : Type 0 where
    null : Value N
    boolean : Bool → Value N
    number : N → Value N
    text : String → Value N
    array : Items N → Value N
    object : Fields N → Value N

  pub data Items (N : Type 0) : Type 0 where
    nil : Items N
    cons : Value N → Items N → Items N

  -- the fields in the order of `Object.keys`
  pub data Fields (N : Type 0) : Type 0 where
    end : Fields N
    field : String → Value N → Fields N → Fields N

pub record BuiltIns (N : Type 0) : Type 0 where
  -- literals: n, -n, and n / 100
  pub of_nat : ℕ → N
  pub negative : ℕ → N
  pub hundredths : ℕ → N
  -- `!!x`, `Number.isFinite(x)`
  pub number_holds : N → Bool
  pub is_finite : N → Bool
  -- `v > 0`, `!isNaN(parseFloat(v))`, `!isNaN(Date.parse(s))`
  pub positive : Value N → Bool
  pub parses : Value N → Bool
  pub parses_date : String → Bool
  -- `v + u`, `v * u`, `v / u`, `v - u`, `Math.round(x)`, `Math.min(v, u)`, `Math.max(v, u)`
  pub plus : Value N → Option (Value N) → Value N
  pub multiply : Value N → Value N → N
  pub divide : Value N → Value N → N
  pub subtract : Value N → Value N → N
  pub round : N → N
  pub minimum : Value N → Value N → N
  pub maximum : Value N → Value N → N
  -- the sign of `v - u`, and `v === u`
  pub compare_values : Option (Value N) → Option (Value N) → Ordering
  pub strictly_equal : Option (Value N) → Option (Value N) → Bool
  -- the text of an index
  pub show : ℕ → String
  -- the day that lies some days before the present time, as `toISOString().split("T")[0]`
  pub days_ago : ℕ → String

-- The exception of a property of `null` or `undefined`, and of a call of what is no function.
abbrev pub type_error : Failure
type_error = failure "TypeError"

infixl 5 ◌>>=◌
abbrev pub ◌>>=◌ : {A B : Type 0} → Result A → (A → Result B) → Result B
ok a >>= f = f a
err e >>= f = err e

module _ {N : Type 0} where
  abbrev pub items : List (Value N) → Items N
  items List.[] = nil
  items (List.◌∷◌ v vs) = cons v (items vs)

  abbrev pub list_of : Items N → List (Value N)
  list_of nil = List.[]
  list_of (cons v vs) = List.◌∷◌ v (list_of vs)

  abbrev pub fields : List (String × Value N) → Fields N
  fields List.[] = end
  fields (List.◌∷◌ (k, v) fs) = field k v (fields fs)

  abbrev pub arr : List (Value N) → Value N
  arr vs = array (items vs)

  abbrev pub obj : List (String × Value N) → Value N
  obj fs = object (fields fs)

  -- a field that is dropped where it is `undefined`
  abbrev pub opt_field : String → Option (Value N) → Fields N → Fields N
  opt_field k none fs = fs
  opt_field k (some v) fs = field k v fs

  -- `{ data, metadata }`
  abbrev pub chart : Value N → Value N → Value N
  chart dat meta = object (field "data" dat (field "metadata" meta end))

  unfoldable pub get_field : String → Fields N → Option (Value N)
  get_field k end = none
  get_field k (field j v fs) = if j == k then some v else get_field k fs

  -- `fs[k] = v`
  unfoldable pub set_field : String → Value N → Fields N → Fields N
  set_field k v end = field k v end
  set_field k v (field j u fs) = if j == k then field j v fs else field j u (set_field k v fs)

  abbrev pub set_text : String → String → Fields N → Fields N
  set_text k s meta = set_field k (text s) meta

  -- `delete fs[k]`
  unfoldable pub delete_field : String → Fields N → Fields N
  delete_field k end = end
  delete_field k (field j u fs) = if j == k then fs else field j u (delete_field k fs)

  -- `v.k`, for a value that is not `null`
  abbrev pub property : String → Value N → Option (Value N)
  property k (object fs) = get_field k fs
  property k _ = none

  -- `o.k`, for any value
  abbrev pub get_property : String → Option (Value N) → Result (Option (Value N))
  get_property k none = err type_error
  get_property k (some null) = err type_error
  get_property k (some v) = ok (property k v)

  -- `v[0]`
  abbrev pub first_item : Value N → Option (Value N)
  first_item (array (cons v vs)) = some v
  first_item (text (c ∷ s)) = some (text (c ∷ []))
  first_item (object fs) = get_field "0" fs
  first_item _ = none

  abbrev pub is_type : String → Option (Value N) → Bool
  is_type s (some (text t)) = t == s
  is_type s _ = false

module _ {N : Type 0} (js : BuiltIns N) where
  abbrev pub num : ℕ → Value N
  num n = number (js.of_nat n)

  abbrev pub value_holds : Value N → Bool
  value_holds null = false
  value_holds (boolean b) = b
  value_holds (number n) = js.number_holds n
  value_holds (text s) = truthy s
  value_holds (array vs) = true
  value_holds (object fs) = true

  -- `!!o`
  abbrev pub holds : Option (Value N) → Bool
  holds none = false
  holds (some v) = value_holds v

  -- `o || v`
  abbrev pub or_value : Option (Value N) → Value N → Value N
  or_value none v = v
  or_value (some u) v = if value_holds u then u else v

  -- `v.length > 0`, for a value that is not `null`
  abbrev pub has_items : Value N → Bool
  has_items (array nil) = false
  has_items (array (cons v vs)) = true
  has_items (text s) = truthy s
  has_items (object fs) = elim (get_field "length" fs) [ none ↦ false | some v ↦ js.positive v ]
  has_items _ = false

  -- `o && o.length > 0`
  abbrev pub is_nonempty : Option (Value N) → Bool
  is_nonempty none = false
  is_nonempty (some v) = has_items v

  abbrev index_entries : ℕ → Items N → List (String × Value N)
  index_entries n nil = List.[]
  index_entries n (cons v vs) = List.◌∷◌ (js.show n, v) (index_entries (suc n) vs)

  abbrev char_entries : ℕ → String → List (String × Value N)
  char_entries n [] = List.[]
  char_entries n (c ∷ s) = List.◌∷◌ (js.show n, text (c ∷ [])) (char_entries (suc n) s)

  abbrev field_entries : Fields N → List (String × Value N)
  field_entries end = List.[]
  field_entries (field k v fs) = List.◌∷◌ (k, v) (field_entries fs)

  -- `Object.keys(v)` with the values
  abbrev pub entries : Value N → List (String × Value N)
  entries (array vs) = index_entries 0 vs
  entries (text s) = char_entries 0 s
  entries (object fs) = field_entries fs
  entries _ = List.[]

  -- `JSON.parse(JSON.stringify(v))`
  unfoldable mutual
    pub json_copy : Value N → Value N
    json_copy null = null
    json_copy (boolean b) = boolean b
    json_copy (number n) = if js.is_finite n then number n else null
    json_copy (text s) = text s
    json_copy (array vs) = array (copy_items vs)
    json_copy (object fs) = object (copy_fields fs)

    pub copy_items : Items N → Items N
    copy_items nil = nil
    copy_items (cons v vs) = cons (json_copy v) (copy_items vs)

    pub copy_fields : Fields N → Fields N
    copy_fields end = end
    copy_fields (field k v fs) = field k (json_copy v) (copy_fields fs)
