-- ===== src/Widgets/Tests.antt =====
-- The widgets at concrete inputs.
use mathlib.Core.List.{Perm}
use synkro.Base.{
  ℕ, ◌+◌, ◌-◌, ◌≤◌, not, if◌then◌else◌, String, Bool, true, false, none, some, List, [], ◌∷◌, ◌≡◌,
  refl, sym, ap, ◌∙◌, inl, inr, arith, eq_iff, ◌==◌, ltb, eqb,
}
use synkro.Base.Sorting.{Ordered}
use synkro.Widgets.Select.{
  Quantities, SelectOption, Select, minus, plus, handle_select, Event, open_list, click_option,
  click_quantity, run,
}
use synkro.Widgets.Select.Laws.{IsAtLeastOne, IsSelection, run-IsSelection}
use synkro.Widgets.Table.{
  Value, number, text, null, boolean, undefined, object, nil, field, Builtins, desc, Table,
  get_nested_value, sorted_data, strict_equals, id_of, is_selected, toggle_row, handle_sort,
  handle_select_all,
}
use synkro.Widgets.Table.Order.{Column, IsBefore, sorted_data-Ordered}

abbrev option_a : SelectOption String (Unit {0}) ℕ
option_a = record { value = "a"; label = some "A"; quantity = none; rest = tt }

abbrev option_b : SelectOption String (Unit {0}) ℕ
option_b = record { value = "b"; label = some "B"; quantity = some 3; rest = tt }

abbrev whole : Quantities ℕ
whole = record {
  one = 1;
  is_truthy = λ n. not (eqb n 0);
  next = λ n. n + 1;
  previous = λ n. n - 1;
  max_one = λ n. if ltb 1 n then n else 1;
}

whole-IsAtLeastOne : IsAtLeastOne whole (λ n. 1 ≤ n)
whole-IsAtLeastOne = record {
  one_fits = omega arith;
  next_fits = λ n h. ground arith;
  previous_fits = λ n h. ground arith;
  fits_truthy = λ n h. ground arith;
}

abbrev nothing_selected : Select String (Unit {0}) ℕ
nothing_selected = record { values = []; is_open = false; search = "" }

abbrev use_of_widget : List (Event String (Unit {0}) ℕ)
use_of_widget =
    open_list
    ∷ click_option (option_a ∷ option_b ∷ []) 1
    ∷ click_option (option_a ∷ option_b ∷ []) 0
    ∷ click_quantity "b" minus
    ∷ click_quantity "a" plus
    ∷ []

-- Both options are chosen, the second one first.
selected_twice :
    (run whole ◌==◌ (some 2) use_of_widget nothing_selected).values
    ≡ record option_b { quantity = some 2 } ∷ record option_a { quantity = some 2 } ∷ []
unfolding run handle_select
selected_twice = refl

run-IsSelection_example :
    IsSelection whole
      (λ n. 1 ≤ n)
      whole-IsAtLeastOne
      (some 2)
      (run whole ◌==◌ (some 2) use_of_widget nothing_selected).values
run-IsSelection_example =
    run-IsSelection whole (λ n. 1 ≤ n) whole-IsAtLeastOne (some 2) use_of_widget nothing_selected
      (tt, ((tt, (inr (omega arith), tt)), ((tt, (inr (omega arith), tt)), (tt, (tt, tt)))))
      (tt, omega arith, tt)

-- `>` on numbers.
abbrev greater_number : Value → Value → Bool
greater_number (number m) (number n) = ltb n m
greater_number _ _ = false

abbrev numbers : Builtins
numbers = record { property = λ v key. undefined; greater = greater_number }

abbrev is_number : Value → Bool
is_number (number n) = true
is_number _ = false

number-cases : (a : Value) → is_number a ≡ true → (n : ℕ) × (a ≡ number n)
number-cases undefined h = absurd (ground arith)
number-cases null h = absurd (ground arith)
number-cases (boolean b) h = absurd (ground arith)
number-cases (number n) h = (n, refl)
number-cases (text s) h = absurd (ground arith)
number-cases (object i f) h = absurd (ground arith)

same-number :
    (a b : Value) → is_number a ≡ true → is_number b ≡ true → strict_equals a b ≡ true → a ≡ b
same-number a b h k e =
    let (m, p) = number-cases a h in
    let (n, q) = number-cases b k in
    let same : eqb m n ≡ true = (λ i. strict_equals (sym p i) (sym q i)) ∙ e in
    p ∙ ap number (ground arith) ∙ sym q

numbers-Column : Column numbers is_number
numbers-Column = record {
  present = λ a h. ground arith;
  same = same-number;
  irreflexive = λ a h. ground arith;
  asymmetric = λ a b h k gt. ground arith;
  total = λ a b h k ne le. ground arith;
  transitive = λ a b c h k l gt gt'. ground arith;
}

abbrev row : ℕ → Value → Value
row i v = object i (field "id" (number i) (field "stock" v nil))

abbrev rows : List Value
rows = row 1 (number 5) ∷ row 2 undefined ∷ row 3 (number 9) ∷ []

abbrev by_stock : Table
by_stock = record {
  sort_field = some "stock";
  sort_direction = desc;
  selected_items = row 2 undefined ∷ [];
}

stock_first :
    sorted_data numbers rows by_stock ≡ row 3 (number 9) ∷ row 1 (number 5) ∷ row 2 undefined ∷ []
unfolding sorted_data get_nested_value synkro.Gateway.Tokens.split_dots
    synkro.Widgets.Table.compare_values
stock_first = refl

sorted_data-Ordered_example :
    Perm (sorted_data numbers rows by_stock) rows
    × Ordered
        (λ a b.
          IsBefore numbers desc
            (get_nested_value numbers a "stock")
            (get_nested_value numbers b "stock"))
        (sorted_data numbers rows by_stock)
unfolding get_nested_value synkro.Gateway.Tokens.split_dots
sorted_data-Ordered_example =
    sorted_data-Ordered numbers is_number numbers-Column rows by_stock "stock" undefined refl
      (ground (arith, eq_iff "stock" "")) refl (inl refl, (inr refl, (inl refl, tt)))
