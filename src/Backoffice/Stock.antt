-- ===== src/Backoffice/Stock.antt =====
-- The stock status that frontend-dashboard/src/backoffice/core/builders/BackofficeDirector.tsx shows
-- for an item, and the numbers above the list (`renderStats` of the inventory module). A threshold that
-- is missing makes every comparison with it false.
pub mod Laws
use synkro.Base.{
  ℕ, String, Bool, true, false, not, ◌&&◌, ◌||◌, Option, none, some, List, ◌==◌, ltb, eqb,
  if◌then◌else◌, length, keep,
}

pub record StockItem : Type 0 where
  pub status : Option String
  pub quantity : ℕ
  pub low_stock_threshold : Option ℕ
  pub overstock_threshold : Option ℕ

pub data StockStatus : Type 0 where
  out_of_stock low_stock overstock optimal : StockStatus

abbrev pub status_text : StockStatus → String
status_text out_of_stock = "Out of Stock"
status_text low_stock = "Low Stock"
status_text overstock = "Overstock"
status_text optimal = "Optimal"

-- `item.quantity < item.low_stock_threshold` and `item.quantity > item.overstock_threshold`
abbrev pub is_low : StockItem → Bool
is_low item = elim item.low_stock_threshold [ none ↦ false | some t ↦ ltb item.quantity t ]

abbrev pub is_over : StockItem → Bool
is_over item = elim item.overstock_threshold [ none ↦ false | some t ↦ ltb t item.quantity ]

unfoldable pub stock_status : StockItem → StockStatus
stock_status item =
    if eqb item.quantity 0
    then out_of_stock
    else if is_low item
    then low_stock
    else if is_over item
    then overstock
    else optimal

-- `item.status === s`
abbrev pub has_status : String → StockItem → Bool
has_status s item = elim item.status [ none ↦ false | some t ↦ t == s ]

pub record Stats : Type 0 where
  pub total_items : ℕ
  pub low_stock_alerts : ℕ
  pub overstock_items : ℕ
  pub out_of_stock_items : ℕ

unfoldable pub render_stats : List StockItem → Stats
render_stats rows = record {
  total_items = length rows;
  low_stock_alerts =
      length (keep (λ i. has_status "Low Stock" i || (is_low i && not (eqb i.quantity 0))) rows);
  overstock_items = length (keep (λ i. has_status "Overstock" i || is_over i) rows);
  out_of_stock_items = length (keep (λ i. has_status "Out of Stock" i || eqb i.quantity 0) rows);
}
