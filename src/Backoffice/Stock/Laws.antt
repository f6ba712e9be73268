-- ===== src/Backoffice/Stock/Laws.antt =====
-- The numbers above the list count the statuses that its rows show.
use synkro.Base.{
  ℕ, ◌+◌, ◌≤◌, Bool, true, false, not, ◌&&◌, ◌||◌, Option, none, some, List, [], ◌∷◌, ◌≡◌, ◌⊎◌,
  refl, sym, ◌∙◌, arith, eqb, ◌==◌, length, keep, All, inl, inr,
}
use synkro.Backoffice.Stock.{
  StockItem, StockStatus, out_of_stock, low_stock, overstock, optimal, status_text, is_low, is_over,
  stock_status, has_status, render_stats,
}

abbrev pub InOrder : Option ℕ → Option ℕ → Type 0
InOrder (some low) (some over) = low ≤ over
InOrder _ _ = Unit

-- The thresholds are in order, and a status that comes with the item is the one that is shown.
abbrev pub IsConsistent : StockItem → Type 0
IsConsistent item =
    InOrder item.low_stock_threshold item.overstock_threshold
    × ((item.status ≡ none) ⊎ (item.status ≡ some (status_text (stock_status item))))

abbrev pub same_status : StockStatus → StockStatus → Bool
same_status out_of_stock out_of_stock = true
same_status low_stock low_stock = true
same_status overstock overstock = true
same_status optimal optimal = true
same_status _ _ = false

-- How many rows show a status.
abbrev pub count : StockStatus → List StockItem → ℕ
count s rows = length (keep (λ item. same_status (stock_status item) s) rows)

text-same : (a b : StockStatus) → (status_text a == status_text b) ≡ same_status a b
text-same out_of_stock out_of_stock = refl
text-same out_of_stock low_stock = refl
text-same out_of_stock overstock = refl
text-same out_of_stock optimal = refl
text-same low_stock out_of_stock = refl
text-same low_stock low_stock = refl
text-same low_stock overstock = refl
text-same low_stock optimal = refl
text-same overstock out_of_stock = refl
text-same overstock low_stock = refl
text-same overstock overstock = refl
text-same overstock optimal = refl
text-same optimal out_of_stock = refl
text-same optimal low_stock = refl
text-same optimal overstock = refl
text-same optimal optimal = refl

-- A status that comes with the item changes no count.
given-status :
    (item : StockItem) (s : StockStatus) (b : Bool)
    → IsConsistent item
    → b ≡ same_status (stock_status item) s
    → (has_status (status_text s) item || b) ≡ same_status (stock_status item) s
unfolding stock_status
given-status item s b (order, inl absent) e = rw absent e
given-status item s b (order, inr has) e = rw (has, text-same (stock_status item) s) (ground arith)

module _ (item : StockItem) (c : IsConsistent item) where
  low-alert : (is_low item && not (eqb item.quantity 0)) ≡ same_status (stock_status item) low_stock
  unfolding stock_status
  low-alert = ground arith

  over-alert : is_over item ≡ same_status (stock_status item) overstock
  unfolding stock_status
  over-alert = ground arith

  out-alert : eqb item.quantity 0 ≡ same_status (stock_status item) out_of_stock
  unfolding stock_status
  out-alert = ground arith

rows-count :
    (s : StockStatus) (p : StockItem → Bool) (rows : List StockItem)
    → ((item : StockItem) → IsConsistent item → p item ≡ same_status (stock_status item) s)
    → All IsConsistent rows
    → length (keep p rows) ≡ count s rows
rows-count s p [] h c = refl
rows-count s p (x ∷ xs) h (c, cs) = let e = h x c in rw e (ground (arith, rows-count s p xs h cs))

count-all :
    (rows : List StockItem)
    → length rows
      ≡ count out_of_stock rows + count low_stock rows + count overstock rows + count optimal rows
count-all [] = refl
count-all (x ∷ xs) = go (stock_status x) refl (count-all xs)
  where
    go :
        (t : StockStatus)
        → stock_status x ≡ t
        → length xs
          ≡ count out_of_stock xs + count low_stock xs + count overstock xs + count optimal xs
        → length (x ∷ xs)
          ≡ count out_of_stock (x ∷ xs)
            + count low_stock (x ∷ xs)
            + count overstock (x ∷ xs)
            + count optimal (x ∷ xs)
    go out_of_stock e h = rw e (omega (arith, h))
    go low_stock e h = rw e (omega (arith, h))
    go overstock e h = rw e (omega (arith, h))
    go optimal e h = rw e (omega (arith, h))

-- On rows with thresholds in order, and without a status of their own but the one shown, the numbers
-- above the list are the numbers of rows that show the statuses, and with the rows that show `Optimal`
-- they add up to the total.
pub render_stats-count :
    (rows : List StockItem)
    → All IsConsistent rows
    → let s = render_stats rows in
      (s.out_of_stock_items ≡ count out_of_stock rows)
      × (s.low_stock_alerts ≡ count low_stock rows)
      × (s.overstock_items ≡ count overstock rows)
      × (s.total_items
          ≡ s.out_of_stock_items + s.low_stock_alerts + s.overstock_items + count optimal rows)
unfolding render_stats
render_stats-count rows c =
    let out =
      rows-count out_of_stock _ rows (λ i h. given-status i out_of_stock _ h (out-alert i h)) c in
    let low = rows-count low_stock _ rows (λ i h. given-status i low_stock _ h (low-alert i h)) c in
    let over =
      rows-count overstock _ rows (λ i h. given-status i overstock _ h (over-alert i h)) c in
    (
      out,
      low,
      over,
      count-all rows ∙ (λ i. sym out i + sym low i + sym over i + count optimal rows),
    )
