-- ===== src/Analytics/Inventory.antt =====
-- The inventory charts of frontend-dashboard/src/hooks/useAnalytics.ts.
use synkro.Base.{[], ◌∷◌}
use synkro.Analytics.Values.{Value, text, BuiltIns, arr, obj, chart, num}
use synkro.Analytics.Methods.{Method, validated}

module _ {N : Type 0} (js : BuiltIns N) where
  abbrev pub stock_level_trends_sample : Value N
  stock_level_trends_sample =
      chart
        (arr (
          obj (("date", text "2023-01-01") ∷ ("stock", num js 220) ∷ [])
          ∷ obj (("date", text "2023-02-01") ∷ ("stock", num js 250) ∷ [])
          ∷ obj (("date", text "2023-03-01") ∷ ("stock", num js 180) ∷ [])
          ∷ obj (("date", text "2023-04-01") ∷ ("stock", num js 290) ∷ [])
          ∷ obj (("date", text "2023-05-01") ∷ ("stock", num js 320) ∷ [])
          ∷ []))
        (obj (("type", text "line") ∷ ("xAxis", text "date") ∷ ("yAxis", text "stock") ∷ []))

  abbrev pub inventory_distribution_sample : Value N
  inventory_distribution_sample =
      chart
        (arr (
          obj (("category", text "Electronics") ∷ ("count", num js 150) ∷ [])
          ∷ obj (("category", text "Clothing") ∷ ("count", num js 120) ∷ [])
          ∷ obj (("category", text "Home Goods") ∷ ("count", num js 80) ∷ [])
          ∷ obj (("category", text "Books") ∷ ("count", num js 50) ∷ [])
          ∷ obj (("category", text "Other") ∷ ("count", num js 40) ∷ [])
          ∷ []))
        (obj
          (("type", text "pie") ∷ ("dimension", text "category") ∷ ("metric", text "count") ∷ []))

  abbrev pub warehouse_distribution_sample : Value N
  warehouse_distribution_sample =
      chart
        (arr (
          obj (
            ("warehouse", text "New York City Warehouse")
            ∷ ("category", text "Electronics")
            ∷ ("item_count", num js 2)
            ∷ [])
          ∷ obj (
              ("warehouse", text "Los Angeles Warehouse")
              ∷ ("category", text "Clothing")
              ∷ ("item_count", num js 2)
              ∷ [])
          ∷ obj (
              ("warehouse", text "Los Angeles Warehouse")
              ∷ ("category", text "Electronics")
              ∷ ("item_count", num js 1)
              ∷ [])
          ∷ obj (
              ("warehouse", text "Atlanta Warehouse")
              ∷ ("category", text "Home Goods")
              ∷ ("item_count", num js 1)
              ∷ [])
          ∷ obj (
              ("warehouse", text "Seattle Warehouse")
              ∷ ("category", text "Home Goods")
              ∷ ("item_count", num js 1)
              ∷ [])
          ∷ obj (
              ("warehouse", text "Atlanta Warehouse")
              ∷ ("category", text "Clothing")
              ∷ ("item_count", num js 1)
              ∷ [])
          ∷ obj (
              ("warehouse", text "Atlanta Warehouse")
              ∷ ("category", text "Electronics")
              ∷ ("item_count", num js 1)
              ∷ [])
          ∷ obj (
              ("warehouse", text "Chicago Warehouse")
              ∷ ("category", text "Home Goods")
              ∷ ("item_count", num js 1)
              ∷ [])
          ∷ obj (
              ("warehouse", text "Chicago Warehouse")
              ∷ ("category", text "Electronics")
              ∷ ("item_count", num js 1)
              ∷ [])
          ∷ obj (
              ("warehouse", text "Chicago Warehouse")
              ∷ ("category", text "Clothing")
              ∷ ("item_count", num js 1)
              ∷ [])
          ∷ obj (
              ("warehouse", text "New York City Warehouse")
              ∷ ("category", text "Home Goods")
              ∷ ("item_count", num js 2)
              ∷ [])
          ∷ obj (
              ("warehouse", text "Seattle Warehouse")
              ∷ ("category", text "Clothing")
              ∷ ("item_count", num js 1)
              ∷ [])
          ∷ []))
        (obj (
          ("type", text "stacked-bar")
          ∷ ("xAxis", text "warehouse")
          ∷ ("yAxis", text "item_count")
          ∷ ("groupBy", text "category")
          ∷ []))

  abbrev pub reorder_points_sample : Value N
  reorder_points_sample =
      chart
        (arr (
          obj (("item", text "Item A") ∷ ("current", num js 25) ∷ ("reorder", num js 15) ∷ [])
          ∷ obj (("item", text "Item B") ∷ ("current", num js 12) ∷ ("reorder", num js 20) ∷ [])
          ∷ obj (("item", text "Item C") ∷ ("current", num js 30) ∷ ("reorder", num js 10) ∷ [])
          ∷ obj (("item", text "Item D") ∷ ("current", num js 8) ∷ ("reorder", num js 15) ∷ [])
          ∷ obj (("item", text "Item E") ∷ ("current", num js 22) ∷ ("reorder", num js 18) ∷ [])
          ∷ []))
        (obj (("type", text "bar") ∷ ("xAxis", text "item") ∷ ("yAxis", text "current") ∷ []))

  abbrev pub get_stock_level_trends : Method N
  get_stock_level_trends =
      validated js "/api/analytics/inventory/stock-trends" stock_level_trends_sample

  abbrev pub get_inventory_distribution : Method N
  get_inventory_distribution =
      validated js "/api/analytics/inventory/distribution" inventory_distribution_sample

  abbrev pub get_warehouse_distribution : Method N
  get_warehouse_distribution =
      validated js "/api/analytics/inventory/warehouse-distribution" warehouse_distribution_sample

  abbrev pub get_reorder_points : Method N
  get_reorder_points = validated js "/api/analytics/inventory/reorder-points" reorder_points_sample
