-- ===== src/Backoffice/Orders/Laws.antt =====
-- What the order keeps of its products when another one is chosen or one is removed.
use synkro.Base.{
  String, false, Option, none, some, List, [], ◌∷◌, ◌++◌, map, ◌≡◌, refl, ap, arith, not, All, keep,
  any_of,
}
use synkro.Widgets.Select.{Quantities, SelectOption, available_options}
use synkro.Backoffice.Orders.{
  ProductFields, Product, option_of, OrderItem, same_value, as_option, item_of, select_product,
  remove_product,
}

module _ {P Q : Type 0} (zero_price : P) (numbers : Quantities Q) where
  -- An item without its product and its price.
  abbrev pub forgotten : OrderItem P Q → OrderItem P Q
  forgotten item = record item { product_id = none; unit_price = zero_price }

  map-append :
      (items : List (OrderItem P Q)) (o : SelectOption (Option String) (ProductFields P) Q)
      → map (item_of zero_price numbers) (map (as_option zero_price numbers) items ++ o ∷ [])
        ≡ map forgotten items ++ item_of zero_price numbers o ∷ []
  map-append [] o = refl
  map-append (i ∷ is) o = ap (λ l. forgotten i ∷ l) (map-append is o)

  keep-none :
      (items : List (OrderItem P Q))
      → map (item_of zero_price numbers) (
          keep
            (λ item. not (same_value item.value none))
            (map (as_option zero_price numbers) items))
        ≡ []
  keep-none [] = refl
  keep-none (i ∷ is) = keep-none is

  none-chosen :
      (o : SelectOption (Option String) (ProductFields P) Q) (v : String)
      (items : List (OrderItem P Q))
      → o.value ≡ some v
      → any_of (λ item. same_value item.value o.value) (map (as_option zero_price numbers) items)
        ≡ false
  none-chosen o v [] e = refl
  none-chosen o v (i ∷ is) e = ground (arith, none-chosen o v is e)

  -- The options that have a value are those that can be chosen.
  abbrev pub HasValue : SelectOption (Option String) (ProductFields P) Q → Type 0
  HasValue o = (v : String) × (o.value ≡ some v)

  options_free :
      (options : List (SelectOption (Option String) (ProductFields P) Q))
      (items : List (OrderItem P Q))
      → All HasValue options
      → available_options same_value options (map (as_option zero_price numbers) items) ≡ options
  options_free [] items h = refl
  options_free (o ∷ os) items ((v, e), h) =
      let free = none-chosen o v items e in rw free (ap (λ l. o ∷ l) (options_free os items h))

  options-HasValue :
      (to_fixed : P → String) (products : List (Product P))
      → All HasValue (map (option_of to_fixed) products)
  options-HasValue to_fixed [] = tt
  options-HasValue to_fixed (p ∷ ps) = ((p.id, refl), options-HasValue to_fixed ps)

  -- Choosing a product adds one of it with its id and price, but takes the product id and the price
  -- from every item that the order had before; products that the order has are still offered; and
  -- removing any item of it removes all of them.
  pub select_product-forgets :
      (to_fixed : P → String) (product : Product P) (item : OrderItem P Q)
      (items : List (OrderItem P Q)) (products : List (Product P))
      → let options = map (option_of to_fixed) products in
        (select_product zero_price numbers (option_of to_fixed product) items
          ≡ map forgotten items
            ++ record {
              product_id = some product.id;
              sku = product.sku;
              name = product.name;
              quantity = numbers.one;
              unit_price = product.price;
            }
              ∷ [])
        × (available_options same_value options (map (as_option zero_price numbers) items)
            ≡ options)
        × (remove_product zero_price numbers item items ≡ [])
  unfolding select_product remove_product
  select_product-forgets to_fixed product item items products = (
    map-append items _,
    options_free (map (option_of to_fixed) products) items (options-HasValue to_fixed products),
    keep-none items,
  )
