-- ===== src/Commerce/Checkout/Reserving.antt =====
-- order.service.ts, the loop of createOrderFromItems that reserves the stock of each line.
use all_in_one_v2_api.Base.{
  ℕ, Bool, not, ◌&&◌, List, [], ◌∷◌, Table, find_first, http, pure, ◌>>=◌, ◌>>◌, gets, or_throw,
  guard, when, ltb,
}
use all_in_one_v2_api.Base.Int.{pos, ltb_ℤ}
use all_in_one_v2_api.Inventory.{
  Stock, Place, is_variant, stock_summary_by_variant, effective_available_stock, reserve_stock,
}
use all_in_one_v2_api.Commerce.Checkout.Shop.{CartItemLike, Shop, Desk, Desking, in_warehouse}

-- `effectiveStock.available < item.quantity`, negated
abbrev pub is_available : Desk → CartItemLike → Table Stock → Bool
is_available d l t = not (
    ltb_ℤ
      (effective_available_stock d.tenant l.product_variant_id
        (d.supplier_stock l.product_variant_id) t)
      (pos l.quantity))

-- `effectiveStock.source !== 'supplier'`
abbrev pub is_warehoused : Desk → CartItemLike → Table Stock → Bool
is_warehoused d l t = ltb 0 (stock_summary_by_variant d.tenant l.product_variant_id t).locations

-- `loc.available >= item.quantity`
abbrev pub has_room : Desk → CartItemLike → ℕ → Stock → Bool
has_room d l _ s =
    is_variant d.tenant l.product_variant_id s && not (ltb_ℤ s.available (pos l.quantity))

abbrev pub place_of : Desk → CartItemLike → Stock → Place
place_of d l s = record {
  tenant = d.tenant;
  variant = l.product_variant_id;
  location = s.location_id;
}

-- the reservation at the first location that has enough
unfoldable pub reserve_somewhere : Desk → CartItemLike → Table Stock → Desking (Unit {0})
reserve_somewhere d l stocks = do
  room ← or_throw (find_first (has_room d l) stocks) (http 400)
  in_warehouse (reserve_stock (place_of d l room.1) l.quantity)

-- the body of the loop
unfoldable pub reserve_line : Desk → CartItemLike → Desking (Unit {0})
unfolding reserve_somewhere
reserve_line d l = do
  stocks ← gets (λ (s : Shop). (s.warehouse).stocks)
  guard (is_available d l stocks) (http 400)
  when (is_warehoused d l stocks) (reserve_somewhere d l stocks)

unfoldable pub reserve_lines : Desk → List CartItemLike → Desking (Unit {0})
reserve_lines d [] = pure tt
reserve_lines d (l ∷ lines) = do reserve_line d l; reserve_lines d lines
