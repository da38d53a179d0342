-- ===== src/Inventory.antt =====
-- The stock rows of src/modules/inventory/inventory.repository.ts. `onHand` and `reserved` are counts;
-- `available` is an integer, since one of the writes can make it negative.
pub mod Reserving
pub mod Interleaved
use all_in_one_v2_api.Base.{
  ℕ, ◌+◌, ◌-◌, ◌==◌, Bool, true, false, not, ◌&&◌, Option, none, some, List, [], ◌∷◌, if◌then◌else◌,
  Table, find_first, insert, update_many, any_row, http, thrown, ok, Handler, pure, ◌>>=◌, ◌>>◌,
  gets, guard, modify, or_throw, ltb, get_or,
}
use all_in_one_v2_api.Base.Int.{ℤ, pos, negsuc, sub_ℕ, ltb_ℤ, clamp, ◌+ℤ◌}

-- InventoryStock
pub record Stock : Type 0 where
  pub tenant_id : ℕ
  pub variant_id : ℕ
  pub location_id : ℕ
  pub on_hand : ℕ
  pub reserved : ℕ
  pub available : ℤ
  pub reorder_point : ℕ
  pub version : ℕ

-- the stock rows, and the id that the next one gets
pub record Warehouse : Type 0 where
  pub stocks : Table Stock
  pub next_id : ℕ

-- where a row stands: the tenant, the variant and the location
pub record Place : Type 0 where
  pub tenant : ℕ
  pub variant : ℕ
  pub location : ℕ

-- `where: { tenantId, variantId, locationId }`
abbrev pub is_at : Place → ℕ → Stock → Bool
is_at p _ s = s.tenant_id == p.tenant && s.variant_id == p.variant && s.location_id == p.location

-- the row as findFirst gives it
unfoldable pub stock_at : Place → Table Stock → Option (ℕ × Stock)
stock_at p t = find_first (is_at p) t

-- the data of the two writes. Both read `onHand` and `reserved` off the row that was found before.
abbrev pub reserved_more : Stock → ℕ → Stock → Stock
reserved_more found quantity s = record s {
  reserved = found.reserved + quantity;
  available = clamp (sub_ℕ found.on_hand (found.reserved + quantity));
  version = s.version + 1;
}

abbrev pub released : Stock → ℕ → Stock → Stock
released found quantity s = record s {
  reserved = found.reserved - quantity;
  available = sub_ℕ found.on_hand (found.reserved - quantity);
  version = s.version + 1;
}

-- `data: { onHand, available, reorderPoint }`, the `available` worked out from the row found before
abbrev pub set_from : Stock → ℕ → ℕ → Stock → Stock
set_from found on_hand reorder s = record s {
  on_hand = on_hand;
  available = clamp (sub_ℕ on_hand found.reserved);
  reorder_point = reorder;
}

abbrev pub set_found : Place → ℕ → ℕ → Option (ℕ × Stock) → Handler Warehouse (Unit {0})
set_found p on_hand reorder (some (_, found)) =
    modify
      λ w. record w { stocks = update_many (is_at p) (set_from found on_hand reorder) w.stocks }
set_found p on_hand reorder none =
    let row : Stock = record {
      tenant_id = p.tenant;
      variant_id = p.variant;
      location_id = p.location;
      on_hand = on_hand;
      reserved = 0;
      available = pos on_hand;
      reorder_point = reorder;
      version = 0;
    } in
    modify λ w. record w { stocks = insert w.next_id row w.stocks; next_id = w.next_id + 1 }

-- setStock
unfoldable pub set_stock : Place → ℕ → ℕ → Handler Warehouse (Unit {0})
unfolding stock_at
set_stock p on_hand reorder = do
  existing ← gets (λ (w : Warehouse). stock_at p w.stocks)
  set_found p on_hand reorder existing

-- `where: { …, version: stock.version }`
abbrev pub is_version : Place → ℕ → ℕ → Stock → Bool
is_version p version i s = is_at p i s && s.version == version

-- updateMany under the version that was read; it throws if no row has it any more
unfoldable pub write_version : Place → ℕ → (Stock → Stock) → Handler Warehouse (Unit {0})
write_version p version f = do
  matches ← gets (λ (w : Warehouse). any_row (is_version p version) w.stocks)
  guard matches thrown
  modify λ w. record w { stocks = update_many (is_version p version) f w.stocks }

-- reserveStock
unfoldable pub reserve_stock : Place → ℕ → Handler Warehouse (Unit {0})
unfolding stock_at write_version
reserve_stock p quantity = do
  found ← or_throw (← gets (λ (w : Warehouse). stock_at p w.stocks)) thrown
  guard (not (ltb_ℤ (found.1).available (pos quantity))) thrown
  write_version p (found.1).version (reserved_more found.1 quantity)

abbrev pub release_found : Place → ℕ → Option (ℕ × Stock) → Handler Warehouse (Unit {0})
release_found p quantity none = pure tt
release_found p quantity (some (_, found)) = write_version p found.version (released found quantity)

-- releaseReservation
unfoldable pub release_reservation : Place → ℕ → Handler Warehouse (Unit {0})
unfolding stock_at write_version
release_reservation p quantity = do
  found ← gets (λ (w : Warehouse). stock_at p w.stocks)
  release_found p quantity found

-- the sums of getStockSummaryByVariant
pub record Summary : Type 0 where
  pub total_on_hand : ℕ
  pub total_reserved : ℕ
  pub total_available : ℤ
  pub locations : ℕ

abbrev pub is_variant : ℕ → ℕ → Stock → Bool
is_variant tenant variant s = s.tenant_id == tenant && s.variant_id == variant

abbrev pub add_stock : Stock → Summary → Summary
add_stock s sum = record {
  total_on_hand = s.on_hand + sum.total_on_hand;
  total_reserved = s.reserved + sum.total_reserved;
  total_available = s.available +ℤ sum.total_available;
  locations = sum.locations + 1;
}

-- getStockSummaryByVariant
unfoldable pub stock_summary_by_variant : ℕ → ℕ → Table Stock → Summary
stock_summary_by_variant tenant variant [] = record {
  total_on_hand = 0;
  total_reserved = 0;
  total_available = pos 0;
  locations = 0;
}
stock_summary_by_variant tenant variant ((i, s) ∷ t) =
    let rest = stock_summary_by_variant tenant variant t in
    if is_variant tenant variant s then add_stock s rest else rest

-- the `available` of getEffectiveAvailableStock, with the supplier's stock count where it has one
unfoldable pub effective_available_stock : ℕ → ℕ → Option ℤ → Table Stock → ℤ
unfolding stock_summary_by_variant
effective_available_stock tenant variant supplier t =
    let summary = stock_summary_by_variant tenant variant t in
    if ltb 0 summary.locations then summary.total_available else get_or supplier (pos 0)
