-- ===== src/Commerce/Fulfilment.antt =====
-- src/modules/commerce/cj-order-fulfillment.service.ts and createSupplierOrderWithItems of
-- order.repository.ts. The address texts and the titles of items are left out.
pub mod Placed
pub mod Once
use all_in_one_v2_api.Base.{
  ℕ, ◌+◌, ◌==◌, Bool, true, false, not, ◌&&◌, Option, none, some, List, [], ◌∷◌, map, is_some,
  if◌then◌else◌, same, Table, any_row, insert, update_many, length, http, thrown, ok, err, Handler,
  pure, ◌>>=◌, ◌>>◌, gets, or_throw, guard, modify, state_of,
}
use all_in_one_v2_api.Commerce.Status.{OrderStatus, SupplierOrderStatus, order_status}
use all_in_one_v2_api.Commerce.Store.{OrderItem, Order, SupplierOrder, Store}
use all_in_one_v2_api.Commerce.Orders.Rows.{find_order, is_order, set_order_status}

-- what placeAndPayOrder does: it throws, answers null, or the order stands at CJ, paid or not
pub data Reply : Type 0 where
  threw refused : Reply
  accepted : ℕ → Bool → Reply

-- the shop's tables, and every call of placeAndPayOrder: the order, and what CJ answered
pub record Placements : Type 0 where
  pub store : Store
  pub calls : Table Reply

-- What a placement runs in: the tenant, the row of the supplier partner if it is configured, CJ's variant
-- of a product variant, the answer of CJ to its n-th call, and whether the transaction after that call
-- commits.
pub record CjEnv : Type 0 where
  pub tenant : ℕ
  pub partner : Option ℕ
  pub vid : ℕ → Option ℕ
  pub replies : ℕ → Reply
  pub commits : ℕ → Bool

abbrev pub Placing : Type 0 → Type 0
Placing A = Handler Placements A

-- findSupplierOrderForOrder, for an order of the tenant
abbrev pub is_placement_of : ℕ → ℕ → ℕ → SupplierOrder → Bool
is_placement_of order partner _ so = so.order_id == order && so.supplier_id == partner

abbrev pub is_mapped_item : CjEnv → OrderItem → Bool
is_mapped_item env i = is_some (env.vid i.product_variant_id)

-- `unmapped.length === 0`
abbrev pub all_sourced : CjEnv → List OrderItem → Bool
all_sourced env [] = true
all_sourced env (i ∷ items) = is_mapped_item env i && all_sourced env items

-- the call of the adapter, with its answer in the log
unfoldable pub ask_cj : CjEnv → ℕ → Placing (Option (ℕ × Bool))
ask_cj env id s =
    let reply = env.replies (length s.calls) in
    let t = record s { calls = insert id reply s.calls } in answer reply t
  where
    answer : Reply → Placing (Option (ℕ × Bool))
    answer Reply.threw t = err thrown t
    answer Reply.refused t = ok none t
    answer (Reply.accepted external paid) t = ok (some (external, paid)) t

abbrev pub placed_row : ℕ → ℕ → ℕ → Bool → SupplierOrder
placed_row order partner external paid = record {
  order_id = order;
  supplier_id = partner;
  external_id = some external;
  status = if paid then SupplierOrderStatus.confirmed else SupplierOrderStatus.placed;
  refund_requests = [];
}

-- every item of the order is given to the placement
abbrev pub linked : ℕ → OrderItem → OrderItem
linked placement i = record i { supplier_order_id = some placement }

abbrev pub with_placement : ℕ → Order → Order
with_placement placement o = record o { items = map (linked placement) o.items }

abbrev pub is_pending_order : ℕ → ℕ → ℕ → Order → Bool
is_pending_order tenant id i o = is_order tenant id i o && same o.status OrderStatus.pending

-- createSupplierOrderWithItems, one transaction, on all items of the order
unfoldable pub create_supplier_order_with_items : ℕ → ℕ → SupplierOrder → Store → Store
create_supplier_order_with_items tenant id row s = record s {
  supplier_orders = insert s.next_id row s.supplier_orders;
  orders =
      update_many (is_pending_order tenant id) (set_order_status OrderStatus.processing)
        (update_many (is_order tenant id) (with_placement s.next_id) s.orders);
  next_id = s.next_id + 1;
}

-- the transaction after the last call, which may fail
unfoldable pub record_placement : CjEnv → ℕ → SupplierOrder → Placing ℕ
record_placement env id row s =
    if env.commits (length s.calls)
    then ok (s.store).next_id
        (record s { store = create_supplier_order_with_items env.tenant id row s.store })
    else err thrown s

-- CJOrderFulfillmentService.placeOrder
unfoldable pub place_with_supplier : CjEnv → ℕ → Placing ℕ
place_with_supplier env id = do
  row ← gets (λ (s : Placements). find_order env.tenant id s.store)
  order ← or_throw row (http 404)
  partner ← or_throw env.partner (http 500)
  existing ←
      gets (λ (s : Placements). any_row (is_placement_of id partner) (s.store).supplier_orders)
  guard (not existing) (http 409)
  guard order.has_shipping_address (http 400)
  guard (all_sourced env order.items) (http 422)
  result ← ask_cj env id
  cj ← or_throw result (http 502)
  record_placement env id (placed_row id partner cj.0 cj.1)

-- placements of orders, one after another, however each ends
unfoldable pub place_all : CjEnv → List ℕ → Placements → Placements
place_all env [] s = s
place_all env (id ∷ ids) s = place_all env ids (state_of (place_with_supplier env id s))
