-- ===== src/Commerce/Orders/Service.antt =====
-- order.service.ts: who may see an order, and the status changes that move no money.
use all_in_one_v2_api.Base.{
  ℕ, ◌==◌, Bool, true, not, ◌&&◌, ◌||◌, Option, none, some, any_row, same, http, pure, ◌>>=◌, ◌>>◌,
  gets, or_throw, guard, modify,
}
use all_in_one_v2_api.Commerce.Status.{OrderStatus, PaymentStatus, order_status, payment_status}
use all_in_one_v2_api.Commerce.Store.{
  Order, Payment, SupplierOrder, Store, Env, Viewer, Action, same_id,
}
use all_in_one_v2_api.Commerce.Orders.Rows.{find_order, update_status}

-- isOrderOwner
unfoldable pub is_order_owner : Order → Viewer → Bool
is_order_owner o v = same_id v.customer_id o.customer_id || same_id v.session_id o.session_id

-- the guard `!viewer.isAdmin && !isOrderOwner(order, viewer)`, negated
unfoldable pub may_view : Order → Viewer → Bool
unfolding is_order_owner
may_view o v = v.is_admin || is_order_owner o v

-- getOrderDetails
unfoldable pub get_order_details : Env → ℕ → Viewer → Action Order
unfolding may_view find_order
get_order_details env id viewer = do
  order ← or_throw (← gets (find_order env.tenant id)) (http 404)
  guard (may_view order viewer) (http 404)
  pure order

-- the statuses that updateOrderStatus sends to the guarded paths
abbrev pub needs_guarded_path : OrderStatus → Bool
needs_guarded_path status =
    same status OrderStatus.cancelled
    || same status OrderStatus.refunded
    || same status OrderStatus.rejected

-- updateOrderStatus; `none` is a string outside the enumeration
unfoldable pub update_order_status : Env → ℕ → Option OrderStatus → Action (Unit {0})
unfolding find_order
update_order_status env id requested = do
  status ← or_throw requested (http 400)
  guard (not (needs_guarded_path status)) (http 400)
  order ← or_throw (← gets (find_order env.tenant id)) (http 404)
  modify (update_status env.tenant id status)

abbrev pub is_paid_payment_of : ℕ → ℕ → Payment → Bool
is_paid_payment_of order _ p = p.order_id == order && same p.status PaymentStatus.paid

-- `order.payments?.some((p) => p.status === PAID)`
unfoldable pub has_captured_payment : ℕ → Store → Bool
has_captured_payment order s = any_row (is_paid_payment_of order) s.payments

abbrev pub is_supplier_order_of : ℕ → ℕ → SupplierOrder → Bool
is_supplier_order_of order _ so = so.order_id == order

-- `order.supplierOrders?.length > 0`
unfoldable pub is_placed : ℕ → Store → Bool
is_placed order s = any_row (is_supplier_order_of order) s.supplier_orders

-- staff pass no viewer
abbrev pub may_cancel : Order → Option Viewer → Bool
may_cancel order none = true
may_cancel order (some viewer) = may_view order viewer

-- cancelOrder
unfoldable pub cancel_order : Env → ℕ → Option Viewer → Action (Unit {0})
cancel_order env id viewer = do
  order ← or_throw (← gets (find_order env.tenant id)) (http 404)
  guard (may_cancel order viewer) (http 404)
  captured ← gets (has_captured_payment id)
  guard (not captured) (http 409)
  placed ← gets (is_placed id)
  guard (not placed) (http 409)
  modify (update_status env.tenant id OrderStatus.cancelled)
