-- ===== src/Commerce/Orders/Rejecting.antt =====
-- rejectOrder of order.service.ts: a captured order is declined, with a full refund.
use all_in_one_v2_api.Base.{
  ℕ, not, none, find_first, same, http, ◌>>=◌, ◌>>◌, gets, or_throw, guard, modify, attempt,
}
use all_in_one_v2_api.Commerce.Status.{OrderStatus, order_status}
use all_in_one_v2_api.Commerce.Store.{Notice, Env, Action}
use all_in_one_v2_api.Commerce.Orders.Rows.{find_order, update_status}
use all_in_one_v2_api.Commerce.Orders.Service.{is_placed, is_paid_payment_of}
use all_in_one_v2_api.Commerce.Payments.Refunding.{refund_payment, create_refund}
use all_in_one_v2_api.Commerce.Payments.Webhook.{notify_user}

-- rejectOrder
unfoldable pub reject_order : Env → ℕ → Action (Unit {0})
reject_order env id = do
  order ← or_throw (← gets (find_order env.tenant id)) (http 404)
  guard (same order.status OrderStatus.processing) (http 409)
  placed ← gets (is_placed id)
  guard (not placed) (http 409)
  paid ← or_throw (← gets (λ s. find_first (is_paid_payment_of id) s.payments)) (http 409)
  transaction ← refund_payment env id order.total_amount
  refund ← create_refund env id none order.total_amount transaction
  modify (update_status env.tenant id OrderStatus.rejected)
  attempt (notify_user env order.user_id (Notice.order_rejected id))
