-- ===== src/Commerce/Payments/Refunding.antt =====
-- refundPayment of payment.service.ts, and the Refund rows of return.repository.ts.
use all_in_one_v2_api.Base.{
  ℕ, ◌+◌, ◌/◌, ◌==◌, Bool, true, false, ◌&&◌, Option, none, some, ◌∷◌, find_first, insert, update,
  same, http, thrown, ok, err, Outcome, pure, ◌>>=◌, gets, or_throw,
}
use all_in_one_v2_api.Commerce.Status.{Gateway, gateway_enum, RefundStatus, refund_status}
use all_in_one_v2_api.Commerce.Store.{Refund, Store, Env, Action}
use all_in_one_v2_api.Commerce.Orders.Rows.{find_order}
use all_in_one_v2_api.Commerce.Orders.Service.{is_paid_payment_of}

-- `Math.round(amount * 100)`, from ten-thousandths to cents
abbrev pub in_cents : ℕ → ℕ
in_cents amount = (amount + 50) / 100

abbrev pub is_stripe : Option Gateway → Bool
is_stripe none = false
is_stripe (some g) = same g Gateway.stripe

-- `stripe.refunds.create`: the request is made, and its id comes back or the call throws
abbrev pub stripe_answer : Option ℕ → Store → Outcome Store (Option ℕ)
stripe_answer none s = err thrown s
stripe_answer (some id) s = ok (some id) s

unfoldable pub create_stripe_refund : Env → ℕ → ℕ → Action (Option ℕ)
create_stripe_refund env intent cents s =
    stripe_answer (env.stripe_refund intent cents)
      (record s { gateway_refunds = (intent, cents) ∷ s.gateway_refunds })

-- the branch on `paidPayment.gateway === STRIPE && paidPayment.gatewayTransactionId`
abbrev pub refund_through : Env → Bool → Option ℕ → ℕ → Action (Option ℕ)
refund_through env true (some intent) amount = create_stripe_refund env intent (in_cents amount)
refund_through env true none amount = pure none
refund_through env false transaction amount = pure none

-- refundPayment
unfoldable pub refund_payment : Env → ℕ → ℕ → Action (Option ℕ)
unfolding find_order create_stripe_refund
refund_payment env order amount = do
  o ← or_throw (← gets (find_order env.tenant order)) (http 404)
  paid ← or_throw (← gets (λ s. find_first (is_paid_payment_of order) s.payments)) (http 409)
  refund_through env (is_stripe (paid.1).gateway) (paid.1).transaction amount

-- createRefund; it returns the new row's id
unfoldable pub create_refund : Env → ℕ → Option ℕ → ℕ → Option ℕ → Action ℕ
create_refund env order return_id amount transaction s =
    let row : Refund = record {
      tenant_id = env.tenant;
      order_id = order;
      return_id = return_id;
      amount = amount;
      status = RefundStatus.pending;
      transaction = transaction;
    } in
    ok s.next_id (record s { refunds = insert s.next_id row s.refunds; next_id = s.next_id + 1 })

abbrev pub is_pending_refund_of : ℕ → ℕ → Refund → Bool
is_pending_refund_of order _ r = r.order_id == order && same r.status RefundStatus.pending

abbrev pub complete_refund : Option (ℕ × Refund) → Action (Option Refund)
complete_refund none s = ok none s
complete_refund (some (id, r)) s =
    ok (some r) (record s {
      refunds = update id (λ x. record x { status = RefundStatus.completed }) s.refunds;
    })

-- markMostRecentPendingRefundCompleted; it returns the refund that it completed
unfoldable pub complete_pending_refund : ℕ → Action (Option Refund)
complete_pending_refund order s =
    complete_refund (find_first (is_pending_refund_of order) s.refunds) s
