-- ===== src/Examples/Orders.antt =====
-- The order theorems at a concrete order.
use mathlib.Core.Option
use all_in_one_v2_api.Base.{
  ◌≡◌, refl, ℕ, true, false, Option, none, some, [], if◌then◌else◌, find, find_first, any_row,
  state_of, same, ◌>>=◌,
}
use all_in_one_v2_api.Commerce.Status.{OrderStatus, PaymentStatus, order_status}
use all_in_one_v2_api.Commerce.Store.{Order, Payment, Store, create_notification}
use all_in_one_v2_api.Commerce.Orders.Rows.{
  find_order, update_status, is_open_payment_of, set_payment_status, set_order_status,
}
use all_in_one_v2_api.Commerce.Orders.Service.{
  cancel_order, has_captured_payment, is_placed, may_cancel, is_paid_payment_of,
}
use all_in_one_v2_api.Commerce.Orders.Cancelling.{cancel_order_effect, cancel_order_keeps_paid}
use all_in_one_v2_api.Commerce.Orders.Rejecting.{reject_order}
use all_in_one_v2_api.Commerce.Orders.Declined.{reject_order_effect}
use all_in_one_v2_api.Commerce.Payments.Refunding.{
  is_stripe, refund_payment, create_refund, create_stripe_refund,
}
use all_in_one_v2_api.Commerce.Returns.Money.{asked_after, refund_row}
use all_in_one_v2_api.Examples.Fixtures.{shop, shop_env, a_payment}

abbrev unpaid : Store
unpaid = shop OrderStatus.pending PaymentStatus.created

cancel_order_effect_example :
    (o : Order) × (find_order 1 2 unpaid ≡ some o)
    × (may_cancel o none ≡ true)
    × (has_captured_payment 2 unpaid ≡ false)
    × (is_placed 2 unpaid ≡ false)
    × (find_order 1 2 (state_of (cancel_order shop_env 2 none unpaid))
        ≡ some (set_order_status OrderStatus.cancelled o))
    × (find 3 (state_of (cancel_order shop_env 2 none unpaid)).payments
        ≡ Option.map
            (λ p.
              if is_open_payment_of 2 3 p then set_payment_status PaymentStatus.cancelled p else p)
            (find 3 unpaid.payments))
unfolding cancel_order ◌>>=◌ find_order has_captured_payment is_placed any_row find
cancel_order_effect_example = cancel_order_effect shop_env 2 none unpaid 3 refl

abbrev paid : Store
paid = shop OrderStatus.processing PaymentStatus.paid

cancel_order_keeps_paid_example :
    find 3 (state_of (cancel_order shop_env 2 none paid)).payments
    ≡ some (a_payment PaymentStatus.paid)
unfolding find
cancel_order_keeps_paid_example =
    cancel_order_keeps_paid shop_env 2 none paid 3 (a_payment PaymentStatus.paid) refl refl

reject_order_effect_example :
    (o : Order) × (k : ℕ) × (p : Payment) × (t : Option ℕ) × (find_order 1 2 paid ≡ some o)
    × (same o.status OrderStatus.processing ≡ true)
    × (is_placed 2 paid ≡ false)
    × (find_first (is_paid_payment_of 2) paid.payments ≡ some (k, p))
    × ((state_of (reject_order shop_env 2 paid)).gateway_refunds
        ≡ asked_after (is_stripe p.gateway) p.transaction o.total_amount [])
    × (find 100 (state_of (reject_order shop_env 2 paid)).refunds
        ≡ some (refund_row shop_env 2 none o.total_amount t))
    × (find_order 1 2 (state_of (reject_order shop_env 2 paid))
        ≡ some (set_order_status OrderStatus.rejected o))
unfolding reject_order ◌>>=◌ find_order is_placed any_row find find_first refund_payment
    create_refund create_stripe_refund update_status create_notification
reject_order_effect_example = reject_order_effect shop_env 2 paid refl
