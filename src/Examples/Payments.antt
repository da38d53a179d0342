-- ===== src/Examples/Payments.antt =====
-- The payment theorems at concrete deliveries.
use all_in_one_v2_api.Base.{
  some, ◌≡◌, refl, true, arith, find, find_first, insert, ok, state_of, ◌>>=◌,
}
use all_in_one_v2_api.Commerce.Status.{OrderStatus, PaymentStatus}
use all_in_one_v2_api.Commerce.Store.{Store, create_notification}
use all_in_one_v2_api.Commerce.Payments.Webhook.{
  Provider, EventType, handle_webhook, record_webhook_event, claim_event, apply_event,
  handle_stripe, find_by_transaction, apply_payment_status, settle_paid,
}
use all_in_one_v2_api.Commerce.Payments.Sales.{record_order_sale}
use all_in_one_v2_api.Commerce.Payments.Finality.{is_paid_row, paid_is_final}
use all_in_one_v2_api.Commerce.Payments.Redelivery.{redelivery_ignored}
use all_in_one_v2_api.Commerce.Payments.SoldOnce.{record_order_sale_once}
use all_in_one_v2_api.Commerce.Payments.Webhook.{Payload, PaymongoStatus}
use all_in_one_v2_api.Examples.Fixtures.{shop, shop_env, mute_env, intent_payload}

abbrev pending_shop : Store
pending_shop = shop OrderStatus.pending PaymentStatus.created

-- a late failure event leaves the captured payment alone
paid_is_final_example :
    is_paid_row (
      find 3
        (state_of (
          handle_webhook shop_env Provider.stripe EventType.payment_failed intent_payload
            (shop OrderStatus.processing PaymentStatus.paid))).payments)
    ≡ true
unfolding find
paid_is_final_example =
    paid_is_final shop_env Provider.stripe EventType.payment_failed intent_payload
      (shop OrderStatus.processing PaymentStatus.paid) 3 (λ e. ground arith) (refl, tt) refl

abbrev paid_shop : Store
paid_shop = state_of (
    handle_webhook shop_env Provider.stripe EventType.payment_succeeded intent_payload pending_shop)

redelivery_ignored_example :
    handle_webhook shop_env Provider.stripe EventType.payment_succeeded intent_payload paid_shop
    ≡ ok true paid_shop
unfolding handle_webhook ◌>>=◌ record_webhook_event claim_event apply_event handle_stripe
    find_by_transaction apply_payment_status settle_paid create_notification find find_first insert
redelivery_ignored_example =
    redelivery_ignored shop_env shop_env Provider.stripe EventType.payment_succeeded
      EventType.payment_succeeded intent_payload intent_payload pending_shop paid_shop refl refl

abbrev failed_shop : Store
failed_shop = state_of (
    handle_webhook mute_env Provider.stripe EventType.payment_succeeded intent_payload pending_shop)

record_order_sale_once_example :
    record_order_sale 1 2 (record_order_sale 1 2 pending_shop) ≡ record_order_sale 1 2 pending_shop
record_order_sale_once_example = record_order_sale_once 1 2 pending_shop

abbrev paymongo_payload : PaymongoStatus → Payload
paymongo_payload status = record intent_payload { data_id = some 71; data_status = some status }

abbrev declined_shop : Store
declined_shop = state_of (
    handle_webhook shop_env Provider.paymongo EventType.other
      (paymongo_payload PaymongoStatus.failed) pending_shop)

-- the customer paid at the second attempt, and the payment stays FAILED
