-- ===== src/Commerce/Payments/Frame.antt =====
-- What the processing of a webhook leaves alone.
use Prim.Native.String.{String}
use all_in_one_v2_api.Base.{
  ℕ, ◌≡◌, refl, Option, none, some, arith, Steps, Keeps, Keeps-Preorder, step_rules, Steps-pure,
  Preorder,
}
use all_in_one_v2_api.Commerce.Status.{OrderStatus, PaymentStatus, ReturnStatus, ActorRole}
use all_in_one_v2_api.Commerce.Store.{
  Order, Payment, Return, Notice, Store, Env, create_notification,
}
use all_in_one_v2_api.Commerce.Orders.Rows.{update_status}
use all_in_one_v2_api.Commerce.Returns.Rows.{transition_status}
use all_in_one_v2_api.Commerce.Payments.Refunding.{complete_pending_refund}
use all_in_one_v2_api.Commerce.Payments.Sales.{record_order_sale}
use all_in_one_v2_api.Commerce.Payments.Webhook.{
  Provider, EventType, Payload, apply_payment_status, complete_return, complete_return_of,
  apply_to_payment, apply_to_transaction, settle_paid, update_payment_status, notify_user,
  apply_refund, refund_of_intent, handle_stripe, handle_paymongo, apply_event,
}

abbrev KeepsWebhooks : Store → Store → Type 0
KeepsWebhooks = Keeps (λ (s : Store). s.webhooks)

pub KeepsWebhooks-Preorder : Preorder KeepsWebhooks
KeepsWebhooks-Preorder = Keeps-Preorder (λ (s : Store). s.webhooks)

pub KeepsWebhooks-update_status :
    (tenant id : ℕ) (status : OrderStatus) (s : Store)
    → (update_status tenant id status s).webhooks ≡ s.webhooks
unfolding update_status
KeepsWebhooks-update_status tenant id OrderStatus.cancelled s = refl
KeepsWebhooks-update_status tenant id OrderStatus.refunded s = refl
KeepsWebhooks-update_status tenant id _ s = refl

pub KeepsWebhooks-record_order_sale :
    (tenant id : ℕ) (s : Store) → (record_order_sale tenant id s).webhooks ≡ s.webhooks
unfolding record_order_sale
KeepsWebhooks-record_order_sale tenant id s = ground arith

KeepsWebhooks-update_payment_status :
    (id : ℕ) (status : PaymentStatus) (s : Store)
    → (update_payment_status id status s).webhooks ≡ s.webhooks
unfolding update_payment_status
KeepsWebhooks-update_payment_status id status s = refl

create_notification-Steps :
    (env : Env) (user : ℕ) (notice : Notice)
    → Steps KeepsWebhooks (create_notification env user notice)
unfolding create_notification
create_notification-Steps env user notice = record { at = λ s. ground arith }

notify_user-Steps :
    (env : Env) (user : Option ℕ) (notice : Notice)
    → Steps KeepsWebhooks (notify_user env user notice)
notify_user-Steps env none notice = Steps-pure KeepsWebhooks-Preorder tt
notify_user-Steps env (some user) notice = create_notification-Steps env user notice

ruleset frame = (
  step_rules, KeepsWebhooks-Preorder, KeepsWebhooks-update_status, KeepsWebhooks-record_order_sale,
  KeepsWebhooks-update_payment_status, notify_user-Steps,
)

settle_paid-Steps :
    (env : Env) (order : ℕ) (o : Order) → Steps KeepsWebhooks (settle_paid env order o)
unfolding settle_paid
settle_paid-Steps env order o = search frame

apply_payment_status-Steps :
    (env : Env) (id : ℕ) (p : Payment) (next : PaymentStatus)
    → Steps KeepsWebhooks (apply_payment_status env id p next)
unfolding apply_payment_status
apply_payment_status-Steps env id p next = search (frame, settle_paid-Steps) depth 12

apply_to_payment-Steps :
    (env : Env) (found : Option (ℕ × Payment)) (next : PaymentStatus)
    → Steps KeepsWebhooks (apply_to_payment env found next)
apply_to_payment-Steps env none next = Steps-pure KeepsWebhooks-Preorder tt
apply_to_payment-Steps env (some (id, p)) next = apply_payment_status-Steps env id p next

apply_to_transaction-Steps :
    (env : Env) (transaction : Option ℕ) (next : Option PaymentStatus)
    → Steps KeepsWebhooks (apply_to_transaction env transaction next)
apply_to_transaction-Steps env (some t) (some next) = search (frame, apply_to_payment-Steps) depth 8
apply_to_transaction-Steps env (some t) none = Steps-pure KeepsWebhooks-Preorder tt
apply_to_transaction-Steps env none next = Steps-pure KeepsWebhooks-Preorder tt

transition_status-Steps :
    (tenant id : ℕ) (to : ReturnStatus) (user : Option ℕ) (role : ActorRole) (note : Option String)
    → Steps KeepsWebhooks (transition_status tenant id to user role note)
unfolding transition_status
transition_status-Steps tenant id to user role text = search frame depth 12

complete_return-Steps :
    (env : Env) (o : Order) (id : ℕ) (row : Option Return)
    → Steps KeepsWebhooks (complete_return env o id row)
unfolding complete_return
complete_return-Steps env o id none = search frame
complete_return-Steps env o id (some r) = search (frame, transition_status-Steps) depth 12

complete_return_of-Steps :
    (env : Env) (o : Order) (id : Option ℕ) → Steps KeepsWebhooks (complete_return_of env o id)
unfolding complete_return_of
complete_return_of-Steps env o none = search frame
complete_return_of-Steps env o (some r) = search (frame, complete_return-Steps) depth 12

complete_pending_refund-Steps : (order : ℕ) → Steps KeepsWebhooks (complete_pending_refund order)
unfolding complete_pending_refund
complete_pending_refund-Steps order = record { at = λ s. ground arith }

apply_refund-Steps :
    (env : Env) (found : Option (ℕ × Payment)) (cents : Option ℕ)
    → Steps KeepsWebhooks (apply_refund env found cents)
unfolding apply_refund
apply_refund-Steps env none cents = search frame
apply_refund-Steps env (some (id, p)) none = search frame
apply_refund-Steps env (some (id, p)) (some c) =
    search (frame, complete_pending_refund-Steps, complete_return_of-Steps) depth 14

refund_of_intent-Steps :
    (env : Env) (intent cents : Option ℕ) → Steps KeepsWebhooks (refund_of_intent env intent cents)
unfolding refund_of_intent
refund_of_intent-Steps env none cents = search frame
refund_of_intent-Steps env (some i) cents = search (frame, apply_refund-Steps) depth 8

handle_stripe-Steps :
    (env : Env) (type : EventType) (p : Payload) → Steps KeepsWebhooks (handle_stripe env type p)
unfolding handle_stripe
handle_stripe-Steps env EventType.payment_succeeded p = apply_to_transaction-Steps env p.object_id _
handle_stripe-Steps env EventType.payment_failed p = apply_to_transaction-Steps env p.object_id _
handle_stripe-Steps env EventType.charge_refunded p = refund_of_intent-Steps env p.payment_intent _
handle_stripe-Steps env EventType.other p = search frame

-- The processing of an event writes no webhook row, whatever it does and however it ends.
pub apply_event-Steps :
    (env : Env) (provider : Provider) (type : EventType) (p : Payload)
    → Steps KeepsWebhooks (apply_event env provider type p)
unfolding apply_event handle_paymongo
apply_event-Steps env Provider.paymongo type p = apply_to_transaction-Steps env p.data_id _
apply_event-Steps env Provider.stripe type p = handle_stripe-Steps env type p
apply_event-Steps env Provider.other type p = search frame
