-- ===== src/Commerce/Payments/Webhook.antt =====
-- handleWebhook of payment.service.ts, recordWebhookEvent and updatePaymentStatus of
-- payment.repository.ts, and deriveWebhookEventId of src/utils/webhook-identity.ts.
use all_in_one_v2_api.Base.{
  ℕ, ◌+◌, ◌*◌, ◌==◌, Bool, true, false, not, ◌&&◌, Option, none, some, List, [], ◌∷◌, if◌then◌else◌,
  find, find_first, insert, update, same, leb, thrown, ok, err, Outcome, pure, ◌>>=◌, ◌>>◌, gets,
  or_throw, modify, when, attempt,
}
use all_in_one_v2_api.Commerce.Status.{
  OrderStatus, PaymentStatus, payment_status, ReturnStatus, return_status, SyncStatus, sync_status,
  ActorRole,
}
use all_in_one_v2_api.Commerce.Store.{
  Order, Payment, Refund, Return, WebhookEvent, Notice, Store, Env, Action, create_notification,
}
use all_in_one_v2_api.Commerce.Orders.Rows.{update_status}
use all_in_one_v2_api.Commerce.Payments.Refunding.{complete_pending_refund}
use all_in_one_v2_api.Commerce.Payments.Sales.{record_order_sale}
use all_in_one_v2_api.Commerce.Returns.Rows.{find_return, transition_status}

pub data Provider : Type 0 where
  paymongo stripe other : Provider

pub data PaymongoStatus : Type 0 where
  paid succeeded failed other : PaymongoStatus

pub data EventType : Type 0 where
  payment_succeeded payment_failed charge_refunded other : EventType

-- The fields of a payload that are read, each absent or a non-empty value of the type that is tested.
pub record Payload : Type 0 where
  pub data_id : Option ℕ  -- data.id
  pub id : Option ℕ
  pub event_id : Option ℕ
  pub event_id_camel : Option ℕ  -- eventId
  pub object_id : Option ℕ  -- data.object.id
  pub data_status : Option PaymongoStatus  -- data.attributes.status
  pub payment_intent : Option ℕ  -- data.object.payment_intent
  pub amount_refunded : Option ℕ  -- data.object.amount_refunded, in cents
  pub digest : ℕ  -- the hash of the canonical text

-- the loop over IDENTITY_PATHS
unfoldable pub first_present : List (Option ℕ) → ℕ → ℕ
first_present [] fallback = fallback
first_present (none ∷ rest) fallback = first_present rest fallback
first_present (some id ∷ rest) fallback = id

unfoldable pub derive_webhook_event_id : Payload → ℕ
unfolding first_present
derive_webhook_event_id p =
    first_present (p.data_id ∷ p.id ∷ p.event_id ∷ p.event_id_camel ∷ p.object_id ∷ []) p.digest

abbrev pub provider_place : Provider → ℕ
provider_place Provider.paymongo = 0
provider_place Provider.stripe = 1
provider_place Provider.other = 2

-- the unique key `provider_externalEventId`
abbrev pub is_event : Provider → ℕ → ℕ → WebhookEvent → Bool
is_event provider external _ e =
    e.provider == provider_place provider && e.external_event_id == external

abbrev pub set_sync : SyncStatus → WebhookEvent → WebhookEvent
set_sync status e = record e { status = status }

-- updateWebhookStatus
abbrev pub update_webhook_status : ℕ → SyncStatus → Action (Unit {0})
update_webhook_status id status =
    modify λ s. record s { webhooks = update id (set_sync status) s.webhooks }

-- the two ways through the unique constraint
unfoldable pub claim_event : Provider → ℕ → Option (ℕ × WebhookEvent) → Action (ℕ × Bool)
claim_event provider external none s =
    let row : WebhookEvent = record {
      provider = provider_place provider;
      external_event_id = external;
      status = SyncStatus.pending;
    } in
    ok (s.next_id, true)
      (record s { webhooks = insert s.next_id row s.webhooks; next_id = s.next_id + 1 })
claim_event provider external (some (i, e)) s =
    if same e.status SyncStatus.failed
    then ok (i, true) (record s { webhooks = update i (set_sync SyncStatus.pending) s.webhooks })
    else ok (i, false) s

-- recordWebhookEvent: the event's row, and whether this delivery owns it
unfoldable pub record_webhook_event : Provider → ℕ → Action (ℕ × Bool)
unfolding claim_event
record_webhook_event provider external s =
    claim_event provider external (find_first (is_event provider external) s.webhooks) s

-- updatePaymentStatus
unfoldable pub update_payment_status : ℕ → PaymentStatus → Store → Store
update_payment_status id status s = record s {
  payments = update id (λ p. record p { status = status }) s.payments;
  payment_events = (id, status) ∷ s.payment_events;
}

abbrev pub notify_user : Env → Option ℕ → Notice → Action (Unit {0})
notify_user env none notice = pure tt
notify_user env (some user) notice = create_notification env user notice

-- what follows a payment that became PAID, with `payment.order`
unfoldable pub settle_paid : Env → ℕ → Order → Action (Unit {0})
settle_paid env order o = do
  modify (update_status o.tenant_id order OrderStatus.processing)
  modify (record_order_sale o.tenant_id order)
  notify_user env o.user_id (Notice.payment_confirmed order)

-- the common tail of the two providers' branches: a payment that is PAID is never downgraded
unfoldable pub apply_payment_status : Env → ℕ → Payment → PaymentStatus → Action (Unit {0})
unfolding settle_paid
apply_payment_status env id payment next = do
  order ← or_throw (← gets (λ s. find payment.order_id s.orders)) thrown
  let now_paid = same next PaymentStatus.paid
  let stale = same payment.status PaymentStatus.paid && not now_paid
  when (not stale) (modify (update_payment_status id next))
  when (not stale && now_paid) (settle_paid env payment.order_id order)

abbrev pub has_transaction : ℕ → ℕ → Payment → Bool
has_transaction transaction _ p = elim p.transaction [ none ↦ false | some t ↦ t == transaction ]

-- findByTransactionId
unfoldable pub find_by_transaction : ℕ → Store → Option (ℕ × Payment)
find_by_transaction transaction s = find_first (has_transaction transaction) s.payments

abbrev pub apply_to_payment : Env → Option (ℕ × Payment) → PaymentStatus → Action (Unit {0})
apply_to_payment env none next = pure tt
apply_to_payment env (some (id, payment)) next = apply_payment_status env id payment next

abbrev pub paymongo_next : PaymongoStatus → PaymentStatus
paymongo_next PaymongoStatus.paid = PaymentStatus.paid
paymongo_next PaymongoStatus.succeeded = PaymentStatus.paid
paymongo_next PaymongoStatus.failed = PaymentStatus.failed
paymongo_next PaymongoStatus.other = PaymentStatus.pending

abbrev pub apply_to_transaction : Env → Option ℕ → Option PaymentStatus → Action (Unit {0})
apply_to_transaction env (some transaction) (some next) = do
  payment ← gets (find_by_transaction transaction)
  apply_to_payment env payment next
apply_to_transaction env (some transaction) none = pure tt
apply_to_transaction env none next = pure tt

abbrev pub map_status : Option PaymongoStatus → Option PaymentStatus
map_status none = none
map_status (some status) = some (paymongo_next status)

-- the PAYMONGO branch
unfoldable pub handle_paymongo : Env → Payload → Action (Unit {0})
unfolding find_by_transaction
handle_paymongo env p = apply_to_transaction env p.data_id (map_status p.data_status)

-- a Return waiting for this confirmation is completed, and its customer told
unfoldable pub complete_return : Env → Order → ℕ → Option Return → Action (Unit {0})
unfolding find_return
complete_return env o id none = pure tt
complete_return env o id (some r) = when (same r.status ReturnStatus.refund_processing) (do
  transition_status o.tenant_id id ReturnStatus.completed none ActorRole.system
      (some "Refund confirmed by Stripe webhook")
  attempt (notify_user env o.user_id (Notice.refund_complete id)))

-- `completedRefund?.returnId`
unfoldable pub complete_return_of : Env → Order → Option ℕ → Action (Unit {0})
unfolding complete_return
complete_return_of env o none = pure tt
complete_return_of env o (some id) = do
  row ← gets (find_return o.tenant_id id)
  complete_return env o id row

abbrev pub return_of_refund : Option Refund → Option ℕ
return_of_refund none = none
return_of_refund (some refund) = refund.return_id

unfoldable pub apply_refund : Env → Option (ℕ × Payment) → Option ℕ → Action (Unit {0})
unfolding complete_return_of
apply_refund env (some (id, payment)) (some cents) = do
  o ← or_throw (← gets (λ s. find payment.order_id s.orders)) thrown
  refund ← complete_pending_refund payment.order_id
  complete_return_of env o (return_of_refund refund)
  when (leb o.total_amount (cents * 100))
      (modify (update_status o.tenant_id payment.order_id OrderStatus.refunded))
apply_refund env (some (id, payment)) none = pure tt
apply_refund env none cents = pure tt

unfoldable pub refund_of_intent : Env → Option ℕ → Option ℕ → Action (Unit {0})
unfolding apply_refund find_by_transaction
refund_of_intent env none cents = pure tt
refund_of_intent env (some intent) cents = do
  payment ← gets (find_by_transaction intent)
  apply_refund env payment cents

-- the STRIPE branch
unfoldable pub handle_stripe : Env → EventType → Payload → Action (Unit {0})
unfolding refund_of_intent
handle_stripe env EventType.payment_succeeded p =
    apply_to_transaction env p.object_id (some PaymentStatus.paid)
handle_stripe env EventType.payment_failed p =
    apply_to_transaction env p.object_id (some PaymentStatus.failed)
handle_stripe env EventType.charge_refunded p =
    refund_of_intent env p.payment_intent p.amount_refunded
handle_stripe env EventType.other p = pure tt

unfoldable pub apply_event : Env → Provider → EventType → Payload → Action (Unit {0})
apply_event env Provider.paymongo type p = handle_paymongo env p
apply_event env Provider.stripe type p = handle_stripe env type p
apply_event env Provider.other type p = pure tt

-- the `try`/`catch` around the processing
abbrev pub finish : ℕ → Outcome Store (Unit {0}) → Outcome Store Bool
finish id (ok _ s) =
    ok false (record s { webhooks = update id (set_sync SyncStatus.success) s.webhooks })
finish id (err e s) =
    err e (record s { webhooks = update id (set_sync SyncStatus.failed) s.webhooks })

abbrev pub process_claimed : Env → Provider → EventType → Payload → ℕ × Bool → Action Bool
process_claimed env provider type p (id, claimed) s =
    if claimed then finish id (apply_event env provider type p s) else ok true s

-- handleWebhook; it returns `duplicate`
unfoldable pub handle_webhook : Env → Provider → EventType → Payload → Action Bool
handle_webhook env provider type p = do
  claim ← record_webhook_event provider (derive_webhook_event_id p)
  process_claimed env provider type p claim
