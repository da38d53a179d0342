-- ===== src/Commerce/Payments/Finality.antt =====
-- A captured payment stays captured, whatever webhooks arrive and in whatever order, until a refund
-- is confirmed.
use all_in_one_v2_api.Base.{
  ℕ, ◌≡◌, ◌≢◌, refl, Bool, true, false, not, ◌&&◌, Option, none, some, arith, if◌then◌else◌, Table,
  find, find_first, update, find-update, find-of-find_first, IsKeyed, same, ok, err, state_of,
  Steps, Keeps, Keeps-Preorder, step_rules, Steps-pure, Preorder, Option-cases, inl, inr, ◌>>=◌,
  ==_iff, Outcome, pure, and_then,
}
use all_in_one_v2_api.Commerce.Status.{OrderStatus, PaymentStatus, payment_status}
use all_in_one_v2_api.Commerce.Store.{Order, Payment, Notice, Store, Env, create_notification}
use all_in_one_v2_api.Commerce.Orders.Rows.{update_status}
use all_in_one_v2_api.Commerce.Payments.Sales.{record_order_sale}
use all_in_one_v2_api.Commerce.Payments.Webhook.{
  Provider, EventType, Payload, apply_payment_status, settle_paid, update_payment_status,
  notify_user, apply_to_transaction, derive_webhook_event_id, find_by_transaction, has_transaction,
  handle_webhook, handle_stripe, handle_paymongo, apply_event, finish, process_claimed,
  record_webhook_event,
}

abbrev KeepsPayments : Store → Store → Type 0
KeepsPayments = Keeps (λ (s : Store). s.payments)

KeepsPayments-Preorder : Preorder KeepsPayments
KeepsPayments-Preorder = Keeps-Preorder (λ (s : Store). s.payments)

KeepsPayments-processing :
    (tenant id : ℕ) (s : Store)
    → (update_status tenant id OrderStatus.processing s).payments ≡ s.payments
unfolding update_status
KeepsPayments-processing tenant id s = refl

KeepsPayments-record_order_sale :
    (tenant id : ℕ) (s : Store) → (record_order_sale tenant id s).payments ≡ s.payments
unfolding record_order_sale
KeepsPayments-record_order_sale tenant id s = ground arith

notify_user-Steps :
    (env : Env) (user : Option ℕ) (notice : Notice)
    → Steps KeepsPayments (notify_user env user notice)
unfolding create_notification
notify_user-Steps env none notice = Steps-pure KeepsPayments-Preorder tt
notify_user-Steps env (some user) notice = record { at = λ s. ground arith }

settle_paid-Steps :
    (env : Env) (order : ℕ) (o : Order) → Steps KeepsPayments (settle_paid env order o)
unfolding settle_paid
settle_paid-Steps env order o = search (
  step_rules, KeepsPayments-Preorder, KeepsPayments-processing, KeepsPayments-record_order_sale,
  notify_user-Steps,
)

abbrev is_stale : PaymentStatus → PaymentStatus → Bool
is_stale now next = same now PaymentStatus.paid && not (same next PaymentStatus.paid)

abbrev written : ℕ → Payment → PaymentStatus → Option Order → Table Payment → Table Payment
written id p next none t = t
written id p next (some o) t =
    if is_stale p.status next then t else update id (λ x. record x { status = next }) t

KeepsPayments-apply :
    (env : Env) (id : ℕ) (p : Payment) (next : PaymentStatus) (s : Store)
    → (state_of (apply_payment_status env id p next s)).payments
      ≡ written id p next (find p.order_id s.orders) s.payments
unfolding apply_payment_status ◌>>=◌ update_payment_status
KeepsPayments-apply env id p next s = elim (Option-cases (find p.order_id s.orders)) [
  | inl missing ↦ rw missing refl
  | inr (o, found) ↦
      ground
        (arith, found, (settle_paid-Steps env p.order_id o).at (update_payment_status id next s))
]

-- payment `k` stands in the table and is PAID
abbrev pub is_paid_row : Option Payment → Bool
is_paid_row none = false
is_paid_row (some p) = same p.status PaymentStatus.paid

paid-written :
    (id k : ℕ) (p : Payment) (next : PaymentStatus) (o : Option Order) (t : Table Payment)
    → find id t ≡ some p
    → is_paid_row (find k t) ≡ true
    → is_paid_row (find k (written id p next o t)) ≡ true
paid-written id k p next none t link paid = paid
paid-written id k p next (some o) t link paid =
    ground (arith, ==_iff k id, find-update k id (λ x. record x { status = next }) t)

paid-transaction :
    (env : Env) (transaction : Option ℕ) (next : Option PaymentStatus) (s : Store) (k : ℕ)
    → IsKeyed s.payments
    → is_paid_row (find k s.payments) ≡ true
    → is_paid_row (find k (state_of (apply_to_transaction env transaction next s)).payments) ≡ true
unfolding ◌>>=◌ find_by_transaction
paid-transaction env none next s k u paid = paid
paid-transaction env (some t) none s k u paid = paid
paid-transaction env (some t) (some next) s k u paid =
    elim (Option-cases (find_first (has_transaction t) s.payments)) [
      | inl missing ↦ rw missing paid
      | inr ((id, p), found) ↦ rw found (
          rw (KeepsPayments-apply env id p next s) (
            paid-written id k p next (find p.order_id s.orders) s.payments
              (find-of-find_first (has_transaction t) s.payments id p u found) paid))
    ]

paid-event :
    (env : Env) (provider : Provider) (type : EventType) (p : Payload) (s : Store) (k : ℕ)
    → type ≢ EventType.charge_refunded
    → IsKeyed s.payments
    → is_paid_row (find k s.payments) ≡ true
    → is_paid_row (find k (state_of (apply_event env provider type p s)).payments) ≡ true
unfolding apply_event handle_paymongo handle_stripe pure
paid-event env Provider.paymongo type p s k n u paid = paid-transaction env p.data_id _ s k u paid
paid-event env Provider.stripe EventType.payment_succeeded p s k n u paid =
    paid-transaction env p.object_id _ s k u paid
paid-event env Provider.stripe EventType.payment_failed p s k n u paid =
    paid-transaction env p.object_id _ s k u paid
paid-event env Provider.stripe EventType.charge_refunded p s k n u paid = absurd (n refl)
paid-event env Provider.stripe EventType.other p s k n u paid = paid
paid-event env Provider.other type p s k n u paid = paid

KeepsPayments-record :
    (provider : Provider) (external : ℕ) (s : Store)
    → (state_of (record_webhook_event provider external s)).payments ≡ s.payments
unfolding record_webhook_event
KeepsPayments-record provider external s = ground arith

KeepsPayments-finish :
    (id : ℕ) (r : Outcome Store (Unit {0}))
    → (state_of (finish id r)).payments ≡ (state_of r).payments
KeepsPayments-finish id (ok a s) = refl
KeepsPayments-finish id (err e s) = refl

paid-claimed :
    (env : Env) (provider : Provider) (type : EventType) (p : Payload) (c : ℕ × Bool) (s : Store)
    (k : ℕ)
    → type ≢ EventType.charge_refunded
    → IsKeyed s.payments
    → is_paid_row (find k s.payments) ≡ true
    → is_paid_row (find k (state_of (process_claimed env provider type p c s)).payments) ≡ true
paid-claimed env provider type p (id, true) s k n u paid =
    rw (KeepsPayments-finish id (apply_event env provider type p s))
      (paid-event env provider type p s k n u paid)
paid-claimed env provider type p (id, false) s k n u paid = paid

paid-and_then :
    (env : Env) (provider : Provider) (type : EventType) (p : Payload) (t : Table Payment) (k : ℕ)
    (r : Outcome Store (ℕ × Bool))
    → type ≢ EventType.charge_refunded
    → IsKeyed t
    → is_paid_row (find k t) ≡ true
    → (state_of r).payments ≡ t
    → is_paid_row (find k (state_of (and_then r (process_claimed env provider type p))).payments)
      ≡ true
paid-and_then env provider type p t k (ok c s) n u paid e =
    paid-claimed env provider type p c s k n (rw e u) (rw e paid)
paid-and_then env provider type p t k (err x s) n u paid e = rw e paid

-- A payment that is PAID is PAID after any delivery of any provider but a `charge.refunded`: duplicate,
-- late or out of order, processed with success or not. Payments have distinct ids.
pub paid_is_final :
    (env : Env) (provider : Provider) (type : EventType) (p : Payload) (s : Store) (k : ℕ)
    → type ≢ EventType.charge_refunded
    → IsKeyed s.payments
    → is_paid_row (find k s.payments) ≡ true
    → is_paid_row (find k (state_of (handle_webhook env provider type p s)).payments) ≡ true
unfolding handle_webhook ◌>>=◌
paid_is_final env provider type p s k n u paid =
    paid-and_then env provider type p s.payments k
      (record_webhook_event provider (derive_webhook_event_id p) s) n u paid
      (KeepsPayments-record provider (derive_webhook_event_id p) s)
