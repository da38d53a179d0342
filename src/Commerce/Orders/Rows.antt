-- ===== src/Commerce/Orders/Rows.antt =====
-- order.repository.ts: the reads and writes of one order and of the payments that follow it.
use all_in_one_v2_api.Base.{
  ℕ, ◌==◌, Bool, not, ◌&&◌, Option, none, some, List, [], ◌∷◌, ◌++◌, if◌then◌else◌, Table, find,
  update_many, any, same,
}
use all_in_one_v2_api.Commerce.Status.{OrderStatus, PaymentStatus, payment_status}
use all_in_one_v2_api.Commerce.Store.{Order, Payment, Store}

abbrev pub order_of_tenant : ℕ → Option Order → Option Order
order_of_tenant tenant none = none
order_of_tenant tenant (some o) = if o.tenant_id == tenant then some o else none

-- OrderRepository.findById
unfoldable pub find_order : ℕ → ℕ → Store → Option Order
find_order tenant id s = order_of_tenant tenant (find id s.orders)

-- ORDER_TO_PAYMENT_STATUS
abbrev pub order_to_payment_status : OrderStatus → Option PaymentStatus
order_to_payment_status OrderStatus.cancelled = some PaymentStatus.cancelled
order_to_payment_status OrderStatus.refunded = some PaymentStatus.refunded
order_to_payment_status _ = none

-- PAYMENT_TERMINAL_STATUSES
abbrev pub payment_terminal_statuses : List PaymentStatus
payment_terminal_statuses =
    PaymentStatus.cancelled ∷ PaymentStatus.refunded ∷ PaymentStatus.void ∷ PaymentStatus.failed
    ∷ PaymentStatus.expired ∷ []

abbrev pub is_settled : PaymentStatus → Bool
is_settled p = any (same p) payment_terminal_statuses

-- the payments of an order that have not settled on their own outcome
abbrev pub is_open_payment_of : ℕ → ℕ → Payment → Bool
is_open_payment_of order _ p = p.order_id == order && not (is_settled p.status)

abbrev pub set_payment_status : PaymentStatus → Payment → Payment
set_payment_status status p = record p { status = status }

-- one CommercePaymentEvent for each payment that is moved
pub synced_events : ℕ → PaymentStatus → Table Payment → List (ℕ × PaymentStatus)
synced_events order status [] = []
synced_events order status ((i, p) ∷ t) =
    if is_open_payment_of order i p
    then (i, status) ∷ synced_events order status t
    else synced_events order status t

abbrev pub sync_payments : ℕ → Option PaymentStatus → Store → Store
sync_payments order none s = s
sync_payments order (some status) s = record s {
  payments = update_many (is_open_payment_of order) (set_payment_status status) s.payments;
  payment_events = synced_events order status s.payments ++ s.payment_events;
}

abbrev pub is_order : ℕ → ℕ → ℕ → Order → Bool
is_order tenant id i o = i == id && o.tenant_id == tenant

abbrev pub set_order_status : OrderStatus → Order → Order
set_order_status status o = record o { status = status }

-- OrderRepository.updateStatus, one transaction
unfoldable pub update_status : ℕ → ℕ → OrderStatus → Store → Store
update_status tenant id status s =
    let written : Store = record s {
      orders = update_many (is_order tenant id) (set_order_status status) s.orders;
    } in
    sync_payments id (order_to_payment_status status) written
