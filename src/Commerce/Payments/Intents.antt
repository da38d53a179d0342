-- ===== src/Commerce/Payments/Intents.antt =====
-- createPaymentIntent and getOrCreateStripeCustomer of payment.service.ts. Currencies, instruments and
-- client secrets are left out, and so is `setup_future_usage`.
use all_in_one_v2_api.Base.{
  ℕ, ◌+◌, ◌==◌, Bool, true, false, ◌&&◌, ◌||◌, Option, none, some, List, [], ◌∷◌, any, is_some,
  get_or, if◌then◌else◌, same, Table, find, find_first, insert, update, http, thrown, ok, Handler,
  pure, ◌>>=◌, ◌>>◌, gets, guard, modify, or_throw,
}
use all_in_one_v2_api.Commerce.Status.{
  OrderStatus, order_status, PaymentStatus, payment_status, Gateway, Channel, channel_enum,
}
use all_in_one_v2_api.Commerce.Store.{Order, Payment, Store, Viewer}
use all_in_one_v2_api.Commerce.Orders.Rows.{find_order, update_status}
use all_in_one_v2_api.Commerce.Orders.Service.{may_view}
use all_in_one_v2_api.Commerce.Payments.Refunding.{in_cents, is_stripe}

-- what a PaymentIntent of Stripe shows; `settled` is every other status
pub data IntentStatus : Type 0 where
  requires_payment_method requires_confirmation requires_action settled : IntentStatus

pub record Intent : Type 0 where
  pub status : IntentStatus
  pub only_cards : Bool  -- payment_method_types is ['card']

-- The tenant, and what Stripe answers; `none` is a call that throws.
pub record Till : Type 0 where
  pub tenant : ℕ
  pub retrieve_intent : ℕ → Option Intent
  pub owner_of_method : ℕ → Option (Option ℕ)
  pub new_customer : ℕ → Option ℕ
  pub new_intent : ℕ → ℕ → Option ℕ  -- for an order and an amount in cents

-- the shop's tables, the Stripe id of each customer, and the intents that Stripe was asked for
pub record Counter : Type 0 where
  pub store : Store
  pub customers : Table (Option ℕ)
  pub asked : List (ℕ × ℕ)

-- the parameters of createPaymentIntent
pub record IntentParams : Type 0 where
  pub order_id : ℕ
  pub gateway : Option Gateway
  pub channel : Option Channel
  pub payment_method : Option ℕ
  pub save_payment_method : Bool
  pub requester : Viewer

abbrev pub Paying : Type 0 → Type 0
Paying A = Handler Counter A

abbrev pub is_cash : Channel → Bool
is_cash channel = same channel Channel.cash_on_delivery

abbrev pub channel_of : IntentParams → Channel
channel_of p = get_or p.channel Channel.card

-- cash has no gateway, whatever was asked for
abbrev pub gateway_of : IntentParams → Option Gateway
gateway_of p = if is_cash (channel_of p) then none else some (get_or p.gateway Gateway.paymongo)

abbrev pub is_open_status : PaymentStatus → Bool
is_open_status status =
    any (same status)
      (PaymentStatus.created ∷ PaymentStatus.pending ∷ PaymentStatus.waiting_confirmation ∷ [])

-- `reusable`
abbrev pub is_reusable : ℕ → ℕ → Payment → Bool
is_reusable order _ p =
    p.order_id == order && is_stripe p.gateway && is_some p.transaction && is_open_status p.status

abbrev pub is_still_confirmable : IntentStatus → Bool
is_still_confirmable IntentStatus.settled = false
is_still_confirmable _ = true

-- the id of a payment whose intent can still be confirmed
abbrev pub reused : ℕ → Intent → Option ℕ
reused id i = if is_still_confirmable i.status && i.only_cards then some id else none

abbrev pub reuse_intent : Till → ℕ → Option ℕ → Paying (Option ℕ)
reuse_intent t id none = pure none
reuse_intent t id (some intent) = do
  found ← or_throw (t.retrieve_intent intent) thrown
  pure (reused id found)

unfoldable pub reuse : Till → Option (ℕ × Payment) → Paying (Option ℕ)
reuse t none = pure none
reuse t (some (id, p)) = reuse_intent t id p.transaction

-- the Stripe id that the customer has, or a new one
unfoldable pub known_or_new : Till → ℕ → Option ℕ → Paying ℕ
known_or_new t customer (some id) = pure id
known_or_new t customer none = do
  id ← or_throw (t.new_customer customer) thrown
  modify (λ (s : Counter). record s { customers = update customer (λ _. some id) s.customers })
  pure id

-- getOrCreateStripeCustomer
unfoldable pub get_or_create_stripe_customer : Till → ℕ → Paying ℕ
get_or_create_stripe_customer t customer = do
  row ← gets (λ (s : Counter). find customer s.customers)
  known ← or_throw row (http 404)
  known_or_new t customer known

-- for a registered customer who brings or saves a payment method
unfoldable pub customer_for : Till → Option ℕ → Bool → Paying (Option ℕ)
customer_for t none needed = pure none
customer_for t (some customer) false = pure none
customer_for t (some customer) true = do
  id ← get_or_create_stripe_customer t customer
  pure (some id)

abbrev pub belongs_to : ℕ → Option ℕ → Bool
belongs_to customer none = false
belongs_to customer (some owner) = owner == customer

-- `paymentMethodId && stripeCustomerId`
unfoldable pub check_method : Till → Option ℕ → Option ℕ → Paying (Unit {0})
check_method t none customer = pure tt
check_method t (some m) none = pure tt
check_method t (some m) (some customer) = do
  owner ← or_throw (t.owner_of_method m) thrown
  guard (belongs_to customer owner) (http 403)

-- the payment of an order: its amount is the order's
abbrev pub payment_row : ℕ → Order → Option Gateway → Channel → PaymentStatus → Option ℕ → Payment
payment_row id o gateway channel status transaction = record {
  order_id = id;
  status = status;
  gateway = gateway;
  transaction = transaction;
  amount = o.total_amount;
  channel = channel;
}

-- createPayment, which returns the id
unfoldable pub create_payment : Payment → Paying ℕ
create_payment row s = ok (s.store).next_id (record s {
  store = record s.store {
    payments = insert (s.store).next_id row (s.store).payments;
    next_id = (s.store).next_id + 1;
  };
})

-- stripe.paymentIntents.create
unfoldable pub create_intent : Till → ℕ → ℕ → Paying ℕ
create_intent t order cents s =
    or_throw (t.new_intent order cents) thrown (record s { asked = (order, cents) ∷ s.asked })

-- a new intent for the order's total, and its payment
unfoldable pub open_intent : Till → IntentParams → Order → Paying ℕ
open_intent t p o = do
  customer ←
      customer_for t (p.requester).customer_id (is_some p.payment_method || p.save_payment_method)
  check_method t p.payment_method customer
  intent ← create_intent t p.order_id (in_cents o.total_amount)
  create_payment
      (payment_row p.order_id o (gateway_of p) (channel_of p) PaymentStatus.created (some intent))

-- the payment that is reused, or a new one
abbrev pub or_open : Till → IntentParams → Order → Option ℕ → Paying ℕ
or_open t p o none = open_intent t p o
or_open t p o (some id) = pure id

unfoldable pub pay_by_stripe : Till → IntentParams → Order → Paying ℕ
pay_by_stripe t p o = do
  row ← gets (λ (s : Counter). find_first (is_reusable p.order_id) (s.store).payments)
  again ← reuse t row
  or_open t p o again

-- the order is confirmed at once, and paid at the door
unfoldable pub pay_cash : Till → IntentParams → Order → Paying ℕ
pay_cash t p o = do
  id ← create_payment (payment_row p.order_id o none (channel_of p) PaymentStatus.pending none)
  modify (λ (s : Counter). record s {
    store = update_status t.tenant p.order_id OrderStatus.processing s.store;
  })
  pure id

unfoldable pub pay_online : Till → IntentParams → Order → Paying ℕ
pay_online t p o =
    if is_stripe (gateway_of p)
    then pay_by_stripe t p o
    else create_payment
        (payment_row p.order_id o (gateway_of p) (channel_of p) PaymentStatus.created none)

-- createPaymentIntent, which returns the payment's id
unfoldable pub create_payment_intent : Till → IntentParams → Paying ℕ
create_payment_intent t p = do
  row ← gets (λ (s : Counter). find_order t.tenant p.order_id s.store)
  o ← or_throw row (http 404)
  guard (may_view o p.requester) (http 404)
  guard (same o.status OrderStatus.pending) (http 409)
  if is_cash (channel_of p) then pay_cash t p o else pay_online t p o
