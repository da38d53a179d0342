-- ===== src/Commerce/Orders/Cancelling.antt =====
-- What cancelOrder can and cannot do.
use mathlib.Core.Option
use all_in_one_v2_api.Base.{
  ◌>>=◌, if◌then◌else◌, ℕ, ◌≡◌, refl, true, false, Option, some, inl, inr, arith, find,
  find-update_many_unmatched, any_row-find, state_of, succeeds, Bool-cases, ==_refl, update_many,
  find-update_many,
}
use all_in_one_v2_api.Commerce.Status.{OrderStatus, PaymentStatus}
use all_in_one_v2_api.Commerce.Store.{Order, Payment, Store, Env, Viewer}
use all_in_one_v2_api.Commerce.Orders.Rows.{
  find_order, update_status, is_open_payment_of, set_payment_status, is_order, set_order_status,
}
use all_in_one_v2_api.Commerce.Orders.Service.{
  cancel_order, has_captured_payment, is_placed, is_paid_payment_of, may_cancel,
}

-- An order-level change leaves every settled payment, and every payment of another order, as it was.
pub update_status_unmatched :
    (tenant id : ℕ) (status : OrderStatus) (s : Store) (k : ℕ) (p : Payment)
    → find k s.payments ≡ some p
    → is_open_payment_of id k p ≡ false
    → find k (update_status tenant id status s).payments ≡ some p
unfolding update_status
update_status_unmatched tenant id OrderStatus.cancelled s k p h e =
    find-update_many_unmatched k (is_open_payment_of id) _ s.payments p h e
update_status_unmatched tenant id OrderStatus.refunded s k p h e =
    find-update_many_unmatched k (is_open_payment_of id) _ s.payments p h e
update_status_unmatched tenant id _ s k p h e = h

orders-update_status :
    (tenant id : ℕ) (status : OrderStatus) (s : Store)
    → (update_status tenant id status s).orders
      ≡ update_many (is_order tenant id) (set_order_status status) s.orders
unfolding update_status
orders-update_status tenant id OrderStatus.cancelled s = refl
orders-update_status tenant id OrderStatus.refunded s = refl
orders-update_status tenant id _ s = refl

-- After the update, the named order of the tenant has the new status and is otherwise as it was.
pub find_order-update_status :
    (tenant id : ℕ) (status : OrderStatus) (s : Store) (o : Order)
    → find_order tenant id s ≡ some o
    → find_order tenant id (update_status tenant id status s) ≡ some (set_order_status status o)
unfolding find_order
find_order-update_status tenant id status s o h = ground (
  arith,
  orders-update_status tenant id status s,
  find-update_many id (is_order tenant id) (set_order_status status) s.orders,
  ==_refl id,
)

-- Every other order is as it was.
pub find-update_status_other :
    (tenant id : ℕ) (status : OrderStatus) (s : Store) (k : ℕ) (o : Order)
    → find k s.orders ≡ some o
    → is_order tenant id k o ≡ false
    → find k (update_status tenant id status s).orders ≡ some o
find-update_status_other tenant id status s k o h e =
    rw (orders-update_status tenant id status s)
      (find-update_many_unmatched k (is_order tenant id) (set_order_status status) s.orders o h e)

-- A handler that refuses leaves the store as it was.
cancel_order_refused :
    (env : Env) (id : ℕ) (viewer : Option Viewer) (s : Store)
    → succeeds (cancel_order env id viewer s) ≡ false
    → state_of (cancel_order env id viewer s) ≡ s
unfolding cancel_order ◌>>=◌
cancel_order_refused env id viewer s h = ground arith

cancel_order_inv :
    (env : Env) (id : ℕ) (viewer : Option Viewer) (s : Store)
    → succeeds (cancel_order env id viewer s) ≡ true
    → (o : Order) × (find_order env.tenant id s ≡ some o)
      × (may_cancel o viewer ≡ true)
      × (has_captured_payment id s ≡ false)
      × (is_placed id s ≡ false)
      × (state_of (cancel_order env id viewer s)
          ≡ update_status env.tenant id OrderStatus.cancelled s)
unfolding cancel_order ◌>>=◌
cancel_order_inv env id viewer s h = ground arith

-- Cancelling never touches a captured payment, of this order or another, whatever the outcome.
pub cancel_order_keeps_paid :
    (env : Env) (id : ℕ) (viewer : Option Viewer) (s : Store) (k : ℕ) (p : Payment)
    → find k s.payments ≡ some p
    → p.status ≡ PaymentStatus.paid
    → find k (state_of (cancel_order env id viewer s)).payments ≡ some p
unfolding has_captured_payment
cancel_order_keeps_paid env id viewer s k p found paid =
    elim (Bool-cases (succeeds (cancel_order env id viewer s))) [
      | inr refused ↦ rw (cancel_order_refused env id viewer s refused) found
      | inl done ↦
          let (o, known, allowed, uncaptured, unplaced, after) =
            cancel_order_inv env id viewer s done in
          let other = any_row-find (is_paid_payment_of id) s.payments k p uncaptured found in
          rw after
            (update_status_unmatched env.tenant id OrderStatus.cancelled s k p found (ground arith))
    ]

-- A cancellation that succeeds was asked for by someone who may cancel the order, found no captured
-- payment and no placement with a supplier; it leaves the order cancelled, and of every payment `k`
-- it cancels the open ones of that order and keeps the rest.
pub cancel_order_effect :
    (env : Env) (id : ℕ) (viewer : Option Viewer) (s : Store) (k : ℕ)
    → succeeds (cancel_order env id viewer s) ≡ true
    → let after = state_of (cancel_order env id viewer s) in
      (o : Order) × (find_order env.tenant id s ≡ some o)
      × (may_cancel o viewer ≡ true)
      × (has_captured_payment id s ≡ false)
      × (is_placed id s ≡ false)
      × (find_order env.tenant id after ≡ some (set_order_status OrderStatus.cancelled o))
      × (find k after.payments
          ≡ Option.map
              (λ p.
                if is_open_payment_of id k p
                then set_payment_status PaymentStatus.cancelled p
                else p)
              (find k s.payments))
unfolding update_status
cancel_order_effect env id viewer s k done =
    let (o, known, allowed, uncaptured, unplaced, after) = cancel_order_inv env id viewer s done in
    (
      o,
      known,
      allowed,
      uncaptured,
      unplaced,
      rw after (find_order-update_status env.tenant id OrderStatus.cancelled s o known),
      rw after (find-update_many k (is_open_payment_of id) _ s.payments),
    )
