-- ===== src/Commerce/Orders/Declined.antt =====
-- What rejectOrder leaves behind.
use all_in_one_v2_api.Base.{
  ℕ, ◌+◌, ◌≡◌, refl, ==_refl, true, false, Option, none, some, List, arith, find, find_first,
  insert, succeeds, state_of, ◌>>=◌, same, Option-cases, Bool-cases, inl, inr,
}
use all_in_one_v2_api.Commerce.Status.{OrderStatus, order_status}
use all_in_one_v2_api.Commerce.Store.{Order, Payment, Notice, Store, Env}
use all_in_one_v2_api.Commerce.Orders.Rows.{find_order, update_status, set_order_status}
use all_in_one_v2_api.Commerce.Orders.Service.{is_placed, is_paid_payment_of}
use all_in_one_v2_api.Commerce.Orders.Cancelling.{find_order-update_status}
use all_in_one_v2_api.Commerce.Orders.Rejecting.{reject_order}
use all_in_one_v2_api.Commerce.Payments.Refunding.{refund_payment, create_refund, is_stripe}
use all_in_one_v2_api.Commerce.Returns.Money.{
  asked_after, asked_for, refund_payment_inv, notified, err_of, refund_row,
}

-- the order's refund recorded, and the order rejected
abbrev declined : Env → ℕ → ℕ → Option ℕ → Payment → Store → Store
declined env id amount t p s =
    let asked = asked_for p amount s in
    update_status env.tenant id OrderStatus.rejected (record asked {
      refunds = insert s.next_id (refund_row env id none amount t) asked.refunds;
      next_id = s.next_id + 1;
    })

reject_order_inv :
    (env : Env) (id : ℕ) (s : Store)
    → succeeds (reject_order env id s) ≡ true
    → (o : Order) × (k : ℕ) × (p : Payment) × (t : Option ℕ) × (notices : List (ℕ × Notice))
      × (find_order env.tenant id s ≡ some o)
      × (same o.status OrderStatus.processing ≡ true)
      × (is_placed id s ≡ false)
      × (find_first (is_paid_payment_of id) s.payments ≡ some (k, p))
      × (state_of (reject_order env id s)
          ≡ record (declined env id o.total_amount t p s) { notices = notices })
unfolding reject_order ◌>>=◌ create_refund
reject_order_inv env id s h = elim (Option-cases (find_order env.tenant id s)) [
  | inl missing ↦ ground arith
  | inr (o, known) ↦ elim (Bool-cases (same o.status OrderStatus.processing)) [
    | inr other ↦ ground arith
    | inl processing ↦ elim (Bool-cases (is_placed id s)) [
      | inl placed ↦ ground arith
      | inr unplaced ↦ elim (Option-cases (find_first (is_paid_payment_of id) s.payments)) [
        | inl unpaid ↦ ground arith
        | inr ((k, p), paid) ↦
            elim (Bool-cases (succeeds (refund_payment env id o.total_amount s))) [
              | inr failed ↦
                  let (e, t, refused) = err_of (refund_payment env id o.total_amount s) failed in
                  ground arith
              | inl went ↦
                  let (k', p', t, paid', asked) = refund_payment_inv env id o.total_amount s went in
                  let (notices, told) =
                    notified env o.user_id (Notice.order_rejected id)
                      (declined env id o.total_amount t p' s) in
                  (
                    o,
                    k',
                    p',
                    t,
                    notices,
                    known,
                    processing,
                    unplaced,
                    paid',
                    rw (known, processing, unplaced, paid, asked, told) refl,
                  )
            ]
      ]
    ]
  ]
]

-- A rejection that succeeds found the order PROCESSING, not placed with a supplier, and a captured
-- payment `p` of it; the gateway is asked for the order's whole total on `p` if it was paid through Stripe,
-- the refund is recorded as pending under a new id with that total and no return, and the order stands
-- as REJECTED.
pub reject_order_effect :
    (env : Env) (id : ℕ) (s : Store)
    → succeeds (reject_order env id s) ≡ true
    → let after = state_of (reject_order env id s) in
      (o : Order) × (k : ℕ) × (p : Payment) × (t : Option ℕ) × (find_order env.tenant id s ≡ some o)
      × (same o.status OrderStatus.processing ≡ true)
      × (is_placed id s ≡ false)
      × (find_first (is_paid_payment_of id) s.payments ≡ some (k, p))
      × (after.gateway_refunds
          ≡ asked_after (is_stripe p.gateway) p.transaction o.total_amount s.gateway_refunds)
      × (find s.next_id after.refunds ≡ some (refund_row env id none o.total_amount t))
      × (find_order env.tenant id after ≡ some (set_order_status OrderStatus.rejected o))
unfolding update_status insert find find_order
reject_order_effect env id s done =
    let (o, k, p, t, notices, known, processing, unplaced, paid, after) =
      reject_order_inv env id s done in
    (
      o,
      k,
      p,
      t,
      known,
      processing,
      unplaced,
      paid,
      rw after refl,
      rw after (rw (==_refl s.next_id) refl),
      rw after (find_order-update_status env.tenant id OrderStatus.rejected s o known),
    )
