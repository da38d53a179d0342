-- ===== src/Commerce/Returns/Money.antt =====
-- When a refund is made, and what it leaves behind.
use mathlib.Core.Option
use all_in_one_v2_api.Base.{
  Error, Outcome, attempt, Bool-cases, ℕ, ◌≡◌, refl, Bool, true, false, Option, none, some, List,
  ◌∷◌, arith, find_first, ok, err, succeeds, ◌>>=◌, Option-cases, inl, inr,
}
use all_in_one_v2_api.Commerce.Status.{RefundStatus}
use all_in_one_v2_api.Commerce.Store.{Refund, Payment, Store, Env, Notice, create_notification}
use all_in_one_v2_api.Commerce.Orders.Rows.{find_order}
use all_in_one_v2_api.Commerce.Orders.Service.{is_paid_payment_of}
use all_in_one_v2_api.Commerce.Payments.Refunding.{
  refund_payment, refund_through, is_pending_refund_of, is_stripe, in_cents, create_stripe_refund,
}
use all_in_one_v2_api.Commerce.Payments.Webhook.{notify_user}

-- the refunds that Stripe was asked for, once one of `amount` was made through refundPayment
abbrev pub asked_after : Bool → Option ℕ → ℕ → List (ℕ × ℕ) → List (ℕ × ℕ)
asked_after true (some intent) amount before = (intent, in_cents amount) ∷ before
asked_after true none amount before = before
asked_after false transaction amount before = before

abbrev pub asked_for : Payment → ℕ → Store → Store
asked_for p amount s = record s {
  gateway_refunds = asked_after (is_stripe p.gateway) p.transaction amount s.gateway_refunds;
}

refund_through_inv :
    (env : Env) (stripe : Bool) (transaction : Option ℕ) (amount : ℕ) (s : Store)
    → succeeds (refund_through env stripe transaction amount s) ≡ true
    → (t : Option ℕ) × (refund_through env stripe transaction amount s
        ≡ ok t (record s {
          gateway_refunds = asked_after stripe transaction amount s.gateway_refunds;
        }))
unfolding create_stripe_refund ◌>>=◌
refund_through_inv env true (some intent) amount s h =
    elim (Option-cases (env.stripe_refund intent (in_cents amount))) [
      | inl refused ↦ ground arith
      | inr (t, answered) ↦ (some t, rw answered refl)
    ]
refund_through_inv env true none amount s h = (none, refl)
refund_through_inv env false transaction amount s h = (none, refl)

-- refundPayment succeeds only where a captured payment is found, and does nothing but ask Stripe.
pub refund_payment_inv :
    (env : Env) (order amount : ℕ) (s : Store)
    → succeeds (refund_payment env order amount s) ≡ true
    → (k : ℕ) × (p : Payment) × (t : Option ℕ) × (find_first (is_paid_payment_of order) s.payments
        ≡ some (k, p))
      × (refund_payment env order amount s ≡ ok t (asked_for p amount s))
unfolding refund_payment ◌>>=◌
refund_payment_inv env order amount s h = elim (Option-cases (find_order env.tenant order s)) [
  | inl missing ↦ ground arith
  | inr (o, known) ↦ elim (Option-cases (find_first (is_paid_payment_of order) s.payments)) [
    | inl unpaid ↦ ground arith
    | inr ((k, p), paid) ↦
        let through =
          refund_through_inv env (is_stripe p.gateway) p.transaction amount s
            (rw paid at (rw known at h)) in
        (k, p, through.0, paid, rw known (rw paid through.1))
  ]
]

-- the rows of the order's refund that is not confirmed yet
abbrev pub pending_refund_of : ℕ → Store → Option Refund
pending_refund_of order s =
    Option.map (λ (r : ℕ × Refund). r.1) (find_first (is_pending_refund_of order) s.refunds)

abbrev pub refund_row : Env → ℕ → Option ℕ → ℕ → Option ℕ → Refund
refund_row env order id amount t = record {
  tenant_id = env.tenant;
  order_id = order;
  return_id = id;
  amount = amount;
  status = RefundStatus.pending;
  transaction = t;
}

-- A notification that may fail changes the notices at most.
pub notified :
    (env : Env) (user : Option ℕ) (notice : Notice) (s : Store)
    → (notices : List (ℕ × Notice)) × (attempt (notify_user env user notice) s
        ≡ ok tt (record s { notices = notices }))
unfolding create_notification attempt ◌>>=◌
notified env none notice s = (s.notices, refl)
notified env (some user) notice s = elim (Bool-cases env.notifier_up) [
  | inl up ↦ ((user, notice) ∷ s.notices, rw up refl)
  | inr down ↦ (s.notices, rw down refl)
]

pub err_of :
    {A : Type 0} (r : Outcome Store A)
    → succeeds r ≡ false
    → (e : Error) × (t : Store) × (r ≡ err e t)
err_of (ok a t) h = ground arith
err_of (err e t) h = (e, t, refl)
