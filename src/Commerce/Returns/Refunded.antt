-- ===== src/Commerce/Returns/Refunded.antt =====
-- What processRefund leaves behind.
use mathlib.Core.Option
use Prim.Native.String.{String}
use all_in_one_v2_api.Base.{
  ℕ, ◌+◌, ◌≡◌, refl, ==_refl, true, Option, some, List, arith, find, find_first, insert, update,
  find-update, succeeds, state_of, ◌>>=◌, get_or, Option-cases, Bool-cases, inl, inr,
}
use all_in_one_v2_api.Commerce.Status.{ReturnStatus, CostCoveredBy, ActorRole}
use all_in_one_v2_api.Commerce.Store.{Payment, Return, Notice, Store, Env}
use all_in_one_v2_api.Commerce.Orders.Service.{is_paid_payment_of}
use all_in_one_v2_api.Commerce.Payments.Refunding.{refund_payment, create_refund, is_stripe}
use all_in_one_v2_api.Commerce.Returns.Transitions.{may_move, assert_valid_return_transition}
use all_in_one_v2_api.Commerce.Returns.Rows.{find_return, moved_return, transition_status}
use all_in_one_v2_api.Commerce.Returns.Requests.{notify_customer}
use all_in_one_v2_api.Commerce.Returns.Disputes.{merge_financials, upsert_financials}
use all_in_one_v2_api.Commerce.Returns.Refunds.{process_refund, refunded_to_customer, default_cover}
use all_in_one_v2_api.Commerce.Returns.Money.{
  asked_after, asked_for, refund_payment_inv, notified, err_of, refund_row,
}

abbrev merged : ℕ → Option CostCoveredBy → Return → Return → Return
merged amount cover r =
    merge_financials (refunded_to_customer amount (get_or cover (default_cover r)))

abbrev refunding : Option String → Option ℕ → ReturnStatus → Return → Return
refunding text actor from =
    moved_return from ReturnStatus.refund_processing actor ActorRole.admin text

-- the refund and the financials recorded
abbrev recorded : Env → ℕ → ℕ → Option CostCoveredBy → Return → Payment → Option ℕ → Store → Store
recorded env id amount cover r p t s =
    let asked = asked_for p amount s in
    record asked {
      refunds = insert s.next_id (refund_row env r.order_id (some id) amount t) s.refunds;
      returns = update id (merged amount cover r) s.returns;
      next_id = s.next_id + 1;
    }

find_return-update :
    (tenant id : ℕ) (f : Return → Return) (s t : Store) (r : Return)
    → t.returns ≡ update id f s.returns
    → find_return tenant id s ≡ some r
    → (f r).tenant_id ≡ r.tenant_id
    → find_return tenant id t ≡ some (f r)
unfolding find_return
find_return-update tenant id f s t r written h keep =
    rw written (ground (arith, find-update id id f s.returns, ==_refl id))

process_refund_inv :
    (env : Env) (id amount : ℕ) (text : Option String) (cover : Option CostCoveredBy)
    (actor : Option ℕ) (s : Store)
    → succeeds (process_refund env id amount text cover actor s) ≡ true
    → (r : Return) × (k : ℕ) × (p : Payment) × (t : Option ℕ) × (notices : List (ℕ × Notice))
      × (find_return env.tenant id s ≡ some r)
      × (may_move r.status ReturnStatus.refund_processing ≡ true)
      × (find_first (is_paid_payment_of r.order_id) s.payments ≡ some (k, p))
      × (state_of (process_refund env id amount text cover actor s)
          ≡ record (recorded env id amount cover r p t s) {
            returns =
                update id
                  (refunding text actor r.status)
                  (update id (merged amount cover r) s.returns);
            notices = notices;
          })
unfolding process_refund assert_valid_return_transition create_refund upsert_financials
    transition_status notify_customer ◌>>=◌
process_refund_inv env id amount text cover actor s h =
    elim (Option-cases (find_return env.tenant id s)) [
      | inl missing ↦ ground arith
      | inr (r, known) ↦ elim (Bool-cases (may_move r.status ReturnStatus.refund_processing)) [
        | inr illegal ↦ ground arith
        | inl legal ↦ elim (Bool-cases (succeeds (refund_payment env r.order_id amount s))) [
          | inr failed ↦
              let (e, t, refused) = err_of (refund_payment env r.order_id amount s) failed in
              ground arith
          | inl went ↦
              let (k, p, t, paid, asked) = refund_payment_inv env r.order_id amount s went in
              let mid = recorded env id amount cover r p t s in
              let mid_row =
                find_return-update env.tenant id (merged amount cover r) s mid r refl known refl in
              let (notices, told) =
                notified env r.user_id (Notice.return_status id) (record mid {
                  returns = update id (refunding text actor r.status) mid.returns;
                }) in
              (
                r,
                k,
                p,
                t,
                notices,
                known,
                legal,
                paid,
                rw (known, legal, asked, mid_row, told) refl,
              )
        ]
      ]
    ]

-- A refund of a request that succeeds found the request in a status with a legal move to
-- REFUND_PROCESSING and a captured payment `p` of its order; the gateway is asked for the amount on `p` if
-- it was paid through Stripe, the refund is recorded as pending under a new id with that amount and the
-- request, and the request stands in REFUND_PROCESSING.
pub process_refund_effect :
    (env : Env) (id amount : ℕ) (text : Option String) (cover : Option CostCoveredBy)
    (actor : Option ℕ) (s : Store)
    → succeeds (process_refund env id amount text cover actor s) ≡ true
    → let after = state_of (process_refund env id amount text cover actor s) in
      (r : Return) × (k : ℕ) × (p : Payment) × (t : Option ℕ) × (find_return env.tenant id s
        ≡ some r)
      × (may_move r.status ReturnStatus.refund_processing ≡ true)
      × (find_first (is_paid_payment_of r.order_id) s.payments ≡ some (k, p))
      × (after.gateway_refunds
          ≡ asked_after (is_stripe p.gateway) p.transaction amount s.gateway_refunds)
      × (find s.next_id after.refunds ≡ some (refund_row env r.order_id (some id) amount t))
      × (Option.map (λ (x : Return). x.status) (find_return env.tenant id after)
          ≡ some ReturnStatus.refund_processing)
unfolding insert find moved_return
process_refund_effect env id amount text cover actor s done =
    let (r, k, p, t, notices, known, legal, paid, after) =
      process_refund_inv env id amount text cover actor s done in
    let mid = recorded env id amount cover r p t s in
    let mid_row =
      find_return-update env.tenant id (merged amount cover r) s mid r refl known refl in
    let row =
      find_return-update env.tenant id (refunding text actor r.status) mid
        (state_of (process_refund env id amount text cover actor s)) (merged amount cover r r)
        (rw after refl) mid_row refl in
    (
      r,
      k,
      p,
      t,
      known,
      legal,
      paid,
      rw after refl,
      rw after (rw (==_refl s.next_id) refl),
      rw row refl,
    )
