-- ===== src/Commerce/Returns/QuietSteps.antt =====
-- The steps of the request workflow that change no status and write no history.
use mathlib.Core.Option
use all_in_one_v2_api.Base.{
  ℕ, ◌≡◌, refl, ◌==◌, Bool, true, false, Option, none, some, arith, if◌then◌else◌, find, update,
  find-update_many, Everywhere-update_many, Steps, Steps-pure, step_rules,
}
use all_in_one_v2_api.Commerce.Status.{return_status, DisputeStatus}
use all_in_one_v2_api.Commerce.Store.{Return, Dispute, Notice, Store, Env, create_notification}
use all_in_one_v2_api.Commerce.Payments.Webhook.{notify_user}
use all_in_one_v2_api.Commerce.Payments.Refunding.{
  refund_payment, refund_through, create_stripe_refund, create_refund,
}
use all_in_one_v2_api.Commerce.Returns.Rows.{find_return, return_of_tenant}
use all_in_one_v2_api.Commerce.Returns.Requests.{notify_customer}
use all_in_one_v2_api.Commerce.Returns.Disputes.{create_dispute_row, update_dispute}
use all_in_one_v2_api.Commerce.Returns.Audit.{IsTraced, Quiet, Quiet-Preorder, Quiet-of-returns}

pub create_notification-Quiet :
    (env : Env) (user : ℕ) (notice : Notice) → Steps Quiet (create_notification env user notice)
unfolding create_notification
create_notification-Quiet env user notice = record { at = λ s. Quiet-of-returns s _ (ground arith) }

pub notify_user-Quiet :
    (env : Env) (user : Option ℕ) (notice : Notice) → Steps Quiet (notify_user env user notice)
notify_user-Quiet env none notice = Steps-pure Quiet-Preorder tt
notify_user-Quiet env (some user) notice = create_notification-Quiet env user notice

pub notify_customer-Quiet :
    (env : Env) (id : ℕ) (r : Return) → Steps Quiet (notify_customer env id r)
unfolding notify_customer
notify_customer-Quiet env id r = search (step_rules, notify_user-Quiet) depth 6

touched_status :
    (tenant : ℕ) (hit : Bool) (f : Return → Return) (row : Option Return)
    → ((r : Return) → (f r).status ≡ r.status)
    → ((r : Return) → (f r).tenant_id ≡ r.tenant_id)
    → Option.map
        (λ (r : Return). r.status)
        (return_of_tenant tenant (Option.map (λ r. if hit then f r else r) row))
      ≡ Option.map (λ (r : Return). r.status) (return_of_tenant tenant row)
touched_status tenant hit f none h g = refl
touched_status tenant true f (some r) h g = ground (arith, h r, g r)
touched_status tenant false f (some r) h g = refl

-- A write to a request that leaves its status and its history alone.
pub Quiet-touch :
    (id : ℕ) (f : Return → Return) (s : Store)
    → ((r : Return) → (f r).status ≡ r.status)
    → ((r : Return) → (f r).history ≡ r.history)
    → ((r : Return) → (f r).tenant_id ≡ r.tenant_id)
    → Quiet s (record s { returns = update id f s.returns })
unfolding find_return update
Quiet-touch id f s same_status same_history same_tenant = (
  λ tenant k.
      rw (find-update_many k (λ i a. i == id) f s.returns)
        (touched_status tenant (k == id) f (find k s.returns) same_status same_tenant),
  λ all.
      Everywhere-update_many IsTraced (λ i a. i == id) f s.returns
        (λ k r found hit. rw (same_status r) (rw (same_history r) (all k r found))) all,
)

pub create_dispute_row-Quiet :
    (id external : ℕ) (cj : Option ℕ) (expect : ℕ) (reason : Option ℕ) (status : DisputeStatus)
    → Steps Quiet (create_dispute_row id external cj expect reason status)
unfolding create_dispute_row
create_dispute_row-Quiet id external cj expect reason status = record {
  at = λ s. Quiet-of-returns s _ refl;
}

pub update_dispute-Quiet :
    (id : ℕ) (f : Dispute → Dispute) (s : Store) → Quiet s (update_dispute id f s)
unfolding update_dispute
update_dispute-Quiet id f s = Quiet-of-returns s _ refl

pub create_refund-Quiet :
    (env : Env) (order : ℕ) (id : Option ℕ) (amount : ℕ) (transaction : Option ℕ)
    → Steps Quiet (create_refund env order id amount transaction)
unfolding create_refund
create_refund-Quiet env order id amount transaction = record { at = λ s. Quiet-of-returns s _ refl }

pub refund_through-Quiet :
    (env : Env) (stripe : Bool) (transaction : Option ℕ) (amount : ℕ)
    → Steps Quiet (refund_through env stripe transaction amount)
unfolding create_stripe_refund
refund_through-Quiet env true (some intent) amount = record {
  at = λ s. Quiet-of-returns s _ (ground arith);
}
refund_through-Quiet env true none amount = Steps-pure Quiet-Preorder none
refund_through-Quiet env false transaction amount = Steps-pure Quiet-Preorder none

pub refund_payment-Quiet :
    (env : Env) (order amount : ℕ) → Steps Quiet (refund_payment env order amount)
unfolding refund_payment
refund_payment-Quiet env order amount =
    search (step_rules, Quiet-Preorder, refund_through-Quiet) depth 12
