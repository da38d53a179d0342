-- ===== src/Commerce/Returns/DisputeTrails.antt =====
-- The endpoints of the supplier dispute keep the audit trails.
use Prim.Native.String.{String}
use all_in_one_v2_api.Base.{
  ℕ, ◌≡◌, refl, ◌==◌, Bool, true, false, Option, none, some, List, [], ◌∷◌, inl, inr, Steps,
  Steps-bind, Steps-modify, Steps-gets, Steps-or_throw, Bool-cases, throw, http, Steps-pure,
  step_rules,
}
use all_in_one_v2_api.Commerce.Status.{ReturnStatus, return_status, DisputeStatus, ActorRole}
use all_in_one_v2_api.Commerce.Store.{Return, Financials, Dispute, Store, Env}
use all_in_one_v2_api.Commerce.Returns.Transitions.{may_move}
use all_in_one_v2_api.Commerce.Returns.Disputes.{
  CjDesk, DisputeProduct, create_dispute_row, conclude_filing, file_with_reason, file_products,
  file_cj_dispute, only_one, refresh_cj_dispute, pull_detail, pull_dispute, confirm_cj_outcome,
  settle_claim, merge_financials, upsert_financials,
}
use all_in_one_v2_api.Commerce.Returns.Audit.{
  KeepsTrails, KeepsTrails-Preorder, Quiet, Quiet-Preorder, Steps-loud, Moves, Moves-transition,
  Moves-then, Moves-after, Moves-assert, Moves-of-Steps, Steps-found,
}
use all_in_one_v2_api.Commerce.Returns.QuietSteps.{
  notify_customer-Quiet, Quiet-touch, create_dispute_row-Quiet, update_dispute-Quiet,
}

filing-trails :
    (id external : ℕ) (cj : Option ℕ) (expect : ℕ) (reason : Option ℕ) (status : DisputeStatus)
    → Steps KeepsTrails (create_dispute_row id external cj expect reason status)
filing-trails id external cj expect reason status =
    Steps-loud _ (create_dispute_row-Quiet id external cj expect reason status)

-- the parts of fileCjDispute, at a request that may be disputed
module _ (env : Env) (cj : CjDesk) (id : ℕ) (actor : Option ℕ) (existing : Return)
    (legal : may_move existing.status ReturnStatus.cj_dispute_submitted ≡ true) where
  conclude_filing-Moves :
      (external reason : ℕ) (accepted : Bool)
      → Moves env.tenant id existing.status
          (conclude_filing env cj id actor existing external reason accepted)
  conclude_filing-Moves external reason false =
      Moves-of-Steps _ (search (step_rules, KeepsTrails-Preorder, filing-trails) depth 6)
  conclude_filing-Moves external reason true =
      Moves-after _ _ (create_dispute_row-Quiet id external _ _ _ DisputeStatus.submitted) (λ _.
        Moves-then _ _
          (Moves-transition ReturnStatus.cj_dispute_submitted actor ActorRole.admin none legal)
          (λ _.
            Steps-bind KeepsTrails-Preorder _ _
              (Steps-loud _ (notify_customer-Quiet env id existing))
              (λ _. Steps-pure KeepsTrails-Preorder true)))

  file_with_reason-Moves :
      (external : ℕ) (products : List DisputeProduct) (reason : Option ℕ)
      → Moves env.tenant id existing.status
          (file_with_reason env cj id actor existing external products reason)
  file_with_reason-Moves external products none =
      Moves-of-Steps _ (search (step_rules, KeepsTrails-Preorder, filing-trails) depth 6)
  file_with_reason-Moves external products (some reason) = conclude_filing-Moves external reason _

  file_products-Moves :
      (external : ℕ) (products : List DisputeProduct)
      → Moves env.tenant id existing.status
          (file_products env cj id actor existing external products)
  file_products-Moves external [] =
      Moves-of-Steps _ (search (step_rules, KeepsTrails-Preorder, filing-trails) depth 6)
  file_products-Moves external (p ∷ ps) = file_with_reason-Moves external (p ∷ ps) _

only_one-Quiet : (externals : List ℕ) → Steps Quiet (only_one externals)
unfolding throw
only_one-Quiet [] = record { at = Quiet-Preorder.stay }
only_one-Quiet (e ∷ []) = Steps-pure Quiet-Preorder e
only_one-Quiet (e ∷ _ ∷ _) = record { at = Quiet-Preorder.stay }

pub file_cj_dispute-trails :
    (env : Env) (cj : CjDesk) (id : ℕ) (actor : Option ℕ)
    → Steps KeepsTrails (file_cj_dispute env cj id actor)
unfolding file_cj_dispute
file_cj_dispute-trails env cj id actor = Steps-found env.tenant id _ (λ r.
    Moves-assert ReturnStatus.cj_dispute_submitted _ (λ legal.
      Moves-after _ _ (Steps-gets Quiet-Preorder _) (λ externals.
        Moves-after _ _ (only_one-Quiet (cj.as_set externals)) (λ external.
          file_products-Moves env cj id actor r legal external (cj.dispute_products external)))))

pull_detail-trails :
    (dispute : ℕ) (detail : Option (String × Option ℕ))
    → Steps KeepsTrails (pull_detail dispute detail)
pull_detail-trails dispute none = Steps-pure KeepsTrails-Preorder true
pull_detail-trails dispute (some detail) =
    Steps-loud _ (search (step_rules, Quiet-Preorder, update_dispute-Quiet) depth 6)

pull_dispute-trails :
    (cj : CjDesk) (dispute : ℕ) (external : Option ℕ)
    → Steps KeepsTrails (pull_dispute cj dispute external)
pull_dispute-trails cj dispute none = Steps-pure KeepsTrails-Preorder true
pull_dispute-trails cj dispute (some external) = pull_detail-trails dispute _

pub refresh_cj_dispute-trails :
    (env : Env) (cj : CjDesk) (id : ℕ) → Steps KeepsTrails (refresh_cj_dispute env cj id)
unfolding refresh_cj_dispute
refresh_cj_dispute-trails env cj id =
    search (step_rules, KeepsTrails-Preorder, pull_dispute-trails) depth 10

pub upsert_financials-Quiet :
    (id : ℕ) (f : Financials → Financials) (s : Store) → Quiet s (upsert_financials id f s)
unfolding upsert_financials
upsert_financials-Quiet id f s =
    Quiet-touch id (merge_financials f) s (λ r. refl) (λ r. refl) (λ r. refl)

ruleset ending = (step_rules, Quiet-Preorder, notify_customer-Quiet, upsert_financials-Quiet)

settle_claim-Moves :
    (env : Env) (id : ℕ) (approved : Bool) (text : Option String) (actor : Option ℕ)
    (existing : Return) (d : Dispute)
    → Moves env.tenant id existing.status (settle_claim env id approved text actor existing d)
settle_claim-Moves env id false text actor existing d =
    Moves-assert ReturnStatus.cj_rejected _ (λ legal.
      Moves-then _ _ (Moves-transition ReturnStatus.cj_rejected actor ActorRole.admin text legal)
        (λ _. Steps-loud _ (notify_customer-Quiet env id existing)))
settle_claim-Moves env id true text actor existing d = elim (Bool-cases (d.expect_type == 2)) [
  | inl replacement ↦ rw replacement (
      Moves-assert ReturnStatus.replacement_processing _ (λ legal.
        Moves-then _ _
          (Moves-transition ReturnStatus.replacement_processing actor ActorRole.admin text legal)
          (λ _. Steps-loud _ (search ending depth 8))))
  | inr refund ↦ rw refund (
      Moves-assert ReturnStatus.cj_approved _ (λ legal.
        Moves-then _ _ (Moves-transition ReturnStatus.cj_approved actor ActorRole.admin text legal)
          (λ _. Steps-loud _ (search ending depth 8))))
]

pub confirm_cj_outcome-trails :
    (env : Env) (id : ℕ) (approved : Bool) (text : Option String) (actor : Option ℕ)
    → Steps KeepsTrails (confirm_cj_outcome env id approved text actor)
unfolding confirm_cj_outcome
confirm_cj_outcome-trails env id approved text actor = Steps-found env.tenant id _ (λ r.
    Moves-after _ _ (Steps-gets Quiet-Preorder _) (λ found.
      Moves-after _ _ (Steps-or_throw Quiet-Preorder found (http 409)) (λ dispute.
        Moves-after _ _ (Steps-modify _ (update_dispute-Quiet dispute.0 _))
          (λ _. settle_claim-Moves env id approved text actor r dispute.1))))
