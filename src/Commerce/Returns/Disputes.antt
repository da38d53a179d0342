-- ===== src/Commerce/Returns/Disputes.antt =====
-- return.service.ts: the dispute that recovers a request's cost from the supplier CJ.
use Prim.Native.String.{String}
use all_in_one_v2_api.Base.{
  ℕ, ◌+◌, ◌==◌, Bool, true, false, Option, none, some, List, [], ◌∷◌, if◌then◌else◌, Table, is_some,
  get_or, find, find_first, insert, update, http, ok, throw, pure, ◌>>=◌, ◌>>◌, gets, or_throw,
  when, modify,
}
use all_in_one_v2_api.Commerce.Status.{
  ReturnStatus, DisputeStatus, RequestType, CostCoveredBy, ActorRole,
}
use all_in_one_v2_api.Commerce.Store.{
  OrderItem, Order, SupplierOrder, ReturnItem, Return, Financials, Dispute, Store, Env, Action,
}
use all_in_one_v2_api.Commerce.Returns.Transitions.{assert_valid_return_transition}
use all_in_one_v2_api.Commerce.Returns.Rows.{find_return, transition_status}
use all_in_one_v2_api.Commerce.Returns.Requests.{notify_customer, item_with_id}

-- CJDisputeProduct
pub record DisputeProduct : Type 0 where
  pub line_item_id : ℕ
  pub quantity : ℕ
  pub price : ℕ

-- The calls to CJ, as the adapter answers them, and what a JavaScript Set keeps of the supplier
-- orders that Prisma included with the items (it tells objects apart by reference, not by id).
pub record CjDesk : Type 0 where
  pub dispute_products : ℕ → List DisputeProduct
  pub dispute_reasons : ℕ → List DisputeProduct → List ℕ
  pub create_dispute : ℕ → ℕ → ℕ → List DisputeProduct → Bool
  pub dispute_list : ℕ → List ℕ
  pub dispute_detail : ℕ → Option (String × Option ℕ)
  pub as_set : List ℕ → List ℕ

-- the row of an order item, in the orders
abbrev pub order_item_in : Table Order → ℕ → Option OrderItem
order_item_in [] id = none
order_item_in ((k, o) ∷ t) id = elim (item_with_id o.items id) [
  | some i ↦ some i
  | none ↦ order_item_in t id
]

-- `so?.externalId`
abbrev pub external_of : Option SupplierOrder → Option ℕ
external_of none = none
external_of (some so) = so.external_id

abbrev pub placed_with : Option OrderItem → Store → Option ℕ
placed_with none s = none
placed_with (some i) s = elim i.supplier_order_id [
  | none ↦ none
  | some so ↦ external_of (find so s.supplier_orders)
]

-- `existing.items.map((item) => item.orderItem.supplierOrder).filter(…)`, as external ids
abbrev pub external_ids : List ReturnItem → Store → List ℕ
external_ids [] s = []
external_ids (i ∷ rest) s = elim (placed_with (order_item_in s.orders i.order_item_id) s) [
  | none ↦ external_ids rest s
  | some external ↦ external ∷ external_ids rest s
]

-- the tests on `supplierOrders.size`
abbrev pub only_one : List ℕ → Action ℕ
only_one [] = throw (http 409)
only_one (external ∷ []) = pure external
only_one (external ∷ _ ∷ _) = throw (http 409)

-- `confirmInfo?.disputeReasons?.[0]?.id`, where 0 is falsy too
abbrev pub first_reason : List ℕ → Option ℕ
first_reason [] = none
first_reason (id ∷ _) = if id == 0 then none else some id

abbrev pub first_id : List ℕ → Option ℕ
first_id [] = none
first_id (id ∷ _) = some id

abbrev pub expect_type_of : RequestType → ℕ
expect_type_of RequestType.replacement = 2
expect_type_of _ = 1

-- createDispute of return.repository.ts
unfoldable pub create_dispute_row :
    ℕ → ℕ → Option ℕ → ℕ → Option ℕ → DisputeStatus → Action (Unit {0})
create_dispute_row id external cj_dispute expect reason status s =
    let row : Dispute = record {
      return_id = id;
      cj_order_external_id = external;
      cj_dispute_id = cj_dispute;
      expect_type = expect;
      dispute_reason_id = reason;
      status = status;
      cj_raw_status = none;
      cj_refund_amount = none;
    } in
    ok tt (record s { disputes = insert s.next_id row s.disputes; next_id = s.next_id + 1 })

-- the last part of fileCjDispute, from the answer to createDispute on
abbrev pub conclude_filing : Env → CjDesk → ℕ → Option ℕ → Return → ℕ → ℕ → Bool → Action Bool
conclude_filing env cj id actor existing external reason false = do
  create_dispute_row id external none (expect_type_of existing.request_type) (some reason)
      DisputeStatus.failed_to_submit
  pure false
conclude_filing env cj id actor existing external reason true = do
  create_dispute_row id external (first_id (cj.dispute_list external))
      (expect_type_of existing.request_type) (some reason) DisputeStatus.submitted
  transition_status env.tenant id ReturnStatus.cj_dispute_submitted actor ActorRole.admin none
  notify_customer env id existing
  pure true

-- from the dispute reason on
abbrev pub file_with_reason :
    Env → CjDesk → ℕ → Option ℕ → Return → ℕ → List DisputeProduct → Option ℕ → Action Bool
file_with_reason env cj id actor existing external products none = do
  create_dispute_row id external none (expect_type_of existing.request_type) none
      DisputeStatus.failed_to_submit
  pure false
file_with_reason env cj id actor existing external products (some reason) =
    conclude_filing env cj id actor existing external reason
      (cj.create_dispute external reason (expect_type_of existing.request_type) products)

-- from the eligible products on
abbrev pub file_products :
    Env → CjDesk → ℕ → Option ℕ → Return → ℕ → List DisputeProduct → Action Bool
file_products env cj id actor existing external [] = do
  create_dispute_row id external none (expect_type_of existing.request_type) none
      DisputeStatus.failed_to_submit
  pure false
file_products env cj id actor existing external (p ∷ ps) =
    file_with_reason env cj id actor existing external (p ∷ ps)
      (first_reason (cj.dispute_reasons external (p ∷ ps)))

-- fileCjDispute; it returns `filed`
unfoldable pub file_cj_dispute : Env → CjDesk → ℕ → Option ℕ → Action Bool
file_cj_dispute env cj id actor = do
  existing ← or_throw (← gets (find_return env.tenant id)) (http 404)
  assert_valid_return_transition existing.status ReturnStatus.cj_dispute_submitted
  externals ← gets (external_ids existing.items)
  external ← only_one (cj.as_set externals)
  file_products env cj id actor existing external (cj.dispute_products external)

abbrev pub is_dispute_of : ℕ → ℕ → Dispute → Bool
is_dispute_of id _ d = d.return_id == id

-- findLatestDispute
unfoldable pub find_latest_dispute : ℕ → ℕ → Store → Option (ℕ × Dispute)
find_latest_dispute tenant id s =
    if is_some (find_return tenant id s) then find_first (is_dispute_of id) s.disputes else none

-- updateDispute
unfoldable pub update_dispute : ℕ → (Dispute → Dispute) → Store → Store
update_dispute id f s = record s { disputes = update id f s.disputes }

abbrev pub with_detail : String × Option ℕ → Dispute → Dispute
with_detail (status, amount) d = record d { cj_raw_status = some status; cj_refund_amount = amount }

abbrev pub pull_detail : ℕ → Option (String × Option ℕ) → Action Bool
pull_detail dispute none = pure true
pull_detail dispute (some detail) = do
  modify (update_dispute dispute (with_detail detail))
  pure false

abbrev pub pull_dispute : CjDesk → ℕ → Option ℕ → Action Bool
pull_dispute cj dispute none = pure true
pull_dispute cj dispute (some cj_id) = pull_detail dispute (cj.dispute_detail cj_id)

-- refreshCjDispute; it returns `stale`
unfoldable pub refresh_cj_dispute : Env → CjDesk → ℕ → Action Bool
refresh_cj_dispute env cj id = do
  dispute ← or_throw (← gets (find_latest_dispute env.tenant id)) (http 404)
  pull_dispute cj dispute.0 (dispute.1).cj_dispute_id

abbrev pub no_financials : Financials
no_financials = record {
  customer_refund_amount = none;
  cj_reimbursement_amount = none;
  replacement_product_cost = none;
  replacement_shipping_cost = none;
  cost_covered_by = none;
}

abbrev pub merge_financials : (Financials → Financials) → Return → Return
merge_financials f r = record r { financials = some (f (get_or r.financials no_financials)) }

-- upsertFinancials
unfoldable pub upsert_financials : ℕ → (Financials → Financials) → Store → Store
upsert_financials id f s = record s { returns = update id (merge_financials f) s.returns }

-- the `outcome === 'REJECTED'` branch of confirmCjOutcome
abbrev pub reject_claim : Env → ℕ → Option String → Option ℕ → Return → Action (Unit {0})
reject_claim env id text actor existing = do
  assert_valid_return_transition existing.status ReturnStatus.cj_rejected
  transition_status env.tenant id ReturnStatus.cj_rejected actor ActorRole.admin text
  notify_customer env id existing

abbrev pub funded_by_cj : Financials → Financials
funded_by_cj f = record f {
  cost_covered_by = some CostCoveredBy.cj;
  replacement_product_cost = some 0;
  replacement_shipping_cost = some 0;
}

-- the `dispute.expectType === 2` branch
abbrev pub approve_replacement : Env → ℕ → Option String → Option ℕ → Return → Action (Unit {0})
approve_replacement env id text actor existing = do
  assert_valid_return_transition existing.status ReturnStatus.replacement_processing
  transition_status env.tenant id ReturnStatus.replacement_processing actor ActorRole.admin text
  modify (upsert_financials id funded_by_cj)
  notify_customer env id existing

abbrev pub reimbursed : Option ℕ → Financials → Financials
reimbursed amount f = record f { cj_reimbursement_amount = amount }

-- the last branch
abbrev pub approve_claim :
    Env → ℕ → Option String → Option ℕ → Return → Option ℕ → Action (Unit {0})
approve_claim env id text actor existing amount = do
  assert_valid_return_transition existing.status ReturnStatus.cj_approved
  transition_status env.tenant id ReturnStatus.cj_approved actor ActorRole.admin text
  when (is_some amount) (modify (upsert_financials id (reimbursed amount)))
  notify_customer env id existing

abbrev pub settle_claim :
    Env → ℕ → Bool → Option String → Option ℕ → Return → Dispute → Action (Unit {0})
settle_claim env id false text actor existing d = reject_claim env id text actor existing
settle_claim env id true text actor existing d =
    if d.expect_type == 2
    then approve_replacement env id text actor existing
    else approve_claim env id text actor existing d.cj_refund_amount

abbrev pub outcome_status : Bool → DisputeStatus
outcome_status approved = if approved then DisputeStatus.approved else DisputeStatus.rejected

-- confirmCjOutcome; `approved` is `outcome === 'APPROVED'`
unfoldable pub confirm_cj_outcome : Env → ℕ → Bool → Option String → Option ℕ → Action (Unit {0})
confirm_cj_outcome env id approved text actor = do
  existing ← or_throw (← gets (find_return env.tenant id)) (http 404)
  dispute ← or_throw (← gets (find_latest_dispute env.tenant id)) (http 409)
  modify (update_dispute dispute.0 (λ d. record d { status = outcome_status approved }))
  settle_claim env id approved text actor existing dispute.1
