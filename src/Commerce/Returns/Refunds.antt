-- ===== src/Commerce/Returns/Refunds.antt =====
-- return.service.ts: the refund of a request, and the older endpoints that skip the review.
use Prim.Native.String.{String}
use all_in_one_v2_api.Base.{
  ℕ, ◌+◌, ◌==◌, Bool, ◌&&◌, Option, none, some, [], ◌∷◌, if◌then◌else◌, Table, is_some, get_or,
  insert, update_many, same, http, thrown, ok, err, pure, ◌>>=◌, ◌>>◌, gets, or_throw, guard, when,
  modify, attempt,
}
use all_in_one_v2_api.Commerce.Status.{
  OrderStatus, ReturnStatus, return_status, RequestType, CostCoveredBy, ActorRole,
}
use all_in_one_v2_api.Commerce.Store.{
  Order, SupplierOrder, Return, Financials, RefundMessage, Store, Env, Action,
}
use all_in_one_v2_api.Commerce.Orders.Rows.{find_order, update_status}
use all_in_one_v2_api.Commerce.Payments.Refunding.{refund_payment, create_refund}
use all_in_one_v2_api.Commerce.Returns.Transitions.{assert_valid_return_transition}
use all_in_one_v2_api.Commerce.Returns.Rows.{find_return, transition_status, set_return_status}
use all_in_one_v2_api.Commerce.Returns.Requests.{notify_customer}
use all_in_one_v2_api.Commerce.Returns.Disputes.{upsert_financials}

-- `existing.financials?.cjReimbursementAmount != null`
abbrev pub has_reimbursement : Option Financials → Bool
has_reimbursement none = Bool.false
has_reimbursement (some f) = is_some f.cj_reimbursement_amount

abbrev pub default_cover : Return → CostCoveredBy
default_cover r =
    if has_reimbursement r.financials then CostCoveredBy.cj else CostCoveredBy.addictstyle

abbrev pub refunded_to_customer : ℕ → CostCoveredBy → Financials → Financials
refunded_to_customer amount cover f = record f {
  customer_refund_amount = some amount;
  cost_covered_by = some cover;
}

-- processRefund
unfoldable pub process_refund :
    Env → ℕ → ℕ → Option String → Option CostCoveredBy → Option ℕ → Action (Unit {0})
process_refund env id amount text cover actor = do
  existing ← or_throw (← gets (find_return env.tenant id)) (http 404)
  assert_valid_return_transition existing.status ReturnStatus.refund_processing
  transaction ← refund_payment env existing.order_id amount
  refund ← create_refund env existing.order_id (some id) amount transaction
  modify
      (upsert_financials id (refunded_to_customer amount (get_or cover (default_cover existing))))
  transition_status env.tenant id ReturnStatus.refund_processing actor ActorRole.admin text
  notify_customer env id existing

-- createReturn: no items, no history
unfoldable pub create_return : Env → ℕ → ℕ → Option ℕ → Option String → Action ℕ
create_return env order customer user text s =
    let row : Return = record {
      tenant_id = env.tenant;
      order_id = order;
      customer_id = some customer;
      user_id = user;
      status = ReturnStatus.pending;
      request_type = RequestType.refund;
      notes = text;
      items = [];
      evidence = [];
      history = [];
      financials = none;
    } in
    ok s.next_id (record s { returns = insert s.next_id row s.returns; next_id = s.next_id + 1 })

abbrev pub is_return : ℕ → ℕ → ℕ → Return → Bool
is_return tenant id i r = i == id && r.tenant_id == tenant

-- updateReturnStatus
unfoldable pub update_return_status : ℕ → ℕ → ReturnStatus → Option String → Store → Store
update_return_status tenant id status text s = record s {
  returns = update_many (is_return tenant id) (set_return_status status text) s.returns;
}

-- approveReturn
unfoldable pub approve_return : Env → ℕ → Action (Unit {0})
approve_return env id = do
  existing ← or_throw (← gets (find_return env.tenant id)) (http 404)
  guard (same existing.status ReturnStatus.pending) (http 409)
  modify (update_return_status env.tenant id ReturnStatus.approved none)

-- rejectReturn
unfoldable pub reject_return : Env → ℕ → Option String → Action (Unit {0})
reject_return env id text = do
  existing ← or_throw (← gets (find_return env.tenant id)) (http 404)
  guard (same existing.status ReturnStatus.pending) (http 409)
  modify (update_return_status env.tenant id ReturnStatus.rejected text)

abbrev pub send : Env → RefundMessage → Action (Unit {0})
send env message s =
    if env.sqs_accepts message
    then ok tt (record s { refund_queue = message ∷ s.refund_queue })
    else err thrown s

-- one supplier order of the loop: one that was never placed is skipped
abbrev pub request_supplier_refund : Env → ℕ → ℕ → SupplierOrder → Action (Unit {0})
request_supplier_refund env refund id so = elim so.external_id [
  | none ↦ pure tt
  | some external ↦ send env (record {
    refund_id = refund;
    supplier_order_id = id;
    supplier_id = so.supplier_id;
    external_id = external;
  })
]

-- the loop over getSupplierOrders
unfoldable pub request_supplier_refunds : Env → ℕ → ℕ → Table SupplierOrder → Action (Unit {0})
request_supplier_refunds env refund order [] = pure tt
request_supplier_refunds env refund order ((id, so) ∷ t) = do
  when (so.order_id == order) (request_supplier_refund env refund id so)
  request_supplier_refunds env refund order t

abbrev pub close_if_whole : Env → ℕ → ℕ → Option Order → Action (Unit {0})
close_if_whole env order amount none = pure tt
close_if_whole env order amount (some o) =
    when (amount == o.total_amount) (modify (update_status env.tenant order OrderStatus.refunded))

-- issueRefund
unfoldable pub issue_refund : Env → ℕ → ℕ → ℕ → Action ℕ
issue_refund env order id amount = do
  existing ← or_throw (← gets (find_return env.tenant id)) (http 404)
  guard (existing.order_id == order) (http 404)
  guard (same existing.status ReturnStatus.approved) (http 409)
  transaction ← refund_payment env order amount
  refund ← create_refund env order (some id) amount transaction
  modify (update_return_status env.tenant id ReturnStatus.completed none)
  o ← gets (find_order env.tenant order)
  close_if_whole env order amount o
  placements ← gets (λ s. s.supplier_orders)
  attempt (request_supplier_refunds env refund order placements)
  pure refund
