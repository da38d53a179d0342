-- ===== src/Suppliers.antt =====
-- src/consumers/supplier-refund.consumer.ts, and the marks that order.repository.ts keeps for it in
-- `rawResponse.supplierRefundRequests`.
pub mod Once
pub mod Overlap
use all_in_one_v2_api.Base.{
  ℕ, ◌+◌, ◌==◌, Bool, true, false, Option, none, some, List, [], ◌∷◌, if◌then◌else◌, Table, find,
  insert, update, is_some, thrown, ok, err, Outcome, Handler, pure, throw, ◌>>=◌, ◌>>◌, gets, guard,
  modify, or_throw, attempt,
}
use all_in_one_v2_api.Commerce.Store.{SupplierOrder, RequestState, in_progress, done, RefundMessage}

-- A call of requestRefund: for which refund, and whether it was answered or threw.
pub record Call : Type 0 where
  pub refund : ℕ
  pub answered : Bool

-- the supplier orders, and the calls made so far
pub record Dispatch : Type 0 where
  pub supplier_orders : Table SupplierOrder
  pub calls : List Call

-- A SupplierAdapter: without requestRefund, or with it. A call throws (`none`) or says whether a
-- refund was requested.
pub data Adapter : Type 0 where
  no_refunds : Adapter
  with_refunds : (ℕ → Option Bool) → Adapter

-- supplierRegistry.get, which throws on an unknown id
abbrev pub Registry : Type 0
Registry = ℕ → Option Adapter

-- readSupplierRefundRequests of getSupplierOrderRawResponse
abbrev pub requests_of : Option SupplierOrder → Table RequestState
requests_of none = []
requests_of (some so) = so.refund_requests

-- getSupplierRefundRequestState
pub supplier_refund_request_state : ℕ → ℕ → Dispatch → Option RequestState
supplier_refund_request_state so refund d = find refund (requests_of (find so d.supplier_orders))

-- `const { [refundId]: _previous, ...others }`
pub without : ℕ → Table RequestState → Table RequestState
without k [] = []
without k ((i, r) ∷ t) = let rest = without k t in if i == k then rest else (i, r) ∷ rest

abbrev pub with_requests : (Table RequestState → Table RequestState) → SupplierOrder → SupplierOrder
with_requests f so = record so { refund_requests = f so.refund_requests }

-- the update of one supplier order, which throws if there is none
pub write_requests : ℕ → (Table RequestState → Table RequestState) → Handler Dispatch (Unit {0})
write_requests so f = do
  row ← or_throw (← gets (λ (d : Dispatch). find so d.supplier_orders)) thrown
  modify λ d. record d { supplier_orders = update so (with_requests f) d.supplier_orders }

-- recordSupplierRefundResult, with a refund id
pub record_supplier_refund_result : ℕ → ℕ → Bool → Handler Dispatch (Unit {0})
unfolding write_requests
record_supplier_refund_result so refund requested =
    write_requests so (λ t. insert refund (done requested) t)

abbrev pub marked : ℕ → Bool → Table RequestState → Table RequestState
marked refund true t = insert refund in_progress (without refund t)
marked refund false t = without refund t

-- setSupplierRefundRequestInProgress
pub set_supplier_refund_request_in_progress : ℕ → ℕ → Bool → Handler Dispatch (Unit {0})
unfolding write_requests
set_supplier_refund_request_in_progress so refund active = write_requests so (marked refund active)

-- adapter.requestRefund: the call is made, and answers or throws
pub request_refund : ℕ → Option Bool → Handler Dispatch (Option Bool)
request_refund refund answer d =
    ok answer (record d { calls = record { refund = refund; answered = is_some answer } ∷ d.calls })

-- the `catch` of the call, and what follows it
abbrev pub conclude : RefundMessage → Option Bool → Handler Dispatch (Unit {0})
conclude m none = do
  attempt (set_supplier_refund_request_in_progress m.supplier_order_id m.refund_id false)
  throw thrown
conclude m (some requested) =
    record_supplier_refund_result m.supplier_order_id m.refund_id requested

-- up to the answer of the supplier
pub ask_supplier : RefundMessage → (ℕ → Option Bool) → Handler Dispatch (Option Bool)
ask_supplier m request = do
  set_supplier_refund_request_in_progress m.supplier_order_id m.refund_id true
  request_refund m.refund_id (request m.external_id)

abbrev pub send_to : RefundMessage → Adapter → Handler Dispatch (Unit {0})
send_to m no_refunds = record_supplier_refund_result m.supplier_order_id m.refund_id false
send_to m (with_refunds request) = do answer ← ask_supplier m request; conclude m answer

-- the three cases of the recorded state
abbrev pub proceed : Registry → RefundMessage → Option RequestState → Handler Dispatch (Unit {0})
proceed registry m (some (done _)) = pure tt
proceed registry m (some in_progress) =
    record_supplier_refund_result m.supplier_order_id m.refund_id false
proceed registry m none = do adapter ← or_throw (registry m.supplier_id) thrown; send_to m adapter

-- handleSupplierRefund
pub handle_supplier_refund : Registry → RefundMessage → Handler Dispatch (Unit {0})
handle_supplier_refund registry m = do
  state ← gets (supplier_refund_request_state m.supplier_order_id m.refund_id)
  proceed registry m state

-- a worker that dies after the supplier was called, before the outcome was recorded
abbrev pub start :
    RefundMessage → Option RequestState → Option Adapter → Handler Dispatch (Unit {0})
start m none (some (with_refunds request)) = ask_supplier m request >> pure tt
start m none (some no_refunds) = pure tt
start m none none = pure tt
start m (some _) adapter = pure tt

pub interrupted : Registry → RefundMessage → Handler Dispatch (Unit {0})
interrupted registry m = do
  state ← gets (supplier_refund_request_state m.supplier_order_id m.refund_id)
  start m state (registry m.supplier_id)
