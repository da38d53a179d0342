-- ===== src/Suppliers/Once.antt =====
-- The supplier is asked for a refund at most once, however often the message is delivered, one delivery
-- at a time. Deliveries that overlap are in Suppliers/Overlap.
use all_in_one_v2_api.Base.{
  ℕ, ◌+◌, ◌≤◌, ◌≡◌, refl, ◌∙◌, ◌==◌, ==_refl, ==_iff, Bool, true, false, Option, none, some, List,
  [], ◌∷◌, arith, ◌&&◌, if◌then◌else◌, Table, find, find-update, insert, update, is_some,
  Option-cases, inl, inr, state_of, ok, err, thrown, ◌>>=◌,
}
use all_in_one_v2_api.Commerce.Store.{SupplierOrder, RequestState, in_progress, done, RefundMessage}
use all_in_one_v2_api.Suppliers.{
  Call, Dispatch, Registry, Adapter, no_refunds, with_refunds, supplier_refund_request_state,
  write_requests, with_requests, marked, without, handle_supplier_refund, interrupted,
  record_supplier_refund_result, conclude, ask_supplier, set_supplier_refund_request_in_progress,
  request_refund, proceed, send_to, start,
}

-- how many calls for the refund were answered
unfoldable pub answered_calls : ℕ → List Call → ℕ
answered_calls refund [] = 0
answered_calls refund (c ∷ rest) =
    let n = answered_calls refund rest in if c.refund == refund && c.answered then 1 + n else n

-- the refund's mark in one supplier order, after a write to it
abbrev mark : RefundMessage → Dispatch → Option RequestState
mark m d = supplier_refund_request_state m.supplier_order_id m.refund_id d

-- Before the first mark nothing was filed, and after it at most once.
abbrev IsOnce : RefundMessage → Dispatch → Type 0
IsOnce m d =
    (answered_calls m.refund_id d.calls ≤ 1)
    × ((mark m d ≡ none) → answered_calls m.refund_id d.calls ≡ 0)

-- A delivery to a worker that has the message alone: it runs to its end, or dies while it waits for the
-- supplier's answer.
pub data Delivery : Type 0 where
  handled : Registry → Delivery
  died : Registry → Delivery

abbrev pub deliver : RefundMessage → Delivery → Dispatch → Dispatch
deliver m (handled registry) d = state_of (handle_supplier_refund registry m d)
deliver m (died registry) d = state_of (interrupted registry m d)

find-without : (k : ℕ) (t : Table RequestState) → find k (without k t) ≡ none
unfolding find without
find-without k [] = refl
find-without k ((i, r) ∷ t) = ground (arith, find-without k t, ==_iff k i, ==_iff i k)

-- a write to the requests of an order that exists
abbrev written_to : ℕ → (Table RequestState → Table RequestState) → Dispatch → Dispatch
written_to so f d = record d { supplier_orders = update so (with_requests f) d.supplier_orders }

write_requests_found :
    (so : ℕ) (f : Table RequestState → Table RequestState) (d : Dispatch) (row : SupplierOrder)
    → find so d.supplier_orders ≡ some row
    → write_requests so f d ≡ ok tt (written_to so f d)
unfolding write_requests ◌>>=◌
write_requests_found so f d row h = rw h refl

write_requests_missing :
    (so : ℕ) (f : Table RequestState → Table RequestState) (d : Dispatch)
    → find so d.supplier_orders ≡ none
    → write_requests so f d ≡ err thrown d
unfolding write_requests ◌>>=◌
write_requests_missing so f d h = rw h refl

mark-written :
    (m : RefundMessage) (f : Table RequestState → Table RequestState) (d : Dispatch)
    (row : SupplierOrder)
    → find m.supplier_order_id d.supplier_orders ≡ some row
    → mark m (written_to m.supplier_order_id f d) ≡ find m.refund_id (f row.refund_requests)
unfolding supplier_refund_request_state
mark-written m f d row h =
    rw
      (
        find-update m.supplier_order_id m.supplier_order_id (with_requests f) d.supplier_orders,
        ==_refl m.supplier_order_id,
        h,
      )
      refl

-- a mark that is there leaves nothing more to show
IsOnce-marked :
    (m : RefundMessage) (d : Dispatch) (state : RequestState)
    → answered_calls m.refund_id d.calls ≤ 1
    → mark m d ≡ some state
    → IsOnce m d
IsOnce-marked m d state few h = (few, λ unmarked. ground arith)

find-inserted : (k : ℕ) (r : RequestState) (t : Table RequestState) → find k (insert k r t) ≡ some r
unfolding find insert
find-inserted k r t = rw (==_refl k) refl

record-IsOnce :
    (m : RefundMessage) (requested : Bool) (d : Dispatch)
    → IsOnce m d
    → IsOnce m
        (state_of (record_supplier_refund_result m.supplier_order_id m.refund_id requested d))
unfolding record_supplier_refund_result
record-IsOnce m requested d h = elim (Option-cases (find m.supplier_order_id d.supplier_orders)) [
  | inl missing ↦
      rw
        (write_requests_missing m.supplier_order_id (λ t. insert m.refund_id (done requested) t) d
          missing)
        h
  | inr (row, found) ↦
      rw
        (write_requests_found m.supplier_order_id (λ t. insert m.refund_id (done requested) t) d row
          found)
        (IsOnce-marked m _ (done requested) h.0 (
          mark-written m (λ t. insert m.refund_id (done requested) t) d row found
          ∙ find-inserted m.refund_id (done requested) row.refund_requests))
]

-- the answer has come: its call is counted, and the mark says that the attempt is under way
conclude-IsOnce :
    (m : RefundMessage) (answer : Option Bool) (d : Dispatch) (row : SupplierOrder)
    → find m.supplier_order_id d.supplier_orders ≡ some row
    → answered_calls m.refund_id d.calls ≤ (if is_some answer then 1 else 0)
    → mark m d ≡ some in_progress
    → IsOnce m (state_of (conclude m answer d))
unfolding ◌>>=◌ set_supplier_refund_request_in_progress
conclude-IsOnce m (some requested) d row found few h =
    record-IsOnce m requested d (IsOnce-marked m d in_progress few h)
conclude-IsOnce m none d row found few h =
    rw (write_requests_found m.supplier_order_id (marked m.refund_id false) d row found)
      (omega arith, λ _. omega arith)

-- the state while the supplier answers
abbrev asked : RefundMessage → Option Bool → Dispatch → Dispatch
asked m answer d =
    let after = written_to m.supplier_order_id (marked m.refund_id true) d in
    record after {
      calls = record { refund = m.refund_id; answered = is_some answer } ∷ after.calls;
    }

asked-mark :
    (m : RefundMessage) (answer : Option Bool) (d : Dispatch) (row : SupplierOrder)
    → find m.supplier_order_id d.supplier_orders ≡ some row
    → mark m (asked m answer d) ≡ some in_progress
unfolding supplier_refund_request_state
asked-mark m answer d row found =
    mark-written m (marked m.refund_id true) d row found
    ∙ find-inserted m.refund_id in_progress (without m.refund_id row.refund_requests)

asked-count :
    (m : RefundMessage) (answer : Option Bool) (d : Dispatch)
    → answered_calls m.refund_id d.calls ≡ 0
    → answered_calls m.refund_id (asked m answer d).calls ≤ (if is_some answer then 1 else 0)
unfolding answered_calls
asked-count m answer d h = ground (arith, ==_refl m.refund_id)

send_to-IsOnce :
    (m : RefundMessage) (adapter : Adapter) (d : Dispatch)
    → IsOnce m d
    → mark m d ≡ none
    → IsOnce m (state_of (send_to m adapter d))
unfolding ◌>>=◌ ask_supplier set_supplier_refund_request_in_progress request_refund
send_to-IsOnce m no_refunds d h unmarked = record-IsOnce m false d h
send_to-IsOnce m (with_refunds request) d h unmarked =
    elim (Option-cases (find m.supplier_order_id d.supplier_orders)) [
      | inl missing ↦
          rw (write_requests_missing m.supplier_order_id (marked m.refund_id true) d missing) h
      | inr (row, found) ↦
          rw (write_requests_found m.supplier_order_id (marked m.refund_id true) d row found) (
            conclude-IsOnce m (request m.external_id) (asked m (request m.external_id) d)
              (with_requests (marked m.refund_id true) row)
              (rw
                (
                  find-update m.supplier_order_id m.supplier_order_id
                      (with_requests (marked m.refund_id true)) d.supplier_orders,
                  ==_refl m.supplier_order_id,
                  found,
                )
                refl)
              (asked-count m (request m.external_id) d (h.1 unmarked))
              (asked-mark m (request m.external_id) d row found))
    ]

proceed-IsOnce :
    (m : RefundMessage) (registry : Registry) (state : Option RequestState) (d : Dispatch)
    → IsOnce m d
    → mark m d ≡ state
    → IsOnce m (state_of (proceed registry m state d))
unfolding ◌>>=◌
proceed-IsOnce m registry (some (done requested)) d h e = h
proceed-IsOnce m registry (some in_progress) d h e = record-IsOnce m false d h
proceed-IsOnce m registry none d h e = elim (Option-cases (registry m.supplier_id)) [
  | inl unknown ↦ rw unknown h
  | inr (adapter, known) ↦ rw known (send_to-IsOnce m adapter d h e)
]

start-IsOnce :
    (m : RefundMessage) (state : Option RequestState) (adapter : Option Adapter) (d : Dispatch)
    → IsOnce m d
    → mark m d ≡ state
    → IsOnce m (state_of (start m state adapter d))
unfolding ◌>>=◌ ask_supplier set_supplier_refund_request_in_progress request_refund
start-IsOnce m (some state) adapter d h e = h
start-IsOnce m none none d h e = h
start-IsOnce m none (some no_refunds) d h e = h
start-IsOnce m none (some (with_refunds request)) d h e =
    elim (Option-cases (find m.supplier_order_id d.supplier_orders)) [
      | inl missing ↦
          rw (write_requests_missing m.supplier_order_id (marked m.refund_id true) d missing) h
      | inr (row, found) ↦
          rw (write_requests_found m.supplier_order_id (marked m.refund_id true) d row found) (
            IsOnce-marked m _ in_progress
              (ground (arith, asked-count m (request m.external_id) d (h.1 e)))
              (asked-mark m (request m.external_id) d row found))
    ]

deliver-IsOnce :
    (m : RefundMessage) (x : Delivery) (d : Dispatch) → IsOnce m d → IsOnce m (deliver m x d)
unfolding handle_supplier_refund interrupted ◌>>=◌
deliver-IsOnce m (handled registry) d h = proceed-IsOnce m registry (mark m d) d h refl
deliver-IsOnce m (died registry) d h = start-IsOnce m (mark m d) (registry m.supplier_id) d h refl

pub deliver_all : RefundMessage → List Delivery → Dispatch → Dispatch
deliver_all m [] d = d
deliver_all m (x ∷ rest) d = deliver_all m rest (deliver m x d)

deliver_all-IsOnce :
    (m : RefundMessage) (xs : List Delivery) (d : Dispatch)
    → IsOnce m d
    → IsOnce m (deliver_all m xs d)
unfolding deliver_all
deliver_all-IsOnce m [] d h = h
deliver_all-IsOnce m (x ∷ xs) d h = deliver_all-IsOnce m xs _ (deliver-IsOnce m x d h)

-- When the message of a refund is delivered any number of times, one delivery after another, no two at
-- once and nothing else at work on the supplier order, whether the workers finish, fail or die while the
-- supplier answers, and whatever the adapters do: from a state where no call for the refund was answered,
-- the supplier answers at most one call for it.
pub supplier_asked_once :
    (m : RefundMessage) (deliveries : List Delivery) (d : Dispatch)
    → answered_calls m.refund_id d.calls ≡ 0
    → answered_calls m.refund_id (deliver_all m deliveries d).calls ≤ 1
supplier_asked_once m deliveries d none_yet =
    (deliver_all-IsOnce m deliveries d (omega arith, λ _. none_yet)).0
