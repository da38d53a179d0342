-- ===== src/Commerce/Returns/Requests.antt =====
-- return.service.ts: a request is made by the customer and reviewed by the staff.
use Prim.Native.String.{String}
use all_in_one_v2_api.Base.{
  ℕ, ◌+◌, ◌==◌, Bool, false, not, ◌&&◌, Option, none, some, List, [], ◌∷◌, ◌++◌, map, any, every,
  is_empty, find_in, any_row, insert, update, same, leb, http, ok, pure, ◌>>=◌, ◌>>◌, gets,
  or_throw, guard, when, modify, attempt,
}
use all_in_one_v2_api.Commerce.Status.{
  OrderStatus, order_status, ReturnStatus, return_status, RequestType, ActorRole,
}
use all_in_one_v2_api.Commerce.Store.{
  OrderItem, ReturnItem, HistoryEntry, Return, Notice, Store, Env, Action, owned_by,
}
use all_in_one_v2_api.Commerce.Orders.Rows.{find_order}
use all_in_one_v2_api.Commerce.Payments.Webhook.{notify_user}
use all_in_one_v2_api.Commerce.Returns.Transitions.{assert_valid_return_transition, is_terminal}
use all_in_one_v2_api.Commerce.Returns.Rows.{find_return, transition_status}

-- an entry of `input.items`: the order item and the quantity
abbrev pub Requested : Type 0
Requested = ℕ × ℕ

pub record RequestInput : Type 0 where
  pub order_id : ℕ
  pub customer_id : ℕ
  pub items : List Requested
  pub request_type : RequestType
  pub evidence : List String

-- orderItemsById.get
abbrev pub item_with_id : List OrderItem → ℕ → Option OrderItem
item_with_id items id = find_in (λ i. i.item_id == id) items

abbrev pub covers : Option OrderItem → ℕ → Bool
covers none quantity = false
covers (some i) quantity = leb 1 quantity && leb quantity i.quantity

-- an item of the order, in a quantity from 1 to what was ordered
abbrev pub is_valid_item : List OrderItem → Requested → Bool
is_valid_item items (id, quantity) = covers (item_with_id items id) quantity

abbrev pub covers_any : List Requested → Return → Bool
covers_any items r =
    any (λ (i : ReturnItem). any (λ (q : Requested). q.0 == i.order_item_id) items) r.items

abbrev pub is_active_for : ℕ → List Requested → ℕ → Return → Bool
is_active_for tenant items _ r =
    r.tenant_id == tenant && not (is_terminal r.status) && covers_any items r

-- findActiveReturnsForOrderItems, tested for emptiness
unfoldable pub has_active_return : ℕ → List Requested → Store → Bool
has_active_return tenant items s = any_row (is_active_for tenant items) s.returns

abbrev pub snapshot : ℕ → ℕ → Option OrderItem → ReturnItem
snapshot id quantity none = record {
  order_item_id = id;
  quantity = quantity;
  unit_price_snapshot = 0;
  supplier_cost_snapshot = none;
}
snapshot id quantity (some i) = record {
  order_item_id = id;
  quantity = quantity;
  unit_price_snapshot = i.unit_price;
  supplier_cost_snapshot = i.supplier_cost;
}

-- every requested item was found before, so the `none` of snapshot does not arise
abbrev pub return_items : List OrderItem → List Requested → List ReturnItem
return_items items requested =
    map (λ (q : Requested). snapshot q.0 q.1 (item_with_id items q.0)) requested

-- the first row of a request's history
abbrev pub submitted : HistoryEntry
submitted = record {
  from_status = none;
  to_status = ReturnStatus.pending;
  actor_user_id = none;
  actor_role = ActorRole.customer;
}

-- createReturnWithItems; it returns the new row's id
unfoldable pub create_return_with_items : ℕ → RequestInput → Option ℕ → List OrderItem → Action ℕ
create_return_with_items tenant input user items s =
    let row : Return = record {
      tenant_id = tenant;
      order_id = input.order_id;
      customer_id = some input.customer_id;
      user_id = user;
      status = ReturnStatus.pending;
      request_type = input.request_type;
      notes = none;
      items = return_items items input.items;
      evidence = input.evidence;
      history = submitted ∷ [];
      financials = none;
    } in
    ok s.next_id (record s { returns = insert s.next_id row s.returns; next_id = s.next_id + 1 })

-- createReturnRequest
unfoldable pub create_return_request : Env → RequestInput → Action ℕ
create_return_request env input = do
  order ← or_throw (← gets (find_order env.tenant input.order_id)) (http 404)
  guard (owned_by order.customer_id input.customer_id) (http 404)
  guard (same order.status OrderStatus.fulfilled) (http 409)
  guard (not (is_empty input.items)) (http 400)
  guard (every (is_valid_item order.items) input.items) (http 400)
  active ← gets (has_active_return env.tenant input.items)
  guard (not active) (http 409)
  created ← create_return_with_items env.tenant input order.user_id order.items
  attempt (notify_user env order.user_id (Notice.return_submitted created))
  pure created

-- evidenceAcceptingStatuses
abbrev pub accepts_evidence : ReturnStatus → Bool
accepts_evidence status =
    any (same status)
      (ReturnStatus.pending ∷ ReturnStatus.under_review ∷ ReturnStatus.evidence_required ∷ [])

abbrev pub with_evidence : List String → Return → Return
with_evidence urls r = record r { evidence = r.evidence ++ urls }

-- addEvidence
unfoldable pub add_evidence : ℕ → List String → Store → Store
add_evidence id urls s = record s { returns = update id (with_evidence urls) s.returns }

-- addCustomerEvidence
unfoldable pub add_customer_evidence : Env → ℕ → ℕ → List String → Action (Unit {0})
add_customer_evidence env id customer evidence = do
  existing ← or_throw (← gets (find_return env.tenant id)) (http 404)
  guard (owned_by existing.customer_id customer) (http 404)
  guard (accepts_evidence existing.status) (http 409)
  guard (not (is_empty evidence)) (http 400)
  modify (add_evidence id evidence)
  when (same existing.status ReturnStatus.evidence_required) (
      transition_status env.tenant id ReturnStatus.under_review none ActorRole.customer
        (some "Customer uploaded additional evidence"))

-- notifyCustomer
unfoldable pub notify_customer : Env → ℕ → Return → Action (Unit {0})
notify_customer env id existing =
    attempt (notify_user env existing.user_id (Notice.return_status id))

-- transitionToUnderReview
unfoldable pub transition_to_under_review : Env → ℕ → Option ℕ → Action (Unit {0})
transition_to_under_review env id actor = do
  existing ← or_throw (← gets (find_return env.tenant id)) (http 404)
  assert_valid_return_transition existing.status ReturnStatus.under_review
  transition_status env.tenant id ReturnStatus.under_review actor ActorRole.admin none

-- requestMoreEvidence
unfoldable pub request_more_evidence : Env → ℕ → String → Option ℕ → Action (Unit {0})
request_more_evidence env id text actor = do
  existing ← or_throw (← gets (find_return env.tenant id)) (http 404)
  assert_valid_return_transition existing.status ReturnStatus.evidence_required
  transition_status env.tenant id ReturnStatus.evidence_required actor ActorRole.admin (some text)
  notify_customer env id existing

-- approveReturnRequest
unfoldable pub approve_return_request : Env → ℕ → Option String → Option ℕ → Action (Unit {0})
approve_return_request env id text actor = do
  existing ← or_throw (← gets (find_return env.tenant id)) (http 404)
  assert_valid_return_transition existing.status ReturnStatus.approved
  transition_status env.tenant id ReturnStatus.approved actor ActorRole.admin text
  notify_customer env id existing

-- rejectReturnRequest
unfoldable pub reject_return_request : Env → ℕ → String → Option ℕ → Action (Unit {0})
reject_return_request env id reason actor = do
  existing ← or_throw (← gets (find_return env.tenant id)) (http 404)
  assert_valid_return_transition existing.status ReturnStatus.rejected
  transition_status env.tenant id ReturnStatus.rejected actor ActorRole.admin (some reason)
  notify_customer env id existing
