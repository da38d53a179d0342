-- ===== src/Commerce/Returns/Workflow.antt =====
-- Every endpoint of the request workflow keeps the audit trails.
use Prim.Native.String.{String}
use all_in_one_v2_api.Base.{
  ℕ, ◌≡◌, refl, Bool, true, Option, none, some, List, [], ◌∷◌, arith, find, Everywhere-insert,
  state_of, ◌>>=◌, gets, Steps, Steps-guard, Steps-modify, attempt, or_throw, http, same, ◌>>◌,
  step_rules,
}
use all_in_one_v2_api.Commerce.Status.{ReturnStatus, return_status, ActorRole, CostCoveredBy}
use all_in_one_v2_api.Commerce.Store.{OrderItem, Return, Notice, Store, Env}
use all_in_one_v2_api.Commerce.Payments.Webhook.{notify_user}
use all_in_one_v2_api.Commerce.Returns.Transitions.{assert_valid_return_transition}
use all_in_one_v2_api.Commerce.Returns.Rows.{find_return, transition_status}
use all_in_one_v2_api.Commerce.Returns.Requests.{
  RequestInput, create_return_request, create_return_with_items, add_customer_evidence,
  add_evidence, with_evidence, transition_to_under_review, request_more_evidence,
  approve_return_request, reject_return_request, notify_customer,
}
use all_in_one_v2_api.Commerce.Returns.Disputes.{
  CjDesk, file_cj_dispute, refresh_cj_dispute, confirm_cj_outcome,
}
use all_in_one_v2_api.Commerce.Returns.Refunds.{process_refund}
use all_in_one_v2_api.Commerce.Returns.Audit.{
  created, IsTraced, AllTraced, KeepsTrails, KeepsTrails-Preorder, Quiet, Quiet-Preorder,
  Steps-loud, Moves, Moves-transition, Moves-then, Moves-after, Moves-assert, Moves-when,
  Steps-found,
}
use all_in_one_v2_api.Commerce.Returns.QuietSteps.{
  notify_customer-Quiet, notify_user-Quiet, Quiet-touch, create_refund-Quiet, refund_payment-Quiet,
}
use all_in_one_v2_api.Commerce.Returns.DisputeTrails.{
  upsert_financials-Quiet, file_cj_dispute-trails, refresh_cj_dispute-trails,
  confirm_cj_outcome-trails,
}

notify-trails : (env : Env) (id : ℕ) (r : Return) → Steps KeepsTrails (notify_customer env id r)
notify-trails env id r = Steps-loud _ (notify_customer-Quiet env id r)

create_return_with_items-trails :
    (tenant : ℕ) (input : RequestInput) (user : Option ℕ) (items : List OrderItem)
    → Steps KeepsTrails (create_return_with_items tenant input user items)
unfolding create_return_with_items
create_return_with_items-trails tenant input user items = record {
  at = λ s. Everywhere-insert IsTraced s.next_id _ s.returns (created refl refl);
}

notified-trails :
    (env : Env) (user : Option ℕ) (notice : Notice)
    → Steps KeepsTrails (attempt (notify_user env user notice))
notified-trails env user notice = Steps-loud _ (search (step_rules, notify_user-Quiet) depth 6)

create_return_request-trails :
    (env : Env) (input : RequestInput) → Steps KeepsTrails (create_return_request env input)
unfolding create_return_request
create_return_request-trails env input =
    search (step_rules, KeepsTrails-Preorder, create_return_with_items-trails, notified-trails)
      depth 24

transition_to_under_review-trails :
    (env : Env) (id : ℕ) (actor : Option ℕ)
    → Steps KeepsTrails (transition_to_under_review env id actor)
unfolding transition_to_under_review
transition_to_under_review-trails env id actor = Steps-found env.tenant id _ (λ r.
    Moves-assert ReturnStatus.under_review _
      (Moves-transition ReturnStatus.under_review actor ActorRole.admin none))

-- the shape of the staff's decisions: a checked move, then a notification
decision-trails :
    (env : Env) (id : ℕ) (to : ReturnStatus) (actor : Option ℕ) (text : Option String)
    → Steps KeepsTrails (do
      r ← or_throw (← gets (find_return env.tenant id)) (http 404)
      assert_valid_return_transition r.status to
      transition_status env.tenant id to actor ActorRole.admin text
      notify_customer env id r)
decision-trails env id to actor text = Steps-found env.tenant id _ (λ r. Moves-assert to _ (λ legal.
    Moves-then _ _ (Moves-transition to actor ActorRole.admin text legal)
      (λ _. notify-trails env id r)))

when_evidence_required :
    {tenant id : ℕ} (from : ReturnStatus) (text : Option String)
    → same from ReturnStatus.evidence_required ≡ true
    → Moves tenant id from
        (transition_status tenant id ReturnStatus.under_review none ActorRole.customer text)
when_evidence_required from text h =
    Moves-transition ReturnStatus.under_review none ActorRole.customer text (ground arith)

add_evidence-Quiet : (id : ℕ) (urls : List String) (s : Store) → Quiet s (add_evidence id urls s)
unfolding add_evidence
add_evidence-Quiet id urls s =
    Quiet-touch id (with_evidence urls) s (λ r. refl) (λ r. refl) (λ r. refl)

add_customer_evidence-trails :
    (env : Env) (id customer : ℕ) (evidence : List String)
    → Steps KeepsTrails (add_customer_evidence env id customer evidence)
unfolding add_customer_evidence
add_customer_evidence-trails env id customer evidence = Steps-found env.tenant id _ (λ r.
    Moves-after _ _ (Steps-guard Quiet-Preorder _ _) (λ _.
      Moves-after _ _ (Steps-guard Quiet-Preorder _ _) (λ _.
        Moves-after _ _ (Steps-guard Quiet-Preorder _ _) (λ _.
          Moves-after _ _ (Steps-modify _ (add_evidence-Quiet id evidence))
            (λ _. Moves-when _ _ (when_evidence_required r.status _))))))

process_refund-trails :
    (env : Env) (id amount : ℕ) (text : Option String) (cover : Option CostCoveredBy)
    (actor : Option ℕ)
    → Steps KeepsTrails (process_refund env id amount text cover actor)
unfolding process_refund
process_refund-trails env id amount text cover actor = Steps-found env.tenant id _ (λ r.
    Moves-assert ReturnStatus.refund_processing _ (λ legal.
      Moves-after _ _ (refund_payment-Quiet env r.order_id amount) (λ transaction.
        Moves-after _ _ (create_refund-Quiet env r.order_id (some id) amount transaction) (λ refund.
          Moves-after _ _ (Steps-modify _ (upsert_financials-Quiet id _)) (λ _.
            Moves-then _ _
              (Moves-transition ReturnStatus.refund_processing actor ActorRole.admin text legal)
              (λ _. notify-trails env id r))))))

-- A request to the workflow endpoints, by the customer or the staff.
pub data Request : Type 0 where
  create : RequestInput → Request
  evidence : ℕ → ℕ → List String → Request
  review : ℕ → Option ℕ → Request
  more_evidence : ℕ → String → Option ℕ → Request
  approve : ℕ → Option String → Option ℕ → Request
  reject : ℕ → String → Option ℕ → Request
  file_dispute : ℕ → Option ℕ → Request
  refresh_dispute : ℕ → Request
  confirm_outcome : ℕ → Bool → Option String → Option ℕ → Request
  refund : ℕ → ℕ → Option String → Option CostCoveredBy → Option ℕ → Request

-- the store after one request, whether it was answered or refused
pub serve : Env → CjDesk → Request → Store → Store
serve env cj (create input) s = state_of (create_return_request env input s)
serve env cj (evidence id customer urls) s = state_of (add_customer_evidence env id customer urls s)
serve env cj (review id actor) s = state_of (transition_to_under_review env id actor s)
serve env cj (more_evidence id text actor) s = state_of (request_more_evidence env id text actor s)
serve env cj (approve id text actor) s = state_of (approve_return_request env id text actor s)
serve env cj (reject id text actor) s = state_of (reject_return_request env id text actor s)
serve env cj (file_dispute id actor) s = state_of (file_cj_dispute env cj id actor s)
serve env cj (refresh_dispute id) s = state_of (refresh_cj_dispute env cj id s)
serve env cj (confirm_outcome id approved text actor) s =
    state_of (confirm_cj_outcome env id approved text actor s)
serve env cj (refund id amount text cover actor) s =
    state_of (process_refund env id amount text cover actor s)

pub serve_all : List (Env × CjDesk × Request) → Store → Store
unfolding serve
serve_all [] s = s
serve_all ((env, cj, q) ∷ rest) s = serve_all rest (serve env cj q s)

serve-trails :
    (env : Env) (cj : CjDesk) (q : Request) (s : Store) → KeepsTrails s (serve env cj q s)
unfolding serve request_more_evidence approve_return_request reject_return_request
serve-trails env cj (create input) s = (create_return_request-trails env input).at s
serve-trails env cj (evidence id customer urls) s =
    (add_customer_evidence-trails env id customer urls).at s
serve-trails env cj (review id actor) s = (transition_to_under_review-trails env id actor).at s
serve-trails env cj (more_evidence id text actor) s =
    (decision-trails env id ReturnStatus.evidence_required actor (some text)).at s
serve-trails env cj (approve id text actor) s =
    (decision-trails env id ReturnStatus.approved actor text).at s
serve-trails env cj (reject id text actor) s =
    (decision-trails env id ReturnStatus.rejected actor (some text)).at s
serve-trails env cj (file_dispute id actor) s = (file_cj_dispute-trails env cj id actor).at s
serve-trails env cj (refresh_dispute id) s = (refresh_cj_dispute-trails env cj id).at s
serve-trails env cj (confirm_outcome id approved text actor) s =
    (confirm_cj_outcome-trails env id approved text actor).at s
serve-trails env cj (refund id amount text cover actor) s =
    (process_refund-trails env id amount text cover actor).at s

serve_all-AllTraced :
    (requests : List (Env × CjDesk × Request)) (s : Store)
    → AllTraced s
    → AllTraced (serve_all requests s)
unfolding serve_all
serve_all-AllTraced [] s h = h
serve_all-AllTraced ((env, cj, q) ∷ rest) s h =
    serve_all-AllTraced rest (serve env cj q s) (serve-trails env cj q s h)

-- a request that was found has a true audit trail
abbrev pub IsTracedRow : Option Return → Type 0
IsTracedRow none = Unit
IsTracedRow (some r) = IsTraced r

row-IsTraced : (row : Option Return) (r : Return) → row ≡ some r → IsTracedRow row → IsTraced r
row-IsTraced none r e h = ground arith
row-IsTraced (some x) r e h = let same_return : x ≡ r = ground arith in rw same_return at h

IsTracedRow-of :
    (row : Option Return) → ((r : Return) → row ≡ some r → IsTraced r) → IsTracedRow row
IsTracedRow-of none h = tt
IsTracedRow-of (some r) h = h r refl

-- Whatever is asked of the workflow's endpoints, in whatever order, by whom, under whatever answers of
-- the supplier, the payment gateway and the notifier: where every request had a true audit trail (it
-- starts with the submission as PENDING and goes on by legal moves, each from the status before it, up
-- to the request's status), every request still has one.
pub serve_all-IsTracedRow :
    (requests : List (Env × CjDesk × Request)) (s : Store) (k : ℕ)
    → ((j : ℕ) → IsTracedRow (find j s.returns))
    → IsTracedRow (find k (serve_all requests s).returns)
serve_all-IsTracedRow requests s k h =
    IsTracedRow-of (find k (serve_all requests s).returns) (
      serve_all-AllTraced requests s (λ j r found. row-IsTraced (find j s.returns) r found (h j)) k)
