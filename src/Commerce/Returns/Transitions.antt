-- ===== src/Commerce/Returns/Transitions.antt =====
-- return-status.util.ts: the legal next states of a request.
use all_in_one_v2_api.Base.{Bool, List, [], ◌∷◌, any, same, http, guard}
use all_in_one_v2_api.Commerce.Status.{ReturnStatus, return_status}
use all_in_one_v2_api.Commerce.Store.{Action}

-- ALLOWED_RETURN_TRANSITIONS
abbrev pub allowed_return_transitions : ReturnStatus → List ReturnStatus
allowed_return_transitions ReturnStatus.pending =
    ReturnStatus.under_review ∷ ReturnStatus.cancelled ∷ []
allowed_return_transitions ReturnStatus.under_review =
    ReturnStatus.evidence_required ∷ ReturnStatus.approved ∷ ReturnStatus.rejected
    ∷ ReturnStatus.cancelled ∷ []
allowed_return_transitions ReturnStatus.evidence_required =
    ReturnStatus.under_review ∷ ReturnStatus.rejected ∷ ReturnStatus.cancelled ∷ []
allowed_return_transitions ReturnStatus.approved =
    ReturnStatus.cj_dispute_submitted ∷ ReturnStatus.refund_processing
    ∷ ReturnStatus.replacement_processing ∷ ReturnStatus.return_processing ∷ ReturnStatus.cancelled
    ∷ []
allowed_return_transitions ReturnStatus.rejected = []
allowed_return_transitions ReturnStatus.cj_dispute_submitted =
    ReturnStatus.cj_dispute_under_review ∷ ReturnStatus.cj_approved ∷ ReturnStatus.cj_rejected
    ∷ ReturnStatus.cancelled ∷ []
allowed_return_transitions ReturnStatus.cj_dispute_under_review =
    ReturnStatus.cj_approved ∷ ReturnStatus.cj_rejected ∷ ReturnStatus.cancelled ∷ []
allowed_return_transitions ReturnStatus.cj_approved =
    ReturnStatus.refund_processing ∷ ReturnStatus.replacement_processing
    ∷ ReturnStatus.return_processing ∷ []
allowed_return_transitions ReturnStatus.cj_rejected =
    ReturnStatus.refund_processing ∷ ReturnStatus.replacement_processing ∷ ReturnStatus.rejected
    ∷ ReturnStatus.cancelled ∷ []
allowed_return_transitions ReturnStatus.refund_processing =
    ReturnStatus.completed ∷ ReturnStatus.cancelled ∷ []
allowed_return_transitions ReturnStatus.replacement_processing =
    ReturnStatus.completed ∷ ReturnStatus.cancelled ∷ []
allowed_return_transitions ReturnStatus.return_processing =
    ReturnStatus.refund_processing ∷ ReturnStatus.replacement_processing ∷ ReturnStatus.completed
    ∷ ReturnStatus.cancelled ∷ []
allowed_return_transitions ReturnStatus.completed = []
allowed_return_transitions ReturnStatus.cancelled = []

-- `ALLOWED_RETURN_TRANSITIONS[from]?.includes(to)`
abbrev pub may_move : ReturnStatus → ReturnStatus → Bool
may_move from to = any (same to) (allowed_return_transitions from)

-- assertValidReturnTransition
unfoldable pub assert_valid_return_transition : ReturnStatus → ReturnStatus → Action (Unit {0})
assert_valid_return_transition from to = guard (may_move from to) (http 409)

-- TERMINAL_RETURN_STATUSES of return.repository.ts
abbrev pub terminal_return_statuses : List ReturnStatus
terminal_return_statuses =
    ReturnStatus.rejected ∷ ReturnStatus.cancelled ∷ ReturnStatus.completed ∷ []

abbrev pub is_terminal : ReturnStatus → Bool
is_terminal status = any (same status) terminal_return_statuses
