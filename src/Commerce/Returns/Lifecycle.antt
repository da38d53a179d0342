-- ===== src/Commerce/Returns/Lifecycle.antt =====
-- The graph of legal moves between the statuses of a request.
use all_in_one_v2_api.Base.{
  ◌≡◌, refl, Bool, true, false, not, ◌&&◌, ◌||◌, ◌⊎◌, inl, inr, arith, is_empty, same,
}
use all_in_one_v2_api.Commerce.Status.{ReturnStatus, return_status}
use all_in_one_v2_api.Commerce.Returns.Transitions.{
  allowed_return_transitions, may_move, is_terminal,
}

-- A path of legal moves.
pub data Reaches : ReturnStatus → ReturnStatus → Type 0 where
  here : {a : ReturnStatus} → Reaches a a
  move : {a b c : ReturnStatus} → may_move a b ≡ true → Reaches b c → Reaches a c

-- The statuses that count as closed, so that a new request may be made, are those without a next one.
pub terminal_has_no_move :
    (status : ReturnStatus) → is_terminal status ≡ is_empty (allowed_return_transitions status)
terminal_has_no_move status = ground arith

-- A request can be cancelled from every status except the closed ones and CJ_APPROVED.
pub cancellable_iff :
    (status : ReturnStatus)
    → may_move status ReturnStatus.cancelled
      ≡ (not (is_terminal status) && not (same status ReturnStatus.cj_approved))
cancellable_iff status = ground arith

-- the statuses in front of an approval
abbrev pub is_before_approval : ReturnStatus → Bool
is_before_approval ReturnStatus.pending = true
is_before_approval ReturnStatus.under_review = true
is_before_approval ReturnStatus.evidence_required = true
is_before_approval _ = false

abbrev pub is_unresolved : ReturnStatus → Bool
is_unresolved status =
    is_before_approval status
    || same status ReturnStatus.rejected
    || same status ReturnStatus.cancelled

step-before_approval :
    (a b : ReturnStatus)
    → may_move a b ≡ true
    → is_before_approval a ≡ true
    → (is_before_approval b || is_terminal b || same b ReturnStatus.approved) ≡ true
step-before_approval a b m h = ground arith

terminal_stays : {a b : ReturnStatus} → Reaches a b → is_terminal a ≡ true → b ≡ a
terminal_stays here t = refl
terminal_stays (move m path) t = ground arith

next_of_before :
    (a b : ReturnStatus)
    → may_move a b ≡ true
    → is_before_approval a ≡ true
    → (is_before_approval b ≡ true)
      ⊎ ((b ≡ ReturnStatus.rejected) ⊎ ((b ≡ ReturnStatus.cancelled) ⊎ (b ≡ ReturnStatus.approved)))
next_of_before a b m h = ground arith

-- No request reaches a resolution (a dispute, a refund, a replacement, a completion) from the statuses
-- in front of an approval without having been APPROVED on the way.
pub resolved_after_approval :
    {a b : ReturnStatus}
    → Reaches a b
    → is_before_approval a ≡ true
    → (is_unresolved b ≡ true) ⊎ Reaches ReturnStatus.approved b
resolved_after_approval here h = inl (ground arith)
resolved_after_approval (move {a} {b} {c} m path) h = elim (next_of_before a b m h) [
  | inl before ↦ resolved_after_approval path before
  | inr (inl rejected) ↦ inl (rw (terminal_stays path (rw rejected refl)) (rw rejected refl))
  | inr (inr (inl cancelled)) ↦
      inl (rw (terminal_stays path (rw cancelled refl)) (rw cancelled refl))
  | inr (inr (inr approved)) ↦ inr (rw approved at path)
]
