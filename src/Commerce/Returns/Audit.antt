-- ===== src/Commerce/Returns/Audit.antt =====
-- The audit trail of a request: what its status history says, and which writes keep it true.
use mathlib.Core.Option
use Prim.Native.String.{String}
use all_in_one_v2_api.Base.{
  ℕ, ◌≡◌, refl, ◌==◌, Bool, true, false, Option, none, some, List, [], ◌∷◌, arith, Table, find,
  update, Everywhere, Everywhere-update_many, ==_iff, Bool-cases, inl, inr, ok, err, Outcome,
  state_of, ◌>>=◌, ◌>>◌, gets, or_throw, when, and_then, Preorder, Steps, ◌∙◌, Option-cases, http,
}
use all_in_one_v2_api.Commerce.Status.{ReturnStatus, return_status, ActorRole}
use all_in_one_v2_api.Commerce.Store.{HistoryEntry, Return, Store, Action}
use all_in_one_v2_api.Commerce.Returns.Transitions.{may_move, assert_valid_return_transition}
use all_in_one_v2_api.Commerce.Returns.Rows.{find_return, moved_return, transition_status}

-- A history that starts with the submission and goes on by legal moves, each from the status before
-- it, up to the given status.
pub data Traced : List HistoryEntry → ReturnStatus → Type 0 where
  created :
      {e : HistoryEntry}
      → e.from_status ≡ none
      → e.to_status ≡ ReturnStatus.pending
      → Traced (e ∷ []) ReturnStatus.pending
  moved :
      {e : HistoryEntry} {h : List HistoryEntry} {from to : ReturnStatus}
      → Traced h from
      → may_move from to ≡ true
      → e.from_status ≡ some from
      → e.to_status ≡ to
      → Traced (e ∷ h) to

abbrev pub IsTraced : Return → Type 0
IsTraced r = Traced r.history r.status

-- every request that can be found is traced
abbrev pub AllTraced : Store → Type 0
AllTraced s = Everywhere IsTraced s.returns

moved_return-IsTraced :
    (r : Return) (to : ReturnStatus) (user : Option ℕ) (role : ActorRole) (text : Option String)
    → IsTraced r
    → may_move r.status to ≡ true
    → IsTraced (moved_return r.status to user role text r)
unfolding moved_return
moved_return-IsTraced r to user role text h m = moved h m refl refl

-- what findById found is the row of that id
find_return-find :
    (tenant id : ℕ) (s : Store) (r : Return)
    → find_return tenant id s ≡ some r
    → find id s.returns ≡ some r
unfolding find_return
find_return-find tenant id s r h = ground arith

same_row :
    (t : Table Return) (k id : ℕ) (a r : Return)
    → find k t ≡ some a
    → find id t ≡ some r
    → (k == id) ≡ true
    → a ≡ r
same_row t k id a r f g h = ground (arith, ==_iff k id)

-- the status that findById would show
abbrev pub status_at : ℕ → ℕ → Store → Option ReturnStatus
status_at tenant id s = Option.map (λ (r : Return). r.status) (find_return tenant id s)

-- A legal move keeps the audit trails.
pub transition_status-AllTraced :
    (tenant id : ℕ) (to : ReturnStatus) (user : Option ℕ) (role : ActorRole) (text : Option String)
    (s : Store) (from : ReturnStatus)
    → status_at tenant id s ≡ some from
    → may_move from to ≡ true
    → AllTraced s
    → AllTraced (state_of (transition_status tenant id to user role text s))
unfolding transition_status ◌>>=◌ update
transition_status-AllTraced tenant id to user role text s from h m all =
    elim (Option-cases (find_return tenant id s)) [
      | inl missing ↦ ground arith
      | inr (r, found) ↦ rw found (
          Everywhere-update_many IsTraced (λ i a. i == id) (moved_return r.status to user role text)
            s.returns
            (λ k a at_k hit.
              rw (same_row s.returns k id a r at_k (find_return-find tenant id s r found) hit) (
                moved_return-IsTraced r to user role text
                  (all id r (find_return-find tenant id s r found)) (ground arith)))
            all)
    ]

-- A step that keeps the trails, and one that changes no status besides.
abbrev pub KeepsTrails : Store → Store → Type 0
KeepsTrails s t = AllTraced s → AllTraced t

abbrev pub Quiet : Store → Store → Type 0
Quiet s t = ((tenant id : ℕ) → status_at tenant id t ≡ status_at tenant id s) × KeepsTrails s t

pub KeepsTrails-Preorder : Preorder KeepsTrails
KeepsTrails-Preorder = record { stay = λ s h. h; chain = λ s t u p q h. q (p h) }

pub Quiet-Preorder : Preorder Quiet
Quiet-Preorder = record {
  stay = λ s. ((λ tenant id. refl), λ h. h);
  chain = λ s t u p q. ((λ tenant id. q.0 tenant id ∙ p.0 tenant id), λ h. q.1 (p.1 h));
}

-- A step that leaves the table of requests alone is quiet.
pub Quiet-of-returns : (s t : Store) → t.returns ≡ s.returns → Quiet s t
unfolding find_return
Quiet-of-returns s t e = ((λ tenant id. rw e refl), λ all. rw e all)

pub Steps-loud : {A : Type 0} (m : Action A) → Steps Quiet m → Steps KeepsTrails m
Steps-loud m h = record { at = λ s. (h.at s).1 }

-- A handler that keeps the trails when it starts at a request of the given status.
pub record Moves {A : Type 0} (tenant id : ℕ) (from : ReturnStatus) (m : Action A) : Type 0 where
  pub at : (s : Store) → status_at tenant id s ≡ some from → KeepsTrails s (state_of (m s))

then_trails :
    {A B : Type 0} (s : Store) (r : Outcome Store A) (f : A → Action B)
    → KeepsTrails s (state_of r)
    → ((a : A) → Steps KeepsTrails (f a))
    → KeepsTrails s (state_of (and_then r f))
then_trails s (ok a t) f h k all = (k a).at t (h all)
then_trails s (err e t) f h k all = h all

module _ {tenant id : ℕ} {from : ReturnStatus} where
  pub Moves-transition :
      (to : ReturnStatus) (user : Option ℕ) (role : ActorRole) (text : Option String)
      → may_move from to ≡ true
      → Moves tenant id from (transition_status tenant id to user role text)
  Moves-transition to user role text m = record {
    at = λ s h. transition_status-AllTraced tenant id to user role text s from h m;
  }

  pub Moves-of-Steps : {A : Type 0} (m : Action A) → Steps KeepsTrails m → Moves tenant id from m
  Moves-of-Steps m h = record { at = λ s known. h.at s }

  -- the move comes first
  pub Moves-then :
      {A B : Type 0} (m : Action A) (f : A → Action B)
      → Moves tenant id from m
      → ((a : A) → Steps KeepsTrails (f a))
      → Moves tenant id from (m >>= f)
  unfolding ◌>>=◌
  Moves-then m f h k = record { at = λ s known. then_trails s (m s) f (h.at s known) k }

  next-KeepsTrails :
      {A B : Type 0} (s : Store) (r : Outcome Store A) (f : A → Action B)
      → Quiet s (state_of r)
      → ((a : A) → Moves tenant id from (f a))
      → status_at tenant id s ≡ some from
      → KeepsTrails s (state_of (and_then r f))
  next-KeepsTrails s (ok a t) f q k known all = (k a).at t (q.0 tenant id ∙ known) (q.1 all)
  next-KeepsTrails s (err e t) f q k known all = q.1 all

  -- quiet steps come first
  pub Moves-after :
      {A B : Type 0} (m : Action A) (f : A → Action B)
      → Steps Quiet m
      → ((a : A) → Moves tenant id from (f a))
      → Moves tenant id from (m >>= f)
  unfolding ◌>>=◌
  Moves-after m f q k = record { at = λ s known. next-KeepsTrails s (m s) f (q.at s) k known }

  pub Moves-assert :
      {A : Type 0} (to : ReturnStatus) (m : Action A)
      → (may_move from to ≡ true → Moves tenant id from m)
      → Moves tenant id from (assert_valid_return_transition from to >> m)
  unfolding ◌>>=◌ assert_valid_return_transition
  Moves-assert to m k = elim (Bool-cases (may_move from to)) [
    | inl legal ↦ record { at = λ s known all. rw legal ((k legal).at s known all) }
    | inr illegal ↦ record { at = λ s known all. rw illegal all }
  ]

  pub Moves-when :
      (b : Bool) (m : Action (Unit {0}))
      → (b ≡ true → Moves tenant id from m)
      → Moves tenant id from (when b m)
  unfolding when
  Moves-when true m k = k refl
  Moves-when false m k = record { at = λ s known all. all }

-- A handler that reads its request first.
pub Steps-found :
    {A : Type 0} (tenant id : ℕ) (k : Return → Action A)
    → ((r : Return) → Moves tenant id r.status (k r))
    → Steps KeepsTrails (do r ← or_throw (← gets (find_return tenant id)) (http 404); k r)
unfolding ◌>>=◌
Steps-found tenant id k h = record {
  at = λ s. elim (Option-cases (find_return tenant id s)) [
    | inl missing ↦ rw missing (λ all. all)
    | inr (r, found) ↦ rw found ((h r).at s (rw found refl))
  ];
}
