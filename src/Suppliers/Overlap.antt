-- ===== src/Suppliers/Overlap.antt =====
-- Several workers at once on the message of one refund: each repository call and each call of the supplier
-- is a step, and the steps of the workers interleave.
use all_in_one_v2_api.Base.{
  ℕ, sym, ◌∙◌, zero, suc, ◌+◌, ◌≤◌, ◌≡◌, refl, ◌==◌, ==_refl, Bool, true, false, none, some, arith,
  if◌then◌else◌, Table, find, insert,
}
use all_in_one_v2_api.Commerce.Store.{RequestState, in_progress, done}
use all_in_one_v2_api.Suppliers.{marked}

-- The marks of the supplier order, and how many workers stand where: between the read of no mark and
-- what follows it, at the supplier, after an answer, after a throw, after the read of IN_PROGRESS. Then
-- how many calls were answered, and how often a worker read no mark while another stood between its own
-- read and its write, and how often a write for another refund put back an old mark of this one.
pub record Workers : Type 0 where
  pub requests : Table RequestState
  pub cleared : ℕ
  pub asking : ℕ
  pub answering : ℕ
  pub clearing : ℕ
  pub noting : ℕ
  pub answered : ℕ
  pub raced : ℕ
  pub overwritten : ℕ

abbrev pub one_less : ℕ → ℕ
one_less zero = 0
one_less (suc n) = n

-- the read of no mark
abbrev pub read_none : Workers → Workers
read_none c = record c {
  cleared = c.cleared + 1;
  raced = if c.cleared == 0 then c.raced else c.raced + 1;
}

-- setSupplierRefundRequestInProgress(…, true)
abbrev pub mark_step : ℕ → Workers → Workers
mark_step refund c = record c {
  requests = marked refund true c.requests;
  cleared = one_less c.cleared;
  asking = c.asking + 1;
}

-- a supplier without requestRefund
abbrev pub unsupported_step : ℕ → Workers → Workers
unsupported_step refund c = record c {
  requests = insert refund (done false) c.requests;
  cleared = one_less c.cleared;
}

abbrev pub answer_step : Workers → Workers
answer_step c = record c {
  asking = one_less c.asking;
  answering = c.answering + 1;
  answered = c.answered + 1;
}

-- recordSupplierRefundResult
abbrev pub record_step : ℕ → Bool → Workers → Workers
record_step refund requested c = record c {
  requests = insert refund (done requested) c.requests;
  answering = one_less c.answering;
}

abbrev pub throw_step : Workers → Workers
throw_step c = record c { asking = one_less c.asking; clearing = c.clearing + 1 }

-- setSupplierRefundRequestInProgress(…, false)
abbrev pub clear_step : ℕ → Workers → Workers
clear_step refund c = record c {
  requests = marked refund false c.requests;
  clearing = one_less c.clearing;
}

-- an earlier attempt without an outcome
abbrev pub note_step : ℕ → Workers → Workers
note_step refund c = record c {
  requests = insert refund (done false) c.requests;
  noting = one_less c.noting;
}

-- Every write reads the requests of the supplier order and writes them back with one changed: what a
-- write for another refund writes for this one may be old.
abbrev pub overwrite_step : Table RequestState → Workers → Workers
overwrite_step old c = record c { requests = old; overwritten = c.overwritten + 1 }

-- the steps of handleSupplierRefund; a worker may die, or throw, wherever it stands
pub data WorkerStep (refund : ℕ) (c : Workers) : Workers → Type 0 where
  reads_none : find refund c.requests ≡ none → WorkerStep refund c (read_none c)
  reads_started :
      find refund c.requests ≡ some in_progress
      → WorkerStep refund c (record c { noting = c.noting + 1 })
  marks : 1 ≤ c.cleared → WorkerStep refund c (mark_step refund c)
  unsupported : 1 ≤ c.cleared → WorkerStep refund c (unsupported_step refund c)
  answers : 1 ≤ c.asking → WorkerStep refund c (answer_step c)
  records :
      (requested : Bool) → 1 ≤ c.answering → WorkerStep refund c (record_step refund requested c)
  throws : 1 ≤ c.asking → WorkerStep refund c (throw_step c)
  clears : 1 ≤ c.clearing → WorkerStep refund c (clear_step refund c)
  notes : 1 ≤ c.noting → WorkerStep refund c (note_step refund c)
  others_write :
      (t : Table RequestState)
      → find refund t ≡ find refund c.requests
      → WorkerStep refund c (record c { requests = t })
  others_overwrite : (old : Table RequestState) → WorkerStep refund c (overwrite_step old c)
  dies_cleared : 1 ≤ c.cleared → WorkerStep refund c (record c { cleared = one_less c.cleared })
  dies_asking : 1 ≤ c.asking → WorkerStep refund c (record c { asking = one_less c.asking })
  dies_answering :
      1 ≤ c.answering → WorkerStep refund c (record c { answering = one_less c.answering })
  dies_clearing : 1 ≤ c.clearing → WorkerStep refund c (record c { clearing = one_less c.clearing })
  dies_noting : 1 ≤ c.noting → WorkerStep refund c (record c { noting = one_less c.noting })

pub data WorkerRun (refund : ℕ) : Workers → Workers → Type 0 where
  stay : {c : Workers} → WorkerRun refund c c
  step : {c d e : Workers} → WorkerStep refund c d → WorkerRun refund d e → WorkerRun refund c e

-- Who was answered, or may still be, or may still take the mark away.
abbrev at_large : Workers → ℕ
at_large c = c.answered + c.cleared + c.asking + c.clearing

-- At most one of them is not accounted for by a race; none is while a new worker may start alone.
abbrev IsCounted : ℕ → Workers → Type 0
IsCounted refund c =
    (at_large c ≤ 1 + (c.raced + c.overwritten))
    × (find refund c.requests ≡ none → c.cleared ≡ 0 → at_large c ≤ c.raced + c.overwritten)

find-insert_same :
    (k : ℕ) (r : RequestState) (t : Table RequestState) → find k (insert k r t) ≡ some r
unfolding find insert
find-insert_same k r t = rw (==_refl k) refl

find-marked : (k : ℕ) (t : Table RequestState) → find k (marked k true t) ≡ some in_progress
find-marked k t = find-insert_same k in_progress _

WorkerStep-IsCounted :
    {refund : ℕ} {c d : Workers} → WorkerStep refund c d → IsCounted refund c → IsCounted refund d
WorkerStep-IsCounted {refund} {c} (reads_none free) h =
    (ground (arith, h.1 free), λ _ e. ground arith)
WorkerStep-IsCounted {refund} {c} (reads_started m) h = h
WorkerStep-IsCounted {refund} {c} (marks some') h =
    (ground (arith, h.0), λ e. absurd (ground (arith, find-marked refund c.requests)))
WorkerStep-IsCounted {refund} {c} (unsupported some') h = (
  ground (arith, h.0),
  λ e. absurd (ground (arith, find-insert_same refund (done false) c.requests)),
)
WorkerStep-IsCounted {refund} {c} (answers some') h =
    (ground (arith, h.0), λ e z. ground (arith, h.1 e z))
WorkerStep-IsCounted {refund} {c} (records requested some') h =
    (h.0, λ e. absurd (ground (arith, find-insert_same refund (done requested) c.requests)))
WorkerStep-IsCounted {refund} {c} (throws some') h =
    (ground (arith, h.0), λ e z. ground (arith, h.1 e z))
WorkerStep-IsCounted {refund} {c} (clears some') h =
    (ground (arith, h.0), λ e z. ground (arith, h.0))
WorkerStep-IsCounted {refund} {c} (notes some') h =
    (h.0, λ e. absurd (ground (arith, find-insert_same refund (done false) c.requests)))
WorkerStep-IsCounted {refund} {c} (others_write t same) h = (h.0, λ e z. h.1 (sym same ∙ e) z)
WorkerStep-IsCounted {refund} {c} (others_overwrite old) h =
    (ground (arith, h.0), λ e z. ground (arith, h.0))
WorkerStep-IsCounted {refund} {c} (dies_cleared some') h =
    (ground (arith, h.0), λ e z. ground (arith, h.0))
WorkerStep-IsCounted {refund} {c} (dies_asking some') h =
    (ground (arith, h.0), λ e z. ground (arith, h.1 e z))
WorkerStep-IsCounted {refund} {c} (dies_answering some') h = h
WorkerStep-IsCounted {refund} {c} (dies_clearing some') h =
    (ground (arith, h.0), λ e z. ground (arith, h.1 e z))
WorkerStep-IsCounted {refund} {c} (dies_noting some') h = h

WorkerRun-IsCounted :
    {refund : ℕ} {c d : Workers} → WorkerRun refund c d → IsCounted refund c → IsCounted refund d
WorkerRun-IsCounted stay h = h
WorkerRun-IsCounted (step s rest) h = WorkerRun-IsCounted rest (WorkerStep-IsCounted s h)

-- nobody has started, and nothing was answered
abbrev pub idle : Table RequestState → Workers
idle requests = record {
  requests = requests;
  cleared = 0;
  asking = 0;
  answering = 0;
  clearing = 0;
  noting = 0;
  answered = 0;
  raced = 0;
  overwritten = 0;
}

-- However the steps of any number of workers on one refund interleave, with each other and with writes
-- for other refunds of the supplier order, whichever of them die or throw, and whatever the supplier does:
-- it answers at most one call for the refund, and one more for each time that a worker read no mark while
-- another stood between its own read and its write of the mark, and for each time that a write for
-- another refund put back an old mark of this one. Without either the refund is requested at most once.
pub answered_unless_raced :
    {d : Workers} (refund : ℕ) (requests : Table RequestState)
    → WorkerRun refund (idle requests) d
    → d.answered ≤ 1 + (d.raced + d.overwritten)
answered_unless_raced {d} refund requests run =
    let counted = WorkerRun-IsCounted run (omega arith, λ _ _. omega arith) in
    ground (arith, counted.0)
