-- ===== src/Queues/Life.antt =====
-- Every message comes to an end.
use all_in_one_v2_api.Base.{
  ℕ, zero, suc, ◌+◌, ◌-◌, ◌≤◌, ◌<◌, ◌≡◌, refl, Bool, true, false, not, ◌||◌, Option, none, some,
  List, [], ◌∷◌, arith, leb, ltb, length, Handler, Bool-cases, inl, inr, Option-cases, Outcome, ok,
  err, succeeds,
}
use all_in_one_v2_api.Queues.Consumer.{
  JobContext, Report, Sqs, context_of, concluded, run_one, run_worker, deliver,
}

-- the last delivery took the message off the queue or was the last that the queue allows; none before did
abbrev pub IsOver : ℕ → ℕ → List Report → Type 0
IsOver max count [] = ⊥
IsOver max count (r ∷ []) = r.deleted || leb max count ≡ true
IsOver max count (r ∷ next ∷ rest) =
    (r.deleted ≡ false) × (count < max) × IsOver max (count + 1) (next ∷ rest)

module _ {S P : Type 0} (q : Sqs) (max : ℕ) (dies : ℕ → Option (S → S))
    (handler : P → JobContext → Handler S (Unit {0})) (m : Option P) (Good Done : S → Type 0)
    (limited : (n : ℕ) → q.redelivers n ≡ ltb n max)
    (step : (count : ℕ) (s : S)
      → Good s
      → let ran = run_worker q max dies handler m count s in
        Good ran.state × (((ran.report).deleted || leb max count ≡ true) → Done ran.state)) where
  abbrev Ended : ℕ → Option (List Report × S) → Type 0
  Ended count out =
      (reports : List Report) × (t : S) × (out ≡ some (reports, t))
      × IsOver max count reports
      × (length reports ≤ 1 + (max - count))
      × Done t

  longer :
      (count : ℕ) (r : Report) (reports : List Report)
      → r.deleted ≡ false
      → count < max
      → IsOver max (count + 1) reports
      → IsOver max count (r ∷ reports)
  longer count r [] kept left over = absurd over
  longer count r (next ∷ rest) kept left over = (kept, left, over)

  pub deliver_rule :
      (fuel count : ℕ) (s : S)
      → 0 < fuel
      → max < count + fuel
      → Good s
      → Ended count (deliver q max dies handler m fuel count s)
  unfolding deliver
  deliver_rule zero count s some' enough good = absurd (omega arith)
  deliver_rule (suc fuel) count s some' enough good =
      let ran = run_worker q max dies handler m count s in
      let (kept, done) = step count s good in
      elim (Bool-cases ((ran.report).deleted || not (q.redelivers count))) [
        | inl over ↦
            let last : (ran.report).deleted || leb max count ≡ true =
              ground (arith, limited count) in
            rw over ((ran.report ∷ []), ran.state, refl, last, omega arith, done last)
        | inr more ↦
            let still : (ran.report).deleted ≡ false = ground arith in
            let left : count < max = ground (arith, limited count) in
            let (reports, t, e, over, few, at_end) =
              deliver_rule fuel (count + 1) ran.state (omega arith) (omega arith) kept in
            rw more (
              rw e (
                (ran.report ∷ reports),
                t,
                refl,
                longer count ran.report reports still left over,
                omega arith,
                at_end,
              ))
      ]

-- so many deliveries that leave the message, then one that takes it off the queue and is a success
abbrev pub HasRetried : ℕ → List Report → Type 0
HasRetried zero reports = reports ≡ record { deleted = true; succeeded = some true } ∷ []
HasRetried (suc k) reports =
    (r : Report) × (rest : List Report) × (reports ≡ r ∷ rest)
    × (r.deleted ≡ false)
    × HasRetried k rest

succeeded-concluded :
    {S : Type 0} (taken : Bool) (r : Outcome S (Unit {0}))
    → succeeds r ≡ true
    → (concluded taken r).report ≡ record { deleted = taken; succeeded = some taken }
succeeded-concluded taken (ok a s) h = refl
succeeded-concluded taken (err e s) h = absurd (ground arith)

failed-concluded :
    {S : Type 0} (taken : Bool) (r : Outcome S (Unit {0}))
    → succeeds r ≡ false
    → ((concluded taken r).report).deleted ≡ false
failed-concluded taken (ok a s) h = absurd (ground arith)
failed-concluded taken (err e s) h = refl

-- a delivery whose worker dies or whose handler throws leaves the message on the queue
kept-run_worker :
    {S P : Type 0} (q : Sqs) (max : ℕ) (dies : ℕ → Option (S → S))
    (handler : P → JobContext → Handler S (Unit {0})) (p : P) (count : ℕ) (s : S)
    → (dies count ≡ none → succeeds (handler p (context_of max count) s) ≡ false)
    → ((run_worker q max dies handler (some p) count s).report).deleted ≡ false
unfolding run_worker run_one
kept-run_worker q max dies handler p count s fails = elim (Option-cases (dies count)) [
  | inl lives ↦ rw lives (failed-concluded (q.takes_delete count) _ (fails lives))
  | inr (wrote, died) ↦ rw died refl
]

-- a delivery whose worker lives and whose handler returns
taken-run_worker :
    {S P : Type 0} (q : Sqs) (max : ℕ) (dies : ℕ → Option (S → S))
    (handler : P → JobContext → Handler S (Unit {0})) (p : P) (count : ℕ) (s : S)
    → dies count ≡ none
    → q.takes_delete count ≡ true
    → succeeds (handler p (context_of max count) s) ≡ true
    → (run_worker q max dies handler (some p) count s).report
      ≡ record { deleted = true; succeeded = some true }
unfolding run_worker run_one
taken-run_worker q max dies handler p count s lives taken returns =
    rw lives (rw taken (succeeded-concluded true (handler p (context_of max count) s) returns))

module _ {S P : Type 0} (q : Sqs) (max : ℕ) (dies : ℕ → Option (S → S))
    (handler : P → JobContext → Handler S (Unit {0})) (p : P) (n : ℕ) (room : n ≤ max)
    (limited : (k : ℕ) → q.redelivers k ≡ ltb k max)
    (fails : (k : ℕ) (t : S)
      → k < n
      → dies k ≡ none
      → succeeds (handler p (context_of max k) t) ≡ false)
    (lives : dies n ≡ none) (taken : q.takes_delete n ≡ true)
    (returns : (t : S) → succeeds (handler p (context_of max n) t) ≡ true) where
  retried :
      (left fuel count : ℕ) (s : S)
      → count + left ≡ n
      → left < fuel
      → (reports : List Report) × (t : S) × (deliver q max dies handler (some p) fuel count s
          ≡ some (reports, t))
        × HasRetried left reports
  unfolding deliver
  retried left zero count s e enough = absurd (omega arith)
  retried zero (suc fuel) count s e enough =
      let ran = run_worker q max dies handler (some p) count s in
      let same : count ≡ n = omega arith in
      let done : ran.report ≡ record { deleted = true; succeeded = some true } =
        taken-run_worker q max dies handler p count s (rw same lives) (rw same taken)
          (rw same (returns s)) in
      rw done ((record { deleted = true; succeeded = some true } ∷ []), ran.state, refl, refl)
  retried (suc left) (suc fuel) count s e enough =
      let ran = run_worker q max dies handler (some p) count s in
      let kept : (ran.report).deleted ≡ false =
        kept-run_worker q max dies handler p count s (fails count s (omega arith)) in
      let again : q.redelivers count ≡ true = ground (arith, limited count) in
      let (reports, t, out, rest) =
        retried left fuel (count + 1) ran.state (omega arith) (omega arith) in
      rw (kept, again)
        (rw out ((ran.report ∷ reports), t, refl, (ran.report, reports, refl, kept, rest)))

  -- A message is given out again until its handler returns. Where the queue hands it out at least `n`
  -- times, on every receive before the `n`-th the worker dies or the handler throws, and on the `n`-th
  -- the worker lives, the handler returns and the queue takes the deletion: the message is delivered
  -- exactly `n` times. No delivery before the last takes it off the queue, and the last does and counts
  -- as a success.
  pub deliver_retries :
      (s : S)
      → 1 ≤ n
      → (reports : List Report) × (t : S) × (deliver q max dies handler (some p) (suc max) 1 s
          ≡ some (reports, t))
        × HasRetried (n - 1) reports
  deliver_retries s some' = retried (n - 1) (suc max) 1 s (omega arith) (omega arith)
