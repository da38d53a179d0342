-- ===== src/Queues/Consumer.antt =====
-- src/infrastructure/sqs/consumer.ts: what the consumer does with one message that SQS hands out.
use all_in_one_v2_api.Base.{
  ℕ, zero, suc, ◌+◌, Bool, false, not, ◌||◌, Option, none, some, List, [], ◌∷◌, leb, if◌then◌else◌,
  Outcome, ok, err, Handler,
}

-- JobContext
pub record JobContext : Type 0 where
  pub receive_count : ℕ
  pub is_final_attempt : Bool

-- what became of one delivery: whether SQS took the message off the queue, and what the metrics say
pub record Report : Type 0 where
  pub deleted : Bool
  pub succeeded : Option Bool

pub record Ran (S : Type 0) : Type 0 where
  pub report : Report
  pub state : S

-- What the queue does: whether it takes a DeleteMessage after the n-th receive, and whether it hands out
-- again what was not deleted then (its redrive policy).
pub record Sqs : Type 0 where
  pub takes_delete : ℕ → Bool
  pub redelivers : ℕ → Bool

abbrev pub context_of : ℕ → ℕ → JobContext
context_of max count = record { receive_count = count; is_final_attempt = leb max count }

module _ {S : Type 0} where
  -- the end of the handler: a message is deleted only after success, and a deletion that fails counts as
  -- a failed job
  abbrev pub concluded : Bool → Outcome S (Unit {0}) → Ran S
  concluded taken (ok _ s) = record {
    report = record { deleted = taken; succeeded = some taken };
    state = s;
  }
  concluded taken (err _ s) = record {
    report = record { deleted = false; succeeded = some false };
    state = s;
  }

  abbrev pub and_before : Report → Option (List Report × S) → Option (List Report × S)
  and_before r none = none
  and_before r (some (reports, s)) = some (r ∷ reports, s)

  -- A worker that dies leaves the message where it is, and what it had written.
  abbrev pub or_died : Option (S → S) → S → Ran S → Ran S
  or_died none s ran = ran
  or_died (some wrote) s ran = record {
    report = record { deleted = false; succeeded = none };
    state = wrote s;
  }

module _ {S P : Type 0} where
  -- runOne, where the worker lives; parseEnvelope gives `none` for a body that is no event
  unfoldable pub run_one :
      Sqs → ℕ → (P → JobContext → Handler S (Unit {0})) → Option P → ℕ → S → Ran S
  run_one q max handler none count s = record {
    report = record { deleted = q.takes_delete count; succeeded = none };
    state = s;
  }
  run_one q max handler (some p) count s =
      concluded (q.takes_delete count) (handler p (context_of max count) s)

  -- one delivery to a worker, which may die during it
  unfoldable pub run_worker :
      Sqs
      → ℕ
      → (ℕ → Option (S → S))
      → (P → JobContext → Handler S (Unit {0}))
      → Option P
      → ℕ
      → S
      → Ran S
  run_worker q max dies handler m count s = or_died (dies count) s (run_one q max handler m count s)

  -- The deliveries of one message from the `count`-th receive on; `none` means that the fuel ran out.
  unfoldable pub deliver :
      Sqs
      → ℕ
      → (ℕ → Option (S → S))
      → (P → JobContext → Handler S (Unit {0}))
      → Option P
      → ℕ
      → ℕ
      → S
      → Option (List Report × S)
  deliver q max dies handler m zero count s = none
  deliver q max dies handler m (suc fuel) count s =
      let ran = run_worker q max dies handler m count s in
      let rest = deliver q max dies handler m fuel (count + 1) ran.state in
      if (ran.report).deleted || not (q.redelivers count)
      then some ((ran.report ∷ []), ran.state)
      else and_before ran.report rest
