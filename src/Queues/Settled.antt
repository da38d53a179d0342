-- ===== src/Queues/Settled.antt =====
-- The job of a product-sync message is settled when the message is.
use all_in_one_v2_api.Base.{
  ℕ, suc, ◌≤◌, ◌≡◌, refl, sym, ◌∙◌, ap, Bool, true, false, ◌||◌, Option, none, some, List, arith,
  leb, ltb, find, Outcome, ok, err, Error, Bool-cases, Option-cases, inl, inr, modify, or_throw,
  gets, guard, thrown, ◌>>=◌, Ends, bind-Ends, Ends-weaken, or_throw-Ends, state-Ends,
}
use all_in_one_v2_api.Queues.Consumer.{
  JobContext, Report, Sqs, run_one, run_worker, deliver, context_of, concluded,
}
use all_in_one_v2_api.Queues.Life.{deliver_rule}
use all_in_one_v2_api.Queues.Jobs.{JobStatus, update_job_status}
use all_in_one_v2_api.Queues.ProductSync.{
  ProductSyncMessage, SyncStore, Attempt, starting, counting, completing, failing, noting, run_job,
  attempt_job, record_failure, rethrown, is_done, on_jobs, handle_product_sync, counted, last_error,
}
use all_in_one_v2_api.Queues.Settling.{
  HasJob, JobSettled, settle, status-KeepsJob, payload-KeepsJob, sync_products-Steps,
}

settled-HasJob : (id : ℕ) (s : SyncStore) → JobSettled id s → HasJob id s
settled-HasJob id s (j, row, h) = (j, row)

-- the `try` block returns with the job completed, and never loses its row
run_job-Ends :
    (id : ℕ) (a : Attempt) (supplier : ℕ) (externals : List ℕ) (s : SyncStore)
    → a.writes completing ≡ true
    → HasJob id s
    → Ends (λ _ t. JobSettled id t) (λ _ t. HasJob id t) (run_job a id supplier externals s)
unfolding run_job modify
run_job-Ends id a supplier externals s completes h =
    let E : Error → SyncStore → Type 0 = λ _ t. HasJob id t in
    bind-Ends (λ _ t. HasJob id t) (λ _ t. JobSettled id t) E _ _ s
      (status-KeepsJob (a.writes starting) id JobStatus.processing false s h)
      λ _ s1 h1.
        bind-Ends (λ _ t. HasJob id t) (λ _ t. JobSettled id t) E _ _ s1
          (Ends-weaken _ (λ _ t. HasJob id t) E E _
            (or_throw-Ends (a.partner supplier) thrown E s1 h1) (λ p t (e, _). rw e h1)
            (λ e t k. k))
          λ partner s2 h2.
            bind-Ends (λ _ t. HasJob id t) (λ _ t. JobSettled id t) E _ _ s2
              (state-Ends (HasJob id) _ ((sync_products-Steps id a partner externals _).at s2 h2))
              λ c s3 h3.
                bind-Ends (λ _ t. HasJob id t) (λ _ t. JobSettled id t) E _ _ s3
                  (payload-KeepsJob (a.writes counting) id (counted c) s3 h3)
                  λ _ s4 h4. rw completes (settle id JobStatus.completed false s4 refl h4)

-- how one attempt may end
abbrev Kept : ℕ → JobContext → SyncStore → Type 0
Kept id ctx t = HasJob id t × (ctx.is_final_attempt ≡ true → JobSettled id t)

record_failure-Kept :
    (id : ℕ) (a : Attempt) (ctx : JobContext) (s : SyncStore)
    → (ctx.is_final_attempt ≡ true → a.writes failing ≡ true)
    → HasJob id s
    → Kept id ctx (record_failure a ctx id s)
record_failure-Kept id a ctx s fails h = elim (Bool-cases ctx.is_final_attempt) [
  | inl final ↦
      let done = settle id JobStatus.failed true s refl h in
      rw (final, fails final)
        (
          settled-HasJob id (on_jobs (update_job_status true id JobStatus.failed true) s) done,
          λ _. done,
        )
  | inr more ↦ rw more (
    payload-KeepsJob (a.writes noting) id (last_error ctx.receive_count) s h,
    λ final. absurd (ground arith),
  )
]

rethrown-Kept :
    (id : ℕ) (a : Attempt) (ctx : JobContext) (r : Outcome SyncStore (Unit {0}))
    → (ctx.is_final_attempt ≡ true → a.writes failing ≡ true)
    → Ends (λ _ t. JobSettled id t) (λ _ t. HasJob id t) r
    → Ends (λ _ t. JobSettled id t) (λ _ t. Kept id ctx t) (rethrown (record_failure a ctx id) r)
rethrown-Kept id a ctx (ok x s) fails h = h
rethrown-Kept id a ctx (err e s) fails h = record_failure-Kept id a ctx s fails h

attempt_job-Ends :
    (id : ℕ) (ctx : JobContext) (a : Attempt) (supplier : ℕ) (externals : List ℕ) (s : SyncStore)
    → a.writes completing ≡ true
    → (ctx.is_final_attempt ≡ true → a.writes failing ≡ true)
    → HasJob id s
    → Ends
        (λ _ t. JobSettled id t)
        (λ _ t. Kept id ctx t)
        (attempt_job a ctx id supplier externals s)
unfolding attempt_job
attempt_job-Ends id ctx a supplier externals s completes fails h =
    rethrown-Kept id a ctx _ fails (run_job-Ends id a supplier externals s completes h)

done-JobSettled :
    (id : ℕ) (s : SyncStore) → HasJob id s → is_done (find id s.jobs) ≡ true → JobSettled id s
done-JobSettled id s (j, row) h = (j, row, sym (ap is_done row) ∙ h)

module _ (attempts : ℕ → Attempt) (id supplier : ℕ) (externals : List ℕ) where
  abbrev message : ProductSyncMessage
  message = record { job_id = some id; supplier_id = some supplier; external_ids = some externals }

  handle-Ends :
      (ctx : JobContext) (s : SyncStore)
      → (attempts ctx.receive_count).writes completing ≡ true
      → (ctx.is_final_attempt ≡ true → (attempts ctx.receive_count).finds_job ≡ true)
      → (ctx.is_final_attempt ≡ true → (attempts ctx.receive_count).writes failing ≡ true)
      → HasJob id s
      → Ends
          (λ _ t. JobSettled id t)
          (λ _ t. Kept id ctx t)
          (handle_product_sync attempts message ctx s)
  unfolding handle_product_sync or_throw gets guard ◌>>=◌
  handle-Ends ctx s completes finds fails h =
      elim (Bool-cases (attempts ctx.receive_count).finds_job) [
        | inr lost ↦ rw lost (h, λ final. absurd (ground (arith, finds final, lost)))
        | inl found ↦ elim (Bool-cases (is_done (find id s.jobs))) [
          | inl done ↦ rw (found, done) (done-JobSettled id s h done)
          | inr open' ↦
              simp (found, open')
                (attempt_job-Ends id ctx (attempts ctx.receive_count) supplier externals s completes
                  fails h)
        ]
      ]

  concluded-Kept :
      (taken : Bool) (ctx : JobContext) (r : Outcome SyncStore (Unit {0}))
      → Ends (λ _ t. JobSettled id t) (λ _ t. Kept id ctx t) r
      → HasJob id (concluded taken r).state
        × (((concluded taken r).report).deleted || ctx.is_final_attempt ≡ true
            → JobSettled id (concluded taken r).state)
  concluded-Kept taken ctx (ok a s) h = (settled-HasJob id s h, λ _. h)
  concluded-Kept taken ctx (err e s) (h, done) = (h, done)

  module _ (q : Sqs) (max : ℕ) (dies : ℕ → Option (SyncStore → SyncStore))
      (limited : (n : ℕ) → q.redelivers n ≡ ltb n max)
      (keeps : (n : ℕ) (wrote : SyncStore → SyncStore) (s : SyncStore)
        → dies n ≡ some wrote
        → HasJob id s
        → HasJob id (wrote s))
      (lives : (n : ℕ) → max ≤ n → dies n ≡ none)
      (completes : (n : ℕ) → (attempts n).writes completing ≡ true)
      (finds : (n : ℕ) → max ≤ n → (attempts n).finds_job ≡ true)
      (fails : (n : ℕ) → max ≤ n → (attempts n).writes failing ≡ true) where
    delivered :
        (count : ℕ) (s : SyncStore)
        → HasJob id s
        → let ran = run_worker q max dies (handle_product_sync attempts) (some message) count s in
          HasJob id ran.state
          × (((ran.report).deleted || leb max count ≡ true) → JobSettled id ran.state)
    unfolding run_worker run_one
    delivered count s h = elim (Option-cases (dies count)) [
      | inl alive ↦ rw alive (
          concluded-Kept (q.takes_delete count) (context_of max count) _ (
            handle-Ends (context_of max count) s (completes count)
              (λ final. finds count (ground (arith, final)))
              (λ final. fails count (ground (arith, final))) h))
      | inr (wrote, died) ↦
          rw died
            (keeps count wrote s died h, λ over. absurd (ground (arith, over, died, lives count)))
    ]

    -- When the message of a product sync names a job that has a row: whatever the supplier answers,
    -- whatever throws, and wherever workers die on the way, the job is COMPLETED, FAILED or CANCELLED when
    -- the message comes to its end. This asks that the queue hands a message out again only until it was
    -- received `max` times, that a dying worker deletes no job, that the worker of the last receive lives
    -- and can look up the job and write FAILED, and that the write of COMPLETED always goes through:
    -- updateJobStatus swallows its errors, so the message would be deleted without it.
    pub sync_settles_job :
        (s : SyncStore)
        → HasJob id s
        → (reports : List Report) × (t : SyncStore) × (deliver q max dies
              (handle_product_sync attempts)
              (some message)
              (suc max)
              1
              s
            ≡ some (reports, t))
          × JobSettled id t
    sync_settles_job s h =
        let (reports, t, e, _, _, done) =
          deliver_rule q max dies (handle_product_sync attempts) (some message) (HasJob id)
            (JobSettled id) limited delivered (suc max) 1 s (omega arith) (omega arith) h in
        (reports, t, e, done)
