-- ===== src/Examples/Queues.antt =====
-- A product sync of two products whose supplier answers only on the second attempt, and the pages of a
-- short list.
use mathlib.Core.Path.{subst}
use all_in_one_v2_api.Base.{
  ℕ, ◌+◌, ◌-◌, ◌*◌, ◌≤◌, ◌<◌, ◌≡◌, refl, ◌==◌, true, false, Option, none, some, List, [], ◌∷◌,
  arith, ltb, Handler, ok, err, thrown, succeeds, if◌then◌else◌, find, update, update_many, any_row,
  ◌>>=◌, Bool-cases, inl, inr,
}
use all_in_one_v2_api.Base.Int.{pos, negsuc}
use all_in_one_v2_api.Commerce.Status.{SyncStatus}
use all_in_one_v2_api.Queues.Consumer.{
  JobContext, Report, Sqs, context_of, run_one, run_worker, deliver,
}
use all_in_one_v2_api.Queues.Life.{HasRetried, deliver_retries}
use all_in_one_v2_api.Queues.Jobs.{JobStatus, new_job, update_job_status, update_job_payload}
use all_in_one_v2_api.Queues.ProductSync.{
  ProductSyncMessage, SyncStore, SupplierProduct, Answer, Attempt, mark, fail_product, import_found,
  sync_product, sync_products, run_job, attempt_job, handle_product_sync,
}
use all_in_one_v2_api.Queues.Settling.{HasJob, JobSettled, status-KeepsJob}
use all_in_one_v2_api.Queues.Settled.{sync_settles_job}
use all_in_one_v2_api.Pagination.{
  Entry, page_is, limit_is, search_is, defaults, parse_pagination, paginate,
}
use all_in_one_v2_api.Pagination.Pages.{
  first_pages, first_pages-all, IsInBounds, parse_pagination-IsInBounds,
}

-- the queue of the deployment: three receives, and it loses the deletion after the second
abbrev queue : Sqs
queue = record { takes_delete = λ n. ltb 2 n; redelivers = λ n. ltb n 3 }

abbrev tracked : SupplierProduct
tracked = record { supplier = 7; external_id = 31; mapped = true; sync_status = SyncStatus.pending }

abbrev store : SyncStore
store = record { jobs = (1, new_job) ∷ []; products = (2, tracked) ∷ [] }

-- the worker of the first receive dies after it wrote PROCESSING
abbrev started_job : SyncStore → SyncStore
started_job s = record s { jobs = update_job_status true 1 JobStatus.processing false s.jobs }

abbrev dies : ℕ → Option (SyncStore → SyncStore)
dies n = if ltb n 2 then some started_job else none

-- the first external id is known to the supplier, and the database answers
abbrev attempts : ℕ → Attempt
attempts n = record {
  finds_job = true;
  writes = λ w. true;
  partner = λ name. some 7;
  get_product = λ external. if external == 31 then Answer.found else Answer.threw;
  updates = λ external. true;
  imports = λ external. true;
  marks = λ external. true;
}

abbrev sync_message : ProductSyncMessage
sync_message = record { job_id = some 1; supplier_id = some 7; external_ids = some (31 ∷ 32 ∷ []) }

started_job-HasJob :
    (n : ℕ) (wrote : SyncStore → SyncStore) (s : SyncStore)
    → dies n ≡ some wrote
    → HasJob 1 s
    → HasJob 1 (wrote s)
started_job-HasJob n wrote s h has = elim (Bool-cases (ltb n 2)) [
  | inl early ↦
      let same : started_job ≡ wrote = ground (arith, early, h) in
      subst (λ f. HasJob 1 (f s)) same (status-KeepsJob true 1 JobStatus.processing false s has)
  | inr late ↦ absurd (ground (arith, late, h))
]

alive : (n : ℕ) → 3 ≤ n → dies n ≡ none
alive n late = let over : ltb n 2 ≡ false = ground arith in rw over refl

store-HasJob : HasJob 1 store
unfolding find
store-HasJob = (new_job, refl)

sync_settles_job_example :
    (reports : List Report) × (t : SyncStore) × (deliver queue 3 dies
        (handle_product_sync attempts)
        (some sync_message)
        4
        1
        store
      ≡ some (reports, t))
    × JobSettled 1 t
sync_settles_job_example =
    sync_settles_job attempts 1 7 (31 ∷ 32 ∷ []) queue 3 dies (λ n. refl) started_job-HasJob alive
      (λ n. refl) (λ n late. refl) (λ n late. refl) store store-HasJob

-- a handler that throws until the third receive
abbrev slow_handler : ℕ → JobContext → Handler ℕ (Unit {0})
slow_handler p ctx s = if ltb ctx.receive_count 3 then err thrown s else ok tt (s + p)

too_early : (k : ℕ) (t : ℕ) → k < 3 → succeeds (slow_handler 5 (context_of 3 k) t) ≡ false
too_early k t early = let soon : ltb k 3 ≡ true = ground arith in rw soon refl

deliver_retries_example :
    (reports : List Report) × (t : ℕ) × (deliver queue 3 (λ n. none) slow_handler (some 5) 4 1 0
      ≡ some (reports, t))
    × HasRetried (3 - 1) reports
deliver_retries_example =
    deliver_retries queue 3 (λ n. none) slow_handler 5 3 (omega arith) (λ k. refl)
      (λ k t early lives. too_early k t early) refl refl (λ t. refl) 0 (omega arith)

abbrev items : List ℕ
items = 11 ∷ 12 ∷ 13 ∷ 14 ∷ 15 ∷ []

first_pages-all_example : first_pages items 2 (paginate items 3 2).total_pages ≡ items
first_pages-all_example = first_pages-all items 3 2 (omega arith)

abbrev query : List Entry
query = page_is (some (negsuc 4)) ∷ limit_is (some (pos 500)) ∷ search_is "shirt" ∷ []

parse_pagination-IsInBounds_example :
    let p = parse_pagination defaults query in
    IsInBounds defaults p × (p.skip + p.limit ≡ p.page * p.limit)
parse_pagination-IsInBounds_example =
    parse_pagination-IsInBounds defaults query (omega arith) (omega arith) (omega arith)

abbrev reported : Option (List Report × SyncStore) → List Report
reported none = []
reported (some (reports, t)) = reports

-- the first worker dies, the second completes the job and the third finds it settled
three_deliveries :
    reported (deliver queue 3 dies (handle_product_sync attempts) (some sync_message) 4 1 store)
    ≡ record { deleted = false; succeeded = none }
      ∷ record { deleted = false; succeeded = some false }
      ∷ record { deleted = true; succeeded = some true }
      ∷ []
unfolding deliver run_worker run_one handle_product_sync attempt_job run_job sync_products
    sync_product import_found fail_product mark update_job_status update_job_payload ◌>>=◌ find
    update update_many any_row
three_deliveries = refl
