-- ===== src/Queues/ProductSync.antt =====
-- src/consumers/product-sync.consumer.ts
use all_in_one_v2_api.Base.{
  guard, ℕ, ◌+◌, ◌==◌, Bool, true, false, ◌&&◌, Option, none, some, List, [], ◌∷◌, if◌then◌else◌,
  Table, find, any_row, update_many, thrown, Outcome, ok, err, Handler, pure, ◌>>=◌, ◌>>◌, gets,
  modify, or_throw,
}
use all_in_one_v2_api.Commerce.Status.{SyncStatus}
use all_in_one_v2_api.Queues.Consumer.{JobContext}
use all_in_one_v2_api.Queues.Jobs.{
  JobStatus, JobPayload, Job, is_terminal_state, update_job_status, update_job_payload,
}

-- ProductSyncMessage
pub record ProductSyncMessage : Type 0 where
  pub job_id : Option ℕ
  pub supplier_id : Option ℕ
  pub external_ids : Option (List ℕ)

-- SupplierProduct; `mapped` tells that a product of the catalogue stands behind it
pub record SupplierProduct : Type 0 where
  pub supplier : ℕ
  pub external_id : ℕ
  pub mapped : Bool
  pub sync_status : SyncStatus

pub record SyncStore : Type 0 where
  pub jobs : Table Job
  pub products : Table SupplierProduct

-- what adapter.getProduct does: it throws, answers null, or a product
pub data Answer : Type 0 where
  threw missing found : Answer

-- the writes to the row of the job
pub data JobWrite : Type 0 where
  starting counting completing failing noting : JobWrite

-- What one attempt meets: whether the lookup of the job answers, which writes to its row go through, the
-- supplier's row if it is seeded and has an adapter, the supplier's answers, and for each external id
-- whether its update as synced, importProduct and its mark as failed succeed or throw.
pub record Attempt : Type 0 where
  pub finds_job : Bool
  pub writes : JobWrite → Bool
  pub partner : ℕ → Option ℕ
  pub get_product : ℕ → Answer
  pub updates : ℕ → Bool
  pub imports : ℕ → Bool
  pub marks : ℕ → Bool

-- successCount, failCount
pub record Counts : Type 0 where
  pub successes : ℕ
  pub failures : ℕ

abbrev pub Syncing : Type 0 → Type 0
Syncing A = Handler SyncStore A

abbrev pub is_product : ℕ → ℕ → ℕ → SupplierProduct → Bool
is_product supplier external _ p = p.supplier == supplier && p.external_id == external

abbrev pub with_sync : SyncStatus → SupplierProduct → SupplierProduct
with_sync status p = record p { sync_status = status }

unfoldable pub mark : ℕ → ℕ → SyncStatus → SyncStore → SyncStore
mark supplier external status s = record s {
  products = update_many (is_product supplier external) (with_sync status) s.products;
}

abbrev pub one_success : Counts → Counts
one_success c = record c { successes = c.successes + 1 }

abbrev pub one_failure : Counts → Counts
one_failure c = record c { failures = c.failures + 1 }

-- a product that could not be synced; this write may throw out of the loop
unfoldable pub fail_product : Attempt → ℕ → ℕ → Counts → Syncing Counts
fail_product a supplier external c = do
  guard (a.marks external) thrown
  modify (mark supplier external SyncStatus.failed)
  pure (one_failure c)

-- the product that the supplier answered with: its row is marked, then it is imported
unfoldable pub import_found : Attempt → ℕ → ℕ → Counts → Syncing Counts
import_found a supplier external c =
    if a.updates external
    then (do
      modify (mark supplier external SyncStatus.success)
      if a.imports external then pure (one_success c) else fail_product a supplier external c)
    else fail_product a supplier external c

abbrev pub is_mapped : ℕ → ℕ → ℕ → SupplierProduct → Bool
is_mapped supplier external i p = is_product supplier external i p && p.mapped

-- the body of the loop over the external ids, its try/catch included
unfoldable pub sync_product : Attempt → ℕ → ℕ → Counts → Answer → Syncing Counts
sync_product a supplier external c Answer.threw = fail_product a supplier external c
sync_product a supplier external c Answer.missing = fail_product a supplier external c
sync_product a supplier external c Answer.found = do
  mapped ← gets (λ (s : SyncStore). any_row (is_mapped supplier external) s.products)
  if mapped then import_found a supplier external c else fail_product a supplier external c

unfoldable pub sync_products : Attempt → ℕ → List ℕ → Counts → Syncing Counts
sync_products a supplier [] c = pure c
sync_products a supplier (external ∷ externals) c = do
  c ← sync_product a supplier external c (a.get_product external)
  sync_products a supplier externals c

abbrev pub on_jobs : (Table Job → Table Job) → SyncStore → SyncStore
on_jobs f s = record s { jobs = f s.jobs }

abbrev pub counted : Counts → JobPayload → JobPayload
counted c p = record p { success_count = some c.successes; fail_count = some c.failures }

-- the `try` block
unfoldable pub run_job : Attempt → ℕ → ℕ → List ℕ → Syncing (Unit {0})
run_job a job supplier externals = do
  modify (on_jobs (update_job_status (a.writes starting) job JobStatus.processing false))
  partner ← or_throw (a.partner supplier) thrown
  c ← sync_products a partner externals (record { successes = 0; failures = 0 })
  modify (on_jobs (update_job_payload (a.writes counting) job (counted c)))
  modify (on_jobs (update_job_status (a.writes completing) job JobStatus.completed false))

abbrev pub last_error : ℕ → JobPayload → JobPayload
last_error count p = record p { last_error = true; attempts = some count }

-- the `catch` block: a job fails only on the final attempt
abbrev pub record_failure : Attempt → JobContext → ℕ → SyncStore → SyncStore
record_failure a ctx job s =
    if ctx.is_final_attempt
    then on_jobs (update_job_status (a.writes failing) job JobStatus.failed true) s
    else on_jobs (update_job_payload (a.writes noting) job (last_error ctx.receive_count)) s

-- `catch (error) { …; throw error; }`
abbrev pub rethrown :
    (SyncStore → SyncStore) → Outcome SyncStore (Unit {0}) → Outcome SyncStore (Unit {0})
rethrown f (ok a s) = ok a s
rethrown f (err e s) = err e (f s)

unfoldable pub attempt_job : Attempt → JobContext → ℕ → ℕ → List ℕ → Syncing (Unit {0})
attempt_job a ctx job supplier externals s =
    rethrown (record_failure a ctx job) (run_job a job supplier externals s)

abbrev pub is_done : Option Job → Bool
is_done none = false
is_done (some j) = is_terminal_state j.status

-- handleProductSync, with what each attempt meets
unfoldable pub handle_product_sync :
    (ℕ → Attempt) → ProductSyncMessage → JobContext → Syncing (Unit {0})
handle_product_sync attempts message ctx = do
  job ← or_throw message.job_id thrown
  supplier ← or_throw message.supplier_id thrown
  externals ← or_throw message.external_ids thrown
  guard (attempts ctx.receive_count).finds_job thrown
  row ← gets (λ (s : SyncStore). find job s.jobs)
  if is_done row
      then pure tt
      else attempt_job (attempts ctx.receive_count) ctx job supplier externals
