-- ===== src/Queues/Settling.antt =====
-- The job of a message comes to rest with the message.
use all_in_one_v2_api.Base.{
  false, ℕ, ◌≡◌, refl, Bool, true, some, List, [], ◌∷◌, Table, find, update, find-update,
  Bool-cases, inl, inr, ==_refl, Steps, step_rules, Steps-pure, Steps-bind, Steps-if, Preorder,
}
use all_in_one_v2_api.Commerce.Status.{SyncStatus}
use all_in_one_v2_api.Queues.Jobs.{
  JobStatus, JobPayload, Job, is_terminal_state, moved, with_payload, update_job_status,
  update_job_payload,
}
use all_in_one_v2_api.Queues.ProductSync.{
  SyncStore, Attempt, Counts, Answer, sync_product, sync_products, import_found, fail_product, mark,
  on_jobs,
}

-- the job has a row, is settled
abbrev pub HasJob : ℕ → SyncStore → Type 0
HasJob id s = (j : Job) × (find id s.jobs ≡ some j)

abbrev pub JobSettled : ℕ → SyncStore → Type 0
JobSettled id s = (j : Job) × (find id s.jobs ≡ some j) × (is_terminal_state j.status ≡ true)

pub find-updated :
    (id : ℕ) (f : Job → Job) (t : Table Job) (j : Job)
    → find id t ≡ some j
    → find id (update id f t) ≡ some (f j)
find-updated id f t j h = rw (find-update id id f t, ==_refl id, h) refl

-- a write of a settled status settles the job
moved-settled :
    (status : JobStatus) (with_error : Bool) (j : Job)
    → is_terminal_state status ≡ true
    → is_terminal_state (moved status with_error j).status ≡ true
moved-settled status with_error j h = elim (Bool-cases (is_terminal_state j.status)) [
  | inl already ↦ rw already already
  | inr open' ↦ rw open' h
]

pub settle :
    (id : ℕ) (status : JobStatus) (with_error : Bool) (s : SyncStore)
    → is_terminal_state status ≡ true
    → HasJob id s
    → JobSettled id (on_jobs (update_job_status true id status with_error) s)
unfolding update_job_status
settle id status with_error s h (j, row) = (
  moved status with_error j,
  find-updated id (moved status with_error) s.jobs j row,
  moved-settled status with_error j h,
)

-- the handlers on the way keep the row of the job
abbrev KeepsJob : ℕ → SyncStore → SyncStore → Type 0
KeepsJob id s t = HasJob id s → HasJob id t

KeepsJob-Preorder : (id : ℕ) → Preorder (KeepsJob id)
KeepsJob-Preorder id = record { stay = λ s h. h; chain = λ s t u f g h. g (f h) }

pub status-KeepsJob :
    (up : Bool) (id : ℕ) (status : JobStatus) (with_error : Bool) (s : SyncStore)
    → KeepsJob id s (on_jobs (update_job_status up id status with_error) s)
unfolding update_job_status
status-KeepsJob true id status with_error s (j, row) =
    (moved status with_error j, find-updated id (moved status with_error) s.jobs j row)
status-KeepsJob false id status with_error s h = h

pub payload-KeepsJob :
    (up : Bool) (id : ℕ) (f : JobPayload → JobPayload) (s : SyncStore)
    → KeepsJob id s (on_jobs (update_job_payload up id f) s)
unfolding update_job_payload
payload-KeepsJob true id f s (j, row) =
    (with_payload f j, find-updated id (with_payload f) s.jobs j row)
payload-KeepsJob false id f s h = h

mark-KeepsJob :
    (id supplier external : ℕ) (status : SyncStatus) (s : SyncStore)
    → KeepsJob id s (mark supplier external status s)
unfolding mark
mark-KeepsJob id supplier external status s h = h

ruleset job_rules =
    (step_rules, KeepsJob-Preorder, Steps-if, mark-KeepsJob, status-KeepsJob, payload-KeepsJob)

fail_product-Steps :
    (id : ℕ) (a : Attempt) (supplier external : ℕ) (c : Counts)
    → Steps (KeepsJob id) (fail_product a supplier external c)
unfolding fail_product
fail_product-Steps id a supplier external c = search job_rules

import_found-Steps :
    (id : ℕ) (a : Attempt) (supplier external : ℕ) (c : Counts)
    → Steps (KeepsJob id) (import_found a supplier external c)
unfolding import_found
import_found-Steps id a supplier external c = search (job_rules, fail_product-Steps)

sync_product-Steps :
    (id : ℕ) (a : Attempt) (supplier external : ℕ) (c : Counts) (answer : Answer)
    → Steps (KeepsJob id) (sync_product a supplier external c answer)
unfolding sync_product
sync_product-Steps id a supplier external c Answer.threw =
    fail_product-Steps id a supplier external c
sync_product-Steps id a supplier external c Answer.missing =
    fail_product-Steps id a supplier external c
sync_product-Steps id a supplier external c Answer.found =
    search (job_rules, fail_product-Steps, import_found-Steps)

pub sync_products-Steps :
    (id : ℕ) (a : Attempt) (supplier : ℕ) (externals : List ℕ) (c : Counts)
    → Steps (KeepsJob id) (sync_products a supplier externals c)
unfolding sync_products
sync_products-Steps id a supplier [] c = Steps-pure (KeepsJob-Preorder id) c
sync_products-Steps id a supplier (external ∷ externals) c =
    Steps-bind (KeepsJob-Preorder id) _ _
      (sync_product-Steps id a supplier external c (a.get_product external))
      λ c'. sync_products-Steps id a supplier externals c'
