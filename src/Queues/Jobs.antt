-- ===== src/Queues/Jobs.antt =====
-- src/modules/system/job.service.ts: the rows of the jobs. An error of the database is logged and
-- swallowed: the caller does not learn that the row was not written.
use all_in_one_v2_api.Base.{
  ℕ, Bool, true, false, ◌||◌, Option, none, List, [], ◌∷◌, any, same, Enum, Table, update,
  if◌then◌else◌,
}

pub data JobStatus : Type 0 where
  pending processing completed failed paused cancelled : JobStatus

instance abbrev pub job_status : Enum JobStatus
job_status = record {
  place = elim [
    | JobStatus.pending ↦ 0
    | JobStatus.processing ↦ 1
    | JobStatus.completed ↦ 2
    | JobStatus.failed ↦ 3
    | JobStatus.paused ↦ 4
    | JobStatus.cancelled ↦ 5
  ];
}

-- what the services keep in `payload`
pub record JobPayload : Type 0 where
  pub success_count : Option ℕ
  pub fail_count : Option ℕ
  pub error : Bool
  pub last_error : Bool
  pub attempts : Option ℕ

pub record Job : Type 0 where
  pub status : JobStatus
  pub payload : JobPayload
  pub error : Bool
  pub started : Bool  -- startedAt is set
  pub completed : Bool  -- completedAt is set

abbrev pub terminal_states : List JobStatus
terminal_states = JobStatus.completed ∷ JobStatus.failed ∷ JobStatus.cancelled ∷ []

-- `['COMPLETED', 'FAILED', 'CANCELLED'].includes(status)`
abbrev pub is_terminal_state : JobStatus → Bool
is_terminal_state status = any (same status) terminal_states

abbrev pub no_payload : JobPayload
no_payload = record {
  success_count = none;
  fail_count = none;
  error = false;
  last_error = false;
  attempts = none;
}

-- the row that createJob makes
abbrev pub new_job : Job
new_job = record {
  status = JobStatus.pending;
  payload = no_payload;
  error = false;
  started = false;
  completed = false;
}

-- updateData
abbrev pub with_status : JobStatus → Bool → Job → Job
with_status status with_error j = record j {
  status = status;
  started = j.started || same status JobStatus.processing;
  completed = j.completed || is_terminal_state status;
  payload = if with_error then record j.payload { error = true } else j.payload;
  error = j.error || with_error;
}

-- the update, which leaves a settled job alone
abbrev pub moved : JobStatus → Bool → Job → Job
moved status with_error j =
    if is_terminal_state j.status then j else with_status status with_error j

-- updateJobStatus; `up` tells whether the database answers
unfoldable pub update_job_status : Bool → ℕ → JobStatus → Bool → Table Job → Table Job
update_job_status up id status with_error t =
    if up then update id (moved status with_error) t else t

abbrev pub with_payload : (JobPayload → JobPayload) → Job → Job
with_payload f j = record j { payload = f j.payload }

-- updateJobPayload, on the entries that the caller gives
unfoldable pub update_job_payload : Bool → ℕ → (JobPayload → JobPayload) → Table Job → Table Job
update_job_payload up id f t = if up then update id (with_payload f) t else t
