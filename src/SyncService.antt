-- ===== src/SyncService.antt =====
-- src/mailfallback/services/sync_service.py: the table of sync jobs, in insertion order. The new
-- row's id is an argument, for `uuid.uuid4`.
pub mod OneLive
pub mod Cleanup
pub mod Locks
mod Tests
use mailfallback.Prelude.{
  ℕ, suc, Bool, true, false, ◌&&◌, Option, none, some, List, [], ◌∷◌, ◌++◌, any, keep, length, drop,
  take, leb, if◌then◌else◌, not,
}
use mailfallback.Prelude.Text.{Text, text_eq}
use mailfallback.Models.{SyncJob, JobStatus, is_live}

-- `SyncJob(account_id=…, source=…)`, with the defaults of its columns.
unfoldable pub new_job : Text → Text → Text → ℕ → SyncJob
new_job id account_id source now = record {
  id = id;
  account_id = account_id;
  status = JobStatus.pending;
  source = source;
  requested_at = now;
  started_at = none;
  completed_at = none;
  exit_code = none;
  log = none;
  mbsync_version = none;
  signal = none;
  failure_kind = none;
}

-- A pending or running job of the account.
abbrev pub is_live_of : Text → SyncJob → Bool
is_live_of account_id job = text_eq job.account_id account_id && is_live job.status

-- The table after the call, and the job that was created, if none was live.
unfoldable pub create_sync_job :
    Text → Text → Text → ℕ → List SyncJob → List SyncJob × Option SyncJob
unfolding new_job
create_sync_job id account_id source now jobs =
    if any (is_live_of account_id) jobs
    then (jobs, none)
    else let job = new_job id account_id source now in (jobs ++ job ∷ [], some job)

unfoldable pub get_job : Text → List SyncJob → Option SyncJob
get_job id [] = none
get_job id (job ∷ jobs) = if text_eq job.id id then some job else get_job id jobs

-- `order_by(requested_at.desc())`: insertion before the first older row.
unfoldable pub insert_desc : SyncJob → List SyncJob → List SyncJob
insert_desc job [] = job ∷ []
insert_desc job (k ∷ ks) =
    if leb k.requested_at job.requested_at then job ∷ k ∷ ks else k ∷ insert_desc job ks

unfoldable pub newest_first : List SyncJob → List SyncJob
unfolding insert_desc
newest_first [] = []
newest_first (job ∷ jobs) = insert_desc job (newest_first jobs)

abbrev pub is_of : Text → SyncJob → Bool
is_of account_id job = text_eq job.account_id account_id

-- `list_jobs_for_account`, with its limit.
unfoldable pub list_jobs_for_account : Text → ℕ → List SyncJob → List SyncJob
unfolding newest_first
list_jobs_for_account account_id limit jobs =
    take limit (newest_first (keep (is_of account_id) jobs))

-- `SyncJob.id.in_(ids)`.
unfoldable pub has_id : List SyncJob → Text → Bool
has_id [] id = false
has_id (job ∷ jobs) id = if text_eq job.id id then true else has_id jobs id

-- The rows past the newest `limit` are deleted by id; the count is of the rows found.
unfoldable pub cleanup_old_jobs : Text → ℕ → List SyncJob → List SyncJob × ℕ
unfolding newest_first has_id
cleanup_old_jobs account_id limit jobs =
    let old = drop limit (newest_first (keep (is_of account_id) jobs)) in
    (keep (λ (job : SyncJob). not (has_id old job.id)) jobs, length old)
