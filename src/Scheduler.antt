-- ===== src/Scheduler.antt =====
-- src/mailfallback/services/scheduler.py: the two ticks that create sync jobs, and the set of cron
-- jobs. A submitted job is its id in `queue`; the id of the job created for an account is an
-- argument.
pub mod Resume
pub mod Restart
pub mod Crons
mod Tests
use mailfallback.Prelude.{
  ℕ, Bool, true, false, not, ◌&&◌, ◌||◌, Option, none, some, List, [], ◌∷◌, ◌++◌, any, all, leb,
  ltb, is_none, if◌then◌else◌,
}
use mailfallback.Prelude.Text.{Text, codes, text_eq}
use mailfallback.Models.{Account, SyncJob, User, SyncState, is_authenticated, is_needs_reauth}
use mailfallback.SyncService.{create_sync_job}

-- The job table and the executor's queue.
pub record Jobs : Type 0 where
  pub jobs : List SyncJob
  pub queue : List Text

abbrev enqueue : Option SyncJob → List Text → List Text
enqueue none queue = queue
enqueue (some job) queue = queue ++ job.id ∷ []

-- `create_sync_job(…, source="scheduler")`, then `submit_sync_job` if it gave a job.
unfoldable pub start_job : Text → Text → ℕ → Jobs → Jobs
unfolding create_sync_job
start_job id account_id now s =
    let made = create_sync_job id account_id (codes "scheduler") now s.jobs in
    record { jobs = made.0; queue = enqueue made.1 s.queue }

abbrev pub owner_migrating : Account → Bool
owner_migrating a = any (λ (o : User). o.migrating) a.owners

-- A pause that is still ahead.
abbrev pub gated : ℕ → Option ℕ → Bool
gated now none = false
gated now (some t) = ltb now t

-- The checks of `_run_scheduled_sync`, in order.
unfoldable pub may_schedule : Account → ℕ → Bool
unfolding is_authenticated
may_schedule a now =
    if a.suspended
    then false
    else if not (is_authenticated a)
    then false
    else if a.migrating
    then false
    else if owner_migrating a
    then false
    else if is_needs_reauth a.sync_state
    then false
    else not (gated now a.sync_paused_until)

-- `_run_scheduled_sync`, with the row that the account's id selects.
unfoldable pub run_scheduled_sync : Text → Option Account → ℕ → Jobs → Jobs
unfolding may_schedule start_job
run_scheduled_sync id none now s = s
run_scheduled_sync id (some a) now s = if may_schedule a now then start_job id a.id now s else s

abbrev pub expired : ℕ → Option ℕ → Bool
expired now none = false
expired now (some t) = leb t now

unfoldable pub eligible : Account → Bool
unfolding is_authenticated
eligible a =
    not a.suspended
    && is_authenticated a
    && not (is_needs_reauth a.sync_state)
    && not a.migrating
    && all (λ (o : User). not o.migrating) a.owners

abbrev lift : Account → Account
lift a = record a { sync_paused_until = none; pause_reason = none }

-- One account of `_run_pause_expiry_tick`.
unfoldable pub expire_pause : (Text → Text) → ℕ → Account → Jobs → Account × Jobs
unfolding start_job eligible
expire_pause new_id now a s =
    if not (expired now a.sync_paused_until)
    then (a, s)
    else if is_none a.initial_sync_completed_at && eligible a
    then (lift a, start_job (new_id a.id) a.id now s)
    else (lift a, s)

unfoldable pub run_pause_expiry_tick : (Text → Text) → ℕ → List Account → Jobs → List Account × Jobs
unfolding expire_pause
run_pause_expiry_tick new_id now [] s = ([], s)
run_pause_expiry_tick new_id now (a ∷ accounts) s =
    let here = expire_pause new_id now a s in
    let rest = run_pause_expiry_tick new_id now accounts here.1 in (here.0 ∷ rest.0, rest.1)
