-- ===== src/Scheduler/Tests.antt =====
-- The theorems on the scheduler, at one mailbox.
use mailfallback.Prelude.{ℕ, true, false, Option, none, some, List, [], ◌∷◌, any, ◌≡◌, refl, arith}
use mailfallback.Prelude.Text.{Text, codes, text_eq}
use mailfallback.Models.{Account, SyncJob, JobStatus, is_authenticated}
use mailfallback.Models.Examples.{mailbox}
use mailfallback.SyncBudget.{daily_budget_bytes}
use mailfallback.SyncService.{new_job, is_live_of}
use mailfallback.SyncWorker.Pause.{budget_headroom_today}
use mailfallback.SyncWorker.Recovery.{recover_zombie_sync_jobs}
use mailfallback.Scheduler.{Jobs, run_pause_expiry_tick, eligible}
use mailfallback.Scheduler.Resume.{run_pause_expiry_tick_resumes}
use mailfallback.Scheduler.Restart.{restart_resumes}
use mailfallback.Scheduler.Crons.{CronJob, get_cron, sync_scheduler_jobs, cron_id}
use mailfallback.Scheduler.Crons.Kept.{sync_scheduler_jobs_cleared, runs, reschedules}

abbrev first_sync : Account
first_sync = record mailbox {
  initial_sync_completed_at = none;
  daily_sync_budget_mb = some 0;
  sync_paused_until = some 90;
  pause_reason = some (codes "interrupted");
}

abbrev queued : Jobs
queued = record { jobs = []; queue = [] }

abbrev new_id : Text → Text
new_id account_id = codes "job-1"

eligible_lem : eligible first_sync ≡ true
unfolding eligible is_authenticated
eligible_lem = refl

headroom_lem : budget_headroom_today first_sync 100 ≡ true
unfolding budget_headroom_today daily_budget_bytes
headroom_lem = refl

run_pause_expiry_tick_resumes_example :
    any
      (is_live_of first_sync.id)
      (run_pause_expiry_tick new_id 100 (first_sync ∷ []) queued).1.jobs
    ≡ true
run_pause_expiry_tick_resumes_example =
    run_pause_expiry_tick_resumes new_id 100 (first_sync ∷ []) queued 0 first_sync refl refl refl
      eligible_lem

abbrev orphan : SyncJob
orphan = record (new_job (codes "job-0") (codes "a") (codes "scheduler") 10) {
  status = JobStatus.running;
}

orphan_live : any (is_live_of first_sync.id) (orphan ∷ []) ≡ true
unfolding new_job text_eq
orphan_live = refl

restart_resumes_example :
    (run_pause_expiry_tick new_id 160
      (recover_zombie_sync_jobs [] 100
        (record { jobs = orphan ∷ []; accounts = first_sync ∷ [] })).0.accounts
      (record {
        jobs =
            (recover_zombie_sync_jobs [] 100
              (record { jobs = orphan ∷ []; accounts = first_sync ∷ [] })).0.jobs;
        queue = [];
      })).1.queue
    ≡ new_id first_sync.id ∷ []
restart_resumes_example =
    restart_resumes new_id 100 160 (orphan ∷ []) first_sync orphan_live refl headroom_lem
      eligible_lem (omega arith)

abbrev hourly : List (CronJob ℕ)
hourly = record { id = cron_id (codes "a"); account_id = codes "a"; trigger = 60 } ∷ []

abbrev no_trigger : List Text → Option ℕ
no_trigger parts = none

abbrev suspended_mailbox : Account
suspended_mailbox = record mailbox { suspended = true }

suspended_ok : (sync_scheduler_jobs no_trigger (suspended_mailbox ∷ []) hourly).1 ≡ true
unfolding sync_scheduler_jobs
suspended_ok = refl

none_runs : any (runs (codes "a")) (suspended_mailbox ∷ []) ≡ false
unfolding text_eq
none_runs = refl

one_runs : any (runs (codes "a")) (mailbox ∷ []) ≡ true
unfolding text_eq
one_runs = refl

none_reschedules : any (reschedules (codes "a")) (mailbox ∷ []) ≡ false
unfolding text_eq
none_reschedules = refl

cleared_ok : (sync_scheduler_jobs no_trigger (mailbox ∷ []) hourly).1 ≡ true
unfolding sync_scheduler_jobs is_authenticated
cleared_ok = refl

sync_scheduler_jobs_cleared_example :
    get_cron (cron_id (codes "a")) (sync_scheduler_jobs no_trigger (mailbox ∷ []) hourly).0
    ≡ get_cron (cron_id (codes "a")) hourly
sync_scheduler_jobs_cleared_example =
    sync_scheduler_jobs_cleared no_trigger (mailbox ∷ []) hourly (codes "a") cleared_ok one_runs
      none_reschedules
