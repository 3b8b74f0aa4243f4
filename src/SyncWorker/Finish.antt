-- ===== src/SyncWorker/Finish.antt =====
-- The end of execute_sync_job in sync_worker.py: what is written once mbsync has stopped. The
-- statistics, the index and the clean-up of old jobs that follow a success never raise and touch no
-- row modelled here. All calls of `datetime.now` in one ending are one instant.

use mailfallback.Prelude.{
  ℕ, Bool, not, ◌&&◌, Option, none, some, List, [], ◌∷◌, ◌++◌, last, if◌then◌else◌,
}
use mailfallback.Prelude.Int.{ℤ, is_zero}
use mailfallback.Prelude.Text.{Text, codes, split_lines}
use mailfallback.Models.{Account, SyncJob, SyncState, JobStatus, is_running, truthy}
use mailfallback.NotificationService.{notify_account_problem, clear_notified_state}
use mailfallback.SyncBudget.{next_budget_resume, next_throttle_resume, next_transient_resume}
use mailfallback.SyncFailures.{Failure, classify_failure}
use mailfallback.SyncFailures
use mailfallback.SyncProgress.Parse.{parse_mbsync_lines}
use mailfallback.SyncWorker.Pause.{
  PauseKind, budget_paused, throttled, transient, pause_account, pause_job, attempt_today,
}
use mailfallback.SyncWorker.Preflight.{World}

-- How the run stopped: its result and output, the markers of the job, and what the ending reads
-- from outside. `cap_message` is the worker's own text, with the cap as `{deadline_cap:g}` prints it.
pub record Run : Type 0 where
  pub result_code : ℤ
  pub result_output : Text
  pub budget_stopped : Bool
  pub job_signal : Option Text
  pub deadline_cap : Option Text
  pub history : List SyncJob
  pub jitter : ℕ
  pub now : ℕ

abbrev pub cap_message : Text → Text
cap_message cap = codes "Sync exceeded the " ++ (cap ++ codes "s runtime cap")

-- `f"{job.log}\n{cap_msg}" if job.log else cap_msg`.
abbrev pub append_line : Option Text → Text → Text
append_line none line = line
append_line (some []) line = line
append_line (some (c ∷ s)) line = (c ∷ s) ++ 10 ∷ line

-- `if job_signal: job.signal = job_signal`.
abbrev set_signal : Option Text → SyncJob → SyncJob
set_signal signal job = if truthy signal then record job { signal = signal } else job

-- What every ending writes first.
unfoldable pub record_run : Run → SyncJob → SyncJob
record_run r job = set_signal r.job_signal (record job {
  exit_code = some r.result_code;
  log = some r.result_output;
  completed_at = some r.now;
  mbsync_version = (parse_mbsync_lines (split_lines r.result_output) none).mbsync_version;
})

abbrev problem : Text → SyncJob → Account → World → World
problem event_key job account w =
    let (account', keys) = notify_account_problem event_key account in
    record { job = job; account = account'; sent = w.sent ++ keys }

-- `initial_sync_completed` once, and `sync_completed` after it.
abbrev completion_events : Option ℕ → List Text
completion_events none = codes "initial_sync_completed" ∷ codes "sync_completed" ∷ []
completion_events (some t) = codes "sync_completed" ∷ []

abbrev first_completion : Option ℕ → ℕ → ℕ
first_completion none now = now
first_completion (some t) now = t

unfoldable pub complete : Run → World → World
complete r w = record {
  job = record w.job { status = JobStatus.completed };
  account = clear_notified_state (record w.account {
    sync_state = SyncState.idle;
    last_sync_at = some r.now;
    last_error = none;
    initial_sync_completed_at = some (first_completion w.account.initial_sync_completed_at r.now);
    sync_paused_until = none;
    pause_reason = none;
  });
  sent = w.sent ++ completion_events w.account.initial_sync_completed_at;
}

unfoldable pub pause : PauseKind → ℕ → World → World
unfolding pause_account pause_job notify_account_problem
pause kind resume_at w =
    problem (codes "sync_paused") (pause_job kind w.job) (pause_account kind resume_at w.account) w

-- A run with an error that the account keeps, and no pause.
abbrev failed_account : Option Text → Account → Account
failed_account message a = record a {
  sync_state = SyncState.error;
  last_error = message;
  sync_paused_until = none;
  pause_reason = none;
}

-- Killed by the runtime cap.
unfoldable pub hit_cap : Text → World → World
unfolding notify_account_problem
hit_cap cap w =
    problem (codes "sync_error")
      (record w.job {
        status = JobStatus.failed;
        failure_kind = some (codes "error");
        log = some (append_line w.job.log (cap_message cap));
      })
      (failed_account (some (cap_message cap)) w.account) w

-- Stopped by a person: nothing is sent.
unfoldable pub user_stop : World → World
user_stop w = record w {
  job = record w.job { status = JobStatus.failed };
  account = failed_account w.job.log w.account;
}

unfoldable pub real_error : World → World
unfolding notify_account_problem
real_error w =
    problem (codes "sync_error")
      (record w.job { status = JobStatus.failed; failure_kind = some (codes "error") })
      (failed_account w.job.log w.account) w

-- The `else` branch, after the tail was classified.
unfoldable pub by_failure : Option Failure → Run → World → World
unfolding pause real_error attempt_today
by_failure none r w = real_error w
by_failure (some SyncFailures.throttled) r w =
    let attempt = attempt_today r.history w.account.id throttled r.now in
    pause throttled (next_throttle_resume r.now attempt r.jitter) w
by_failure (some SyncFailures.transient) r w =
    let attempt = attempt_today r.history w.account.id transient r.now in
    pause transient (next_transient_resume r.now attempt r.jitter) w

-- `elif job_signal and deadline_cap is not None` and `elif job_signal`.
abbrev pub by_signal : Option Text → World → World
by_signal none w = user_stop w
by_signal (some cap) w = hit_cap cap w

-- The ladder, over the rows that `record_run` left.
unfoldable pub ending : Run → World → World
unfolding complete pause hit_cap user_stop by_failure
ending r w =
    if is_zero r.result_code && not r.budget_stopped
    then complete r w
    else if r.budget_stopped
    then pause budget_paused (next_budget_resume r.now r.jitter) w
    else if truthy r.job_signal
    then by_signal r.deadline_cap w
    else by_failure (classify_failure (last 4096 r.result_output) w.account.provider) r w

-- After `db.refresh(job)`: a job that another actor has closed is left as that actor wrote it.
unfoldable pub finish : Run → World → World
unfolding record_run ending
finish r w = if is_running w.job.status then ending r (record w { job = record_run r w.job }) else w

-- `except subprocess.TimeoutExpired` and `except Exception as e`: the message is fixed or `str(e)`.
unfoldable pub crash : Text → ℕ → World → World
unfolding notify_account_problem
crash message now w =
    problem (codes "sync_error")
      (record w.job {
        status = JobStatus.failed;
        log = some message;
        completed_at = some now;
        failure_kind = some (codes "error");
      })
      (record w.account { sync_state = SyncState.error; last_error = some message }) w

abbrev pub timeout_message : Text
timeout_message = codes "Sync timed out after 3600 seconds"
