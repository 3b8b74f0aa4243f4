-- ===== src/SyncWorker/Invocations/Completed.antt =====
-- What a completed job says about the mbsync processes that it started.
use mailfallback.Prelude.{
  ℕ, ◌+◌, Bool, true, false, Option, none, some, List, length, last, ◌≡◌, ◌≢◌, ◌⊎◌, arith,
}
use mailfallback.Prelude.Int.{is_zero}
use mailfallback.Prelude.Text.{Text}
use mailfallback.Models.{JobStatus, is_running}
use mailfallback.SyncBudget.{next_budget_resume}
use mailfallback.SyncFailures.{Failure, throttled, transient, classify_failure}
use mailfallback.SyncWorker.Preflight.{World}
use mailfallback.SyncWorker.Pause.{PauseKind, budget_paused, pause_job}
use mailfallback.SyncWorker.Finish.{
  Run, finish, record_run, ending, pause, by_failure, by_signal, hit_cap, user_stop, real_error,
}
use mailfallback.SyncWorker.Invocations.{
  Session, Launcher, Survey, run_invocations, run_sync, run_of,
}
use mailfallback.SyncWorker.Invocations.Rounds.{run_sync_all}

by_failure_uncompleted :
    (f : Option Failure) (r : Run) (w : World) → (by_failure f r w).job.status ≢ JobStatus.completed
unfolding by_failure pause real_error pause_job
by_failure_uncompleted none r w h = cc
by_failure_uncompleted (some throttled) r w h = cc
by_failure_uncompleted (some transient) r w h = cc

by_signal_uncompleted :
    (cap : Option Text) (w : World) → (by_signal cap w).job.status ≢ JobStatus.completed
unfolding hit_cap user_stop
by_signal_uncompleted none w h = cc
by_signal_uncompleted (some cap) w h = cc

pause_uncompleted :
    (kind : PauseKind) (at : ℕ) (w : World) → (pause kind at w).job.status ≢ JobStatus.completed
unfolding pause pause_job
pause_uncompleted kind at w h = cc

ending_completed :
    (r : Run) (w : World)
    → (ending r w).job.status ≡ JobStatus.completed
    → (is_zero r.result_code ≡ true) × (r.budget_stopped ≡ false)
unfolding ending
ending_completed r w h = ground (
  arith,
  h,
  pause_uncompleted budget_paused (next_budget_resume r.now r.jitter) w,
  by_signal_uncompleted r.deadline_cap w,
  by_failure_uncompleted (classify_failure (last 4096 r.result_output) w.account.provider) r w,
)

finish_completed :
    (r : Run) (w : World)
    → is_running w.job.status ≡ true
    → (finish r w).job.status ≡ JobStatus.completed
    → (is_zero r.result_code ≡ true) × (r.budget_stopped ≡ false)
unfolding finish
finish_completed r w running h =
    ground (arith, running, h, ending_completed r (record w { job = record_run r w.job }))

-- A running job that ends as completed has run its whole list of invocations in its last round: the
-- processes started are those of one full round, or those of the first round and a full second one.
pub run_sync_completed :
    (matches : Text → Text → Bool) (launch : Launcher) (v : Survey) (provider : Text)
    (invocations : List (List Text)) (s : Session) (flush_tripped : Bool) (r : Run) (w : World)
    → is_running w.job.status ≡ true
    → (finish
        (run_of flush_tripped (run_sync matches launch v provider invocations s) r)
        w).job.status
      ≡ JobStatus.completed
    → ((run_sync matches launch v provider invocations s).session.started
        ≡ s.started + length invocations)
      ⊎ ((run_sync matches launch v provider invocations s).session.started
          ≡ (run_invocations launch invocations s).session.started + length invocations)
unfolding run_of
run_sync_completed matches launch v provider invocations s flush_tripped r w running h =
    let ended =
      finish_completed (run_of flush_tripped (run_sync matches launch v provider invocations s) r) w
        running h in
    run_sync_all matches launch v provider invocations s ended.0 (ground (arith, ended.1))
