-- ===== src/SyncWorker/Closing.antt =====
-- What the end of a run leaves behind, and that the two places that show it agree.
use mailfallback.Prelude.{
  ℕ, Bool, true, false, not, ◌&&◌, Option, none, some, ◌≡◌, refl, arith, is_none, last,
  if◌then◌else◌,
}
use mailfallback.Prelude.Int.{is_zero}
use mailfallback.Prelude.Text.{Text, codes, text_eq, option_text_eq}
use mailfallback.Constants.{token_refresh_failed}
use mailfallback.Models.{SyncState, JobStatus, is_live, is_running, truthy}
use mailfallback.SyncBudget.{next_budget_resume}
use mailfallback.SyncFailures.{Failure, classify_failure}
use mailfallback.SyncFailures
use mailfallback.SyncWorker.Pause.{PauseKind, budget_paused, throttled, transient}
use mailfallback.SyncWorker.Preflight.{World}
use mailfallback.SyncWorker.Finish.{
  Run, record_run, complete, pause, hit_cap, user_stop, real_error, by_failure, by_signal, ending,
  finish,
}
use mailfallback.MailboxStatus.Kinds.{Tone}
use mailfallback.MailboxStatus.Outcome.{resolve_job_outcome}

abbrev pub is_red : Tone → Bool
is_red Tone.error = true
is_red _ = false

-- A real failure: the account is in error and not paused.
pub record Red (w : World) : Type 0 where
  pub status : w.job.status ≡ JobStatus.failed
  pub kind : w.job.failure_kind ≡ some (codes "error")
  pub state : w.account.sync_state ≡ SyncState.error
  pub reason : w.account.pause_reason ≡ none
  pub until : w.account.sync_paused_until ≡ none
  pub message : option_text_eq w.account.last_error (some token_refresh_failed) ≡ false

-- A success or a pause: the account is idle, without an error.
pub record Quiet (w : World) : Type 0 where
  pub calm : is_red (resolve_job_outcome w.job).tone ≡ false
  pub over : is_live w.job.status ≡ false
  pub state : w.account.sync_state ≡ SyncState.idle
  pub message : w.account.last_error ≡ none
  pub columns : is_none w.account.sync_paused_until ≡ is_none w.account.pause_reason

-- A stop by a person.
pub record Stopped (w : World) : Type 0 where
  pub status : w.job.status ≡ JobStatus.failed
  pub kind : w.job.failure_kind ≡ none
  pub signal : truthy w.job.signal ≡ true
  pub state : w.account.sync_state ≡ SyncState.error
  pub reason : w.account.pause_reason ≡ none
  pub until : w.account.sync_paused_until ≡ none
  pub message : w.account.last_error ≡ w.job.log

pub data Ended (w : World) : Type 0 where
  red : Red w → Ended w
  quiet : Quiet w → Ended w
  stopped : Stopped w → Ended w

complete-Quiet : (r : Run) (w : World) → Quiet (complete r w)
unfolding complete resolve_job_outcome
complete-Quiet r w = ground arith

pause-Quiet : (kind : PauseKind) (t : ℕ) (w : World) → Quiet (pause kind t w)
unfolding pause resolve_job_outcome text_eq
pause-Quiet budget_paused t w = ground arith
pause-Quiet throttled t w = ground arith
pause-Quiet transient t w = ground arith

hit_cap-Red : (cap : Text) (w : World) → Red (hit_cap cap w)
unfolding hit_cap text_eq option_text_eq
hit_cap-Red cap w = ground arith

real_error-Red :
    (w : World) → option_text_eq w.job.log (some token_refresh_failed) ≡ false → Red (real_error w)
unfolding real_error
real_error-Red w h = ground arith

user_stop-Stopped :
    (w : World) → w.job.failure_kind ≡ none → truthy w.job.signal ≡ true → Stopped (user_stop w)
unfolding user_stop
user_stop-Stopped w k h = ground arith

by_failure-Ended :
    (f : Option Failure) (r : Run) (w : World)
    → option_text_eq w.job.log (some token_refresh_failed) ≡ false
    → Ended (by_failure f r w)
unfolding by_failure
by_failure-Ended none r w h = red (real_error-Red w h)
by_failure-Ended (some SyncFailures.throttled) r w h = quiet (pause-Quiet throttled _ w)
by_failure-Ended (some SyncFailures.transient) r w h = quiet (pause-Quiet transient _ w)

by_signal-Ended :
    (cap : Option Text) (w : World)
    → w.job.failure_kind ≡ none
    → truthy w.job.signal ≡ true
    → Ended (by_signal cap w)
by_signal-Ended none w k h = stopped (user_stop-Stopped w k h)
by_signal-Ended (some cap) w k h = red (hit_cap-Red cap w)

Ended-if :
    (b : Bool) (v w : World)
    → (b ≡ true → Ended v)
    → (b ≡ false → Ended w)
    → Ended (if b then v else w)
Ended-if true v w h k = h refl
Ended-if false v w h k = k refl

ending-Ended :
    (r : Run) (w : World)
    → w.job.failure_kind ≡ none
    → (truthy r.job_signal ≡ true → truthy w.job.signal ≡ true)
    → option_text_eq w.job.log (some token_refresh_failed) ≡ false
    → Ended (ending r w)
unfolding ending
ending-Ended r w k signal log =
    Ended-if (is_zero r.result_code && not r.budget_stopped) (complete r w) _
      (λ _. quiet (complete-Quiet r w))
      λ _.
        Ended-if r.budget_stopped (pause budget_paused (next_budget_resume r.now r.jitter) w) _
          (λ _. quiet (pause-Quiet budget_paused _ w))
          λ _.
            Ended-if (truthy r.job_signal) (by_signal r.deadline_cap w) _
              (λ t. by_signal-Ended r.deadline_cap w k (signal t))
              λ _.
                by_failure-Ended (classify_failure (last 4096 r.result_output) w.account.provider) r
                  w log

-- What is known of a job that has just been started.
pub record IsFresh (w : World) : Type 0 where
  pub running : w.job.status ≡ JobStatus.running
  pub unclassified : w.job.failure_kind ≡ none

run_kind :
    (r : Run) (w : World) → w.job.failure_kind ≡ none → (record_run r w.job).failure_kind ≡ none
unfolding record_run
run_kind r w h = ground arith

run_signal :
    (r : Run) (w : World) → truthy r.job_signal ≡ true → truthy (record_run r w.job).signal ≡ true
unfolding record_run
run_signal r w h = ground arith

run_log :
    (r : Run) (w : World)
    → text_eq r.result_output token_refresh_failed ≡ false
    → option_text_eq (record_run r w.job).log (some token_refresh_failed) ≡ false
unfolding record_run option_text_eq
run_log r w h = ground arith

pub finish-Ended :
    (r : Run) (w : World)
    → IsFresh w
    → text_eq r.result_output token_refresh_failed ≡ false
    → Ended (finish r w)
unfolding finish
finish-Ended r w fresh output =
    Ended-if (is_running w.job.status) (ending r (record w { job = record_run r w.job })) w
      (λ _.
        ending-Ended r (record w { job = record_run r w.job }) (run_kind r w fresh.unclassified)
          (run_signal r w) (run_log r w output))
      (λ stale. cc (fresh.running, stale))
