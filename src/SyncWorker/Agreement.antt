-- ===== src/SyncWorker/Agreement.antt =====
-- The mailbox status and the job outcome of mailbox_status.py, after the worker has ended a run.
use mailfallback.Prelude.{
  ℕ, Bool, true, false, not, ◌&&◌, Option, none, some, ◌≡◌, ◌↔◌, refl, arith, last, if◌then◌else◌,
  ◌∙◌,
}
use mailfallback.Prelude.Int.{is_zero}
use mailfallback.Prelude.Text.{Text, text_eq, option_text_eq, option_text_eq_refl}
use mailfallback.Constants.{token_refresh_failed}
use mailfallback.SyncBudget.{next_budget_resume}
use mailfallback.SyncFailures.{Failure, classify_failure}
use mailfallback.SyncFailures
use mailfallback.Models.{Account, is_authenticated, truthy}
use mailfallback.SyncWorker.Pause.{PauseKind, budget_paused, throttled, transient}
use mailfallback.SyncWorker.Preflight.{World}
use mailfallback.SyncWorker.Finish.{
  Run, record_run, complete, pause, hit_cap, user_stop, real_error, by_failure, by_signal, ending,
  finish,
}
use mailfallback.SyncWorker.Closing.{
  Red, Quiet, Stopped, Ended, red, quiet, stopped, IsFresh, finish-Ended, is_red,
}
use mailfallback.MailboxStatus.Kinds.{MailboxState}
use mailfallback.MailboxStatus.Facts.{Cron, Inputs}
use mailfallback.MailboxStatus.Resolve.{resolve_mailbox_status}
use mailfallback.MailboxStatus.Outcome.{resolve_job_outcome}
use mailfallback.MailboxStatus.Tones.{resolve_mailbox_status_error_iff}

-- The columns that an ending leaves alone.
record Same (a b : Account) : Type 0 where
  auth : a.auth_type ≡ b.auth_type
  creds : a.credentials ≡ b.credentials
  suspended : a.suspended ≡ b.suspended
  migrating : a.migrating ≡ b.migrating

-- What every way to end satisfies, the ending satisfies.
module _ {ℓ} (P : World → Type ℓ) (r : Run) (w : World) where
  by_failure_rule :
      ((kind : PauseKind) (t : ℕ) → P (pause kind t w))
      → P (real_error w)
      → (f : Option Failure) → P (by_failure f r w)
  unfolding by_failure
  by_failure_rule p e none = e
  by_failure_rule p e (some SyncFailures.throttled) = p throttled _
  by_failure_rule p e (some SyncFailures.transient) = p transient _

  by_signal_rule :
      ((cap : Text) → P (hit_cap cap w))
      → P (user_stop w)
      → (cap : Option Text) → P (by_signal cap w)
  by_signal_rule h u none = u
  by_signal_rule h u (some cap) = h cap

  either : (b : Bool) (v w : World) → P v → P w → P (if b then v else w)
  either true v w p q = p
  either false v w p q = q

  ending_rule :
      P (complete r w)
      → ((kind : PauseKind) (t : ℕ) → P (pause kind t w))
      → ((cap : Text) → P (hit_cap cap w))
      → P (user_stop w)
      → P (real_error w)
      → P (ending r w)
  unfolding ending
  ending_rule c p h u e =
      either (is_zero r.result_code && not r.budget_stopped) (complete r w) _ c (
        either r.budget_stopped (pause budget_paused (next_budget_resume r.now r.jitter) w) _
          (p budget_paused _)
          (either (truthy r.job_signal) (by_signal r.deadline_cap w) _
            (by_signal_rule h u r.deadline_cap)
            (by_failure_rule p e
              (classify_failure (last 4096 r.result_output) w.account.provider))))

ending-Same : (r : Run) (w : World) → Same (ending r w).account w.account
ending-Same r w =
    ending_rule (λ v. Same v.account w.account) r w (unfold complete in ground arith)
      (λ kind t. unfold pause in ground arith) (λ cap. unfold hit_cap in ground arith)
      (unfold user_stop in ground arith) (unfold real_error in ground arith)

finish-Same : (r : Run) (w : World) → Same (finish r w).account w.account
unfolding finish
finish-Same r w = ground (arith, ending-Same r (record w { job = record_run r w.job }))

authenticated-Same :
    {a b : Account} → Same a b → is_authenticated b ≡ true → is_authenticated a ≡ true
unfolding is_authenticated
authenticated-Same s h = ground (arith, s.auth, s.creds)

-- How a surface that has just loaded the ended job reads the mailbox.
abbrev pub after : World → Bool → ℕ → Inputs
after w live_progress now = record {
  last_job = some w.job;
  live_progress = live_progress;
  owner_migrating = false;
  now = now;
}

module _ (cron : Cron) (w : World) (live_progress : Bool) (now : ℕ) where
  abbrev shown : MailboxState
  shown = (resolve_mailbox_status cron w.account (after w live_progress now)).state

  Red-signed_in :
      Red w
      → is_authenticated w.account ≡ true
      → (resolve_mailbox_status cron w.account (after w live_progress now)).signed_in ≡ true
  unfolding resolve_mailbox_status
  Red-signed_in h auth = ground (arith, h.state, h.message)

  Red-state :
      Red w
      → is_authenticated w.account ≡ true
      → w.account.migrating ≡ false
      → w.account.suspended ≡ false
      → shown ≡ MailboxState.error
  Red-state h auth migrating suspended =
      (resolve_mailbox_status_error_iff cron w.account (after w live_progress now)).1 (
        migrating,
        refl,
        suspended,
        Red-signed_in h auth,
        h.state,
        ground (arith, h.reason),
        ground (arith, h.kind),
      )

  Quiet-state : Quiet w → shown ≡ MailboxState.error → ⊥
  Quiet-state h e =
      let known =
        (resolve_mailbox_status_error_iff cron w.account (after w live_progress now)).0 e in
      cc (known.4, h.state)

  Stopped-state : Stopped w → shown ≡ MailboxState.error → ⊥
  Stopped-state h e =
      let known =
        (resolve_mailbox_status_error_iff cron w.account (after w live_progress now)).0 e in
      let same : option_text_eq w.account.last_error w.job.log ≡ true =
        rw h.message (option_text_eq_refl w.job.log) in
      ground (arith, known.6, h.status, h.signal, h.kind, same)

  Red-outcome : Red w → is_red (resolve_job_outcome w.job).tone ≡ true
  unfolding resolve_job_outcome text_eq
  Red-outcome h = ground (arith, h.status, h.kind)

  Stopped-outcome : Stopped w → is_red (resolve_job_outcome w.job).tone ≡ false
  unfolding resolve_job_outcome
  Stopped-outcome h = ground (arith, h.status, h.kind, h.signal)

  agree_of_Ended :
      Ended w
      → is_authenticated w.account ≡ true
      → w.account.migrating ≡ false
      → w.account.suspended ≡ false
      → (shown ≡ MailboxState.error) ↔ (is_red (resolve_job_outcome w.job).tone ≡ true)
  agree_of_Ended (red h) a m s = (λ _. Red-outcome h, λ _. Red-state h a m s)
  agree_of_Ended (quiet h) a m s = (λ e. absurd (Quiet-state h e), λ e. cc (e, h.calm))
  agree_of_Ended (stopped h) a m s =
      (λ e. absurd (Stopped-state h e), λ e. cc (e, Stopped-outcome h))

-- The end of a run of a job that is running and has no failure kind yet, for a mailbox that is
-- signed in and not suspended while neither it nor an owner is migrating, leaves rows on which the
-- two surfaces agree: the mailbox is shown in error exactly when the run is shown as failed,
-- whatever the exit code, the markers and the output (short of an output that is itself the
-- worker's token message), the schedule, and the time at which they are looked at.
pub finish_surfaces_agree :
    (cron : Cron) (r : Run) (w : World) (live_progress : Bool) (now : ℕ)
    → IsFresh w
    → text_eq r.result_output token_refresh_failed ≡ false
    → is_authenticated w.account ≡ true
    → w.account.migrating ≡ false
    → w.account.suspended ≡ false
    → ((resolve_mailbox_status cron
          (finish r w).account
          (after (finish r w) live_progress now)).state
        ≡ MailboxState.error)
      ↔ (is_red (resolve_job_outcome (finish r w).job).tone ≡ true)
finish_surfaces_agree cron r w live_progress now fresh output auth migrating suspended =
    let same = finish-Same r w in
    agree_of_Ended cron (finish r w) live_progress now (finish-Ended r w fresh output)
      (authenticated-Same same auth) (same.migrating ∙ migrating) (same.suspended ∙ suspended)
