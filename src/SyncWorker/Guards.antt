-- ===== src/SyncWorker/Guards.antt =====
-- What the guards of execute_sync_job and a failed token refresh leave, and how it is shown.
use mailfallback.Prelude.{
  ℕ, Bool, true, false, not, ◌&&◌, Option, none, some, any, is_none, is_some, if◌then◌else◌, ◌≡◌,
  ◌⊎◌, arith,
}
use mailfallback.Prelude.Text.{Text, text_eq, option_text_eq, option_text_eq_refl}
use mailfallback.Constants.{token_refresh_failed}
use mailfallback.Models.{Account, User, SyncState, JobStatus, is_authenticated, is_oauth2}
use mailfallback.SyncWorker.Preflight.{World, Refresh, preflight, check_host, authenticate}
use mailfallback.SyncWorker.Agreement.{after}
use mailfallback.MailboxStatus.Kinds.{Tone, MailboxState}
use mailfallback.MailboxStatus.Facts.{Cron, Facts, facts}
use mailfallback.MailboxStatus.Resolve.{resolve_mailbox_status, ladder, make, sign_in_verdict}
use mailfallback.MailboxStatus.Outcome.{
  resolve_job_outcome, status_outcome, failure_outcome, is_blocked_log,
}

-- A run starts exactly when the account is not suspended, is signed in and not migrating, none of
-- its owners is migrating and the host is not refused; it then has a running job and a syncing
-- account. Otherwise the job is closed as failed, and the account keeps its sync state, or gets
-- `error` where the host alone is at fault.
pub preflight_passes :
    (host_error : Option Text) (now : ℕ) (w : World)
    → ((preflight host_error now w).1 ≡ (
        not w.account.suspended
        && is_authenticated w.account
        && not w.account.migrating
        && not (any (λ (o : User). o.migrating) w.account.owners)
        && is_none host_error))
      × ((preflight host_error now w).0.job.status
          ≡ (if (preflight host_error now w).1 then JobStatus.running else JobStatus.failed))
      × ((preflight host_error now w).0.account.sync_state ≡ (
          if (preflight host_error now w).1
          then SyncState.syncing
          else if is_some host_error && (preflight none now w).1
          then SyncState.error
          else w.account.sync_state))
unfolding preflight check_host
preflight_passes none now w = ground arith
preflight_passes (some message) now w = ground arith

-- A job with no failure kind and no signal that is refused while the host is not at fault leaves
-- the account as it is, and is shown as a muted run, which asks for no attention.
pub preflight_skipped :
    (now : ℕ) (w : World)
    → w.job.failure_kind ≡ none
    → w.job.signal ≡ none
    → (preflight none now w).1 ≡ false
    → ((preflight none now w).0.account ≡ w.account)
      × ((resolve_job_outcome (preflight none now w).0.job).tone ≡ Tone.muted)
unfolding preflight check_host resolve_job_outcome status_outcome failure_outcome is_blocked_log
    option_text_eq text_eq
preflight_skipped now w kind signal h = ground (arith, kind, signal)

-- The rows after a failed refresh.
record SignedOut (w : World) : Type 0 where
  status : w.job.status ≡ JobStatus.failed
  kind : w.job.failure_kind ≡ none
  signal : w.job.signal ≡ none
  log : w.job.log ≡ some token_refresh_failed
  oauth : is_oauth2 w.account.auth_type ≡ true
  state : (w.account.sync_state ≡ SyncState.needs_reauth) ⊎ (w.account.sync_state ≡ SyncState.error)
  message : w.account.last_error ≡ some token_refresh_failed
  reason : w.account.pause_reason ≡ none
  migrating : w.account.migrating ≡ false
  suspended : w.account.suspended ≡ false

authenticate-SignedOut :
    (refresh : Refresh) (now : ℕ) (w : World)
    → w.job.failure_kind ≡ none
    → w.job.signal ≡ none
    → w.account.migrating ≡ false
    → w.account.suspended ≡ false
    → (authenticate refresh now w).1 ≡ false
    → SignedOut (authenticate refresh now w).0
unfolding authenticate
authenticate-SignedOut refresh now w kind signal migrating suspended h = record {
  status = ground (arith, h);
  kind = ground (arith, h, kind);
  signal = ground (arith, h, signal);
  log = ground (arith, h);
  oauth = ground (arith, h);
  state = ground (arith, h);
  message = ground (arith, h);
  reason = ground (arith, h);
  migrating = ground (arith, h, migrating);
  suspended = ground (arith, h, suspended);
}

SignedOut-facts :
    (cron : Cron) (w : World) (live_progress : Bool) (later : ℕ)
    → SignedOut w
    → (facts cron w.account (after w live_progress later)).signed_in ≡ false
unfolding facts
SignedOut-facts cron w live_progress later out =
    let message : option_text_eq w.account.last_error (some token_refresh_failed) ≡ true =
      rw out.message (option_text_eq_refl (some token_refresh_failed)) in
    ground (arith, out.state, out.oauth, message)

SignedOut-ladder :
    (a : Account) (f : Facts) (later : ℕ)
    → a.suspended ≡ false
    → a.migrating ≡ false
    → f.signed_in ≡ false
    → (ladder a f false later).state ≡ MailboxState.sign_in_needed
unfolding ladder sign_in_verdict
SignedOut-ladder a f later suspended migrating out = ground arith

SignedOut-outcome : (w : World) → SignedOut w → (resolve_job_outcome w.job).tone ≡ Tone.attention
unfolding resolve_job_outcome status_outcome failure_outcome is_blocked_log option_text_eq text_eq
SignedOut-outcome w out = ground (arith, out.status, out.kind, out.signal, out.log)

-- When the token of a mailbox cannot be refreshed, whether for good or for now, for a job with no
-- failure kind and no signal, the run asks for attention and the mailbox, which is not suspended
-- while neither it nor an owner is migrating, is shown as signed out; no pause reason is left.
pub authenticate_agrees :
    (cron : Cron) (refresh : Refresh) (now : ℕ) (w : World) (live_progress : Bool) (later : ℕ)
    → w.job.failure_kind ≡ none
    → w.job.signal ≡ none
    → w.account.migrating ≡ false
    → w.account.suspended ≡ false
    → (authenticate refresh now w).1 ≡ false
    → ((resolve_mailbox_status cron
          (authenticate refresh now w).0.account
          (after (authenticate refresh now w).0 live_progress later)).state
        ≡ MailboxState.sign_in_needed)
      × ((resolve_job_outcome (authenticate refresh now w).0.job).tone ≡ Tone.attention)
      × ((authenticate refresh now w).0.account.pause_reason ≡ none)
unfolding resolve_mailbox_status make
authenticate_agrees cron refresh now w live_progress later kind signal migrating suspended h =
    let out = authenticate-SignedOut refresh now w kind signal migrating suspended h in
    let v = (authenticate refresh now w).0 in
    (
      SignedOut-ladder v.account (facts cron v.account (after v live_progress later)) later
          out.suspended out.migrating (SignedOut-facts cron v live_progress later out),
      SignedOut-outcome v out,
      out.reason,
    )
