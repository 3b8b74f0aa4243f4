-- ===== src/SyncWorker/Preflight.antt =====
-- The guards of execute_sync_job in sync_worker.py, and the start of the run: everything before
-- mbsync is started. `validate_host_not_internal` and the token refresh reach the network: their
-- results are arguments.
use mailfallback.Prelude.{
  ℕ, Bool, true, false, not, ◌&&◌, Option, none, some, List, ◌++◌, any, if◌then◌else◌,
}
use mailfallback.Prelude.Text.{Text, codes}
use mailfallback.Constants.{token_refresh_failed}
use mailfallback.Models.{
  Account, SyncJob, User, SyncState, JobStatus, is_authenticated, is_oauth2, truthy,
}
use mailfallback.NotificationService.{notify_account_problem}

-- The rows and what was sent, after a step.
pub record World : Type 0 where
  pub job : SyncJob
  pub account : Account
  pub sent : List Text

-- A job that never ran: failed, with its reason as the log.
abbrev pub blocked : Text → ℕ → World → World
blocked reason now w = record w {
  job = record w.job { status = JobStatus.failed; log = some reason; completed_at = some now };
}

-- The host guard also marks the account.
abbrev host_refused : Text → ℕ → World → World
host_refused message now w = record w {
  job = record w.job {
    status = JobStatus.failed;
    log = some (codes "Sync blocked: " ++ message);
    completed_at = some now;
  };
  account = record w.account { sync_state = SyncState.error; last_error = some message };
}

abbrev started : ℕ → World → World
started now w = record w {
  job = record w.job { status = JobStatus.running; started_at = some now };
  account = record w.account { sync_state = SyncState.syncing };
}

-- `validate_host_not_internal`: the message of its `ValueError`, or `none`.
unfoldable pub check_host : Option Text → ℕ → World → World × Bool
check_host none now w = (started now w, true)
check_host (some message) now w = (host_refused message now w, false)

-- The guards in order; `true` beside the rows of a run that goes on.
unfoldable pub preflight : Option Text → ℕ → World → World × Bool
unfolding check_host is_authenticated
preflight host_error now w =
    if w.account.suspended
    then (blocked (codes "Sync blocked: account is suspended") now w, false)
    else if not (is_authenticated w.account)
    then (blocked (codes "Sync blocked: account not authenticated") now w, false)
    else if w.account.migrating
    then (blocked (codes "Sync blocked: account migration in progress") now w, false)
    else if any (λ (o : User). o.migrating) w.account.owners
    then (blocked (codes "Sync blocked: user migration in progress") now w, false)
    else check_host host_error now w

-- `_refresh_oauth_token`: `(access_token, terminal)`.
pub record Refresh : Type 0 where
  pub access_token : Option Text
  pub terminal : Bool

abbrev refresh_failed : Bool → ℕ → World → World
refresh_failed terminal now w =
    let job = record w.job {
      status = JobStatus.failed;
      log = some token_refresh_failed;
      completed_at = some now;
    } in
    let account = record w.account {
      sync_state = if terminal then SyncState.needs_reauth else SyncState.error;
      last_error = some token_refresh_failed;
      sync_paused_until = none;
      pause_reason = none;
    } in
    let (account', keys) =
      notify_account_problem (if terminal then codes "needs_reauth" else codes "sync_error")
        account in
    record { job = job; account = account'; sent = w.sent ++ keys }

-- The token refresh of an OAuth mailbox with credentials; every other mailbox goes on.
unfoldable pub authenticate : Refresh → ℕ → World → World × Bool
unfolding notify_account_problem
authenticate refresh now w =
    if truthy w.account.credentials
      && is_oauth2 w.account.auth_type
      && not (truthy refresh.access_token)
    then (refresh_failed refresh.terminal now w, false)
    else (w, true)
