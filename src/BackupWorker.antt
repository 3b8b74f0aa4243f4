-- ===== src/BackupWorker.antt =====
-- src/mailfallback/services/backup_worker.py: the run of one backup, and its two recovery sweeps.
-- What restic answers is an argument.
pub mod Alerts
pub mod Recovered
mod Tests
use mailfallback.Prelude.{
  ℕ, suc, ◌+◌, Bool, true, false, not, ◌&&◌, ◌||◌, Option, none, some, List, [], ◌∷◌, ◌++◌, any,
  keep, ltb, leb, if◌then◌else◌, is_some,
}
use mailfallback.Prelude.Text.{Text, codes, text_eq, option_text_eq}
use mailfallback.Models.{
  Account, BackupJob, BackupPolicy, BackupStatus, JobStatus, is_failed, is_live, is_running, truthy,
}
use mailfallback.NotificationService.{notify_account_problem}
use mailfallback.SyncWorker.Finish.{append_line}

-- The rows that a run writes, and the keys of the alerts that it sends.
pub record BackupWorld : Type 0 where
  pub job : BackupJob
  pub policy : BackupPolicy
  pub account : Account
  pub sent : List Text

-- What restic made of the run: a snapshot with its numbers, or an exception, before which the
-- watchdog may have closed the job.
pub data Restic : Type 0 where
  snapshot : Option Text → ℕ → ℕ → Restic
  raises : Bool → Text → Restic

abbrev pub stalled : Text
stalled = codes "stalled"

abbrev pub interrupted : Text
interrupted = codes "interrupted"

abbrev pub backup_failed : Text
backup_failed = codes "backup_failed"

abbrev pub recovered_marker : Text
recovered_marker = codes "[recovered] container restarted mid-backup — closed as interrupted"

abbrev pub stalled_marker : Text
stalled_marker = codes "[reaped] no restic progress — closed as stalled"

abbrev pub is_policy_running : BackupStatus → Bool
is_policy_running BackupStatus.running = true
is_policy_running _ = false

-- `_close_job`: the row, and its policy while that is on running.
unfoldable pub close_row : Text → Text → ℕ → BackupJob → BackupJob
close_row failure_kind marker now job = record job {
  status = JobStatus.failed;
  failure_kind = some failure_kind;
  completed_at = some now;
  log = some (append_line job.log marker);
}

unfoldable pub heal_policy : Text → BackupPolicy → BackupPolicy
heal_policy marker policy =
    if is_policy_running policy.last_status
    then record policy { last_status = BackupStatus.failed; last_error = some marker }
    else policy

-- `BackupJob(…)`, with the defaults of its columns.
unfoldable pub new_backup_job : Text → BackupPolicy → Account → Text → ℕ → BackupJob
new_backup_job id policy account source now = record {
  id = id;
  policy_id = policy.id;
  account_id = account.id;
  status = JobStatus.running;
  source = source;
  requested_at = now;
  started_at = some now;
  completed_at = none;
  failure_kind = none;
  log = none;
  snapshot_id = none;
  bytes_processed = 0;
  bytes_added = 0;
}

unfoldable pub start_policy : ℕ → BackupPolicy → BackupPolicy
start_policy now policy = record policy {
  last_status = BackupStatus.running;
  last_error = none;
  last_run_at = some now;
}

-- The end of a run that made a snapshot: its own marker of a sent alert is taken back.
unfoldable pub succeed : ℕ → Option Text → ℕ → ℕ → BackupWorld → BackupWorld
unfolding option_text_eq
succeed now snapshot_id processed added w = record w {
  job = record w.job {
    status = JobStatus.completed;
    completed_at = some now;
    snapshot_id = snapshot_id;
    bytes_processed = processed;
    bytes_added = added;
  };
  policy = record w.policy {
    last_status = BackupStatus.completed;
    last_backup_at = some now;
    last_successful_run_at = some now;
    last_error = none;
  };
  account = record w.account {
    last_notified_state =
        if option_text_eq w.account.last_notified_state (some backup_failed)
        then none
        else w.account.last_notified_state;
  };
}

-- The job was closed by the watchdog, and says why.
abbrev pub is_closed : BackupJob → Bool
is_closed job = is_failed job.status && truthy job.failure_kind

-- The end of a run with an exception, before the alert.
unfoldable pub fail_rows : ℕ → Text → BackupWorld → BackupWorld
fail_rows now message w =
    let closed = is_closed w.job in
    record w {
      job = record w.job {
        status = JobStatus.failed;
        completed_at = if is_some w.job.completed_at then w.job.completed_at else some now;
        failure_kind = if closed then w.job.failure_kind else some (codes "error");
        log = some (if closed then append_line w.job.log message else message);
      };
      policy = record w.policy {
        last_status = BackupStatus.failed;
        last_error = if closed then w.policy.last_error else some message;
      };
    }

unfoldable pub alert : BackupWorld → BackupWorld
unfolding notify_account_problem
alert w =
    let (account, keys) = notify_account_problem backup_failed w.account in
    record w { account = account; sent = w.sent ++ keys }

-- The watchdog's part in a run that it reaps.
unfoldable pub reap : ℕ → BackupWorld → BackupWorld
unfolding close_row heal_policy
reap now w = record w {
  job = close_row stalled stalled_marker now w.job;
  policy = heal_policy stalled_marker w.policy;
}

unfoldable pub finish_backup : ℕ → Restic → BackupWorld → BackupWorld
unfolding succeed fail_rows alert reap
finish_backup now (Restic.snapshot id processed added) w = succeed now id processed added w
finish_backup now (Restic.raises reaped message) w =
    alert (fail_rows now message (if reaped then reap now w else w))

-- A run of a policy whose account is found; `later` is when restic is done.
unfoldable pub execute_backup : Text → Text → ℕ → ℕ → Restic → BackupPolicy → Account → BackupWorld
unfolding new_backup_job start_policy finish_backup
execute_backup id source now later restic policy account = finish_backup later restic (record {
  job = new_backup_job id policy account source now;
  policy = start_policy now policy;
  account = account;
  sent = [];
})

-- A policy whose account is gone.
unfoldable pub miss_account : BackupPolicy → BackupPolicy
miss_account policy = record policy {
  last_status = BackupStatus.failed;
  last_error = some (codes "Account not found");
}

pub record BackupTables : Type 0 where
  pub jobs : List BackupJob
  pub policies : List BackupPolicy

unfoldable pub update_policy :
    Text → (BackupPolicy → BackupPolicy) → List BackupPolicy → List BackupPolicy
update_policy id f [] = []
update_policy id f (p ∷ rest) =
    let others = update_policy id f rest in if text_eq p.id id then f p ∷ rest else p ∷ others

-- One pass over the rows that `closes` picks; the count is of the rows closed.
unfoldable pub sweep_backups :
    (BackupJob → Bool) → Text → Text → ℕ → List BackupJob → List BackupPolicy → BackupTables × ℕ
unfolding close_row update_policy heal_policy
sweep_backups closes failure_kind marker now [] policies =
    (record { jobs = []; policies = policies }, 0)
sweep_backups closes failure_kind marker now (job ∷ jobs) policies =
    let here =
      if closes job then update_policy job.policy_id (heal_policy marker) policies else policies in
    let (t, n) = sweep_backups closes failure_kind marker now jobs here in
    if closes job
    then (record t { jobs = close_row failure_kind marker now job ∷ t.jobs }, suc n)
    else (record t { jobs = job ∷ t.jobs }, n)

abbrev pub has_backup_process : List Text → BackupJob → Bool
has_backup_process procs job = any (text_eq job.id) procs

abbrev pub is_backup_zombie : List Text → BackupJob → Bool
is_backup_zombie procs job = is_live job.status && not (has_backup_process procs job)

unfoldable pub recover_zombie_backup_jobs : List Text → ℕ → BackupTables → BackupTables × ℕ
unfolding sweep_backups
recover_zombie_backup_jobs procs now t =
    sweep_backups (is_backup_zombie procs) interrupted recovered_marker now t.jobs t.policies

-- The time since the last message of restic, where there was one; a live process is no excuse.
pub record BackupWatch : Type 0 where
  pub grace : ℕ
  pub threshold : ℕ
  pub tick_age : Text → Option ℕ

abbrev is_fresh : ℕ → Option ℕ → Bool
is_fresh threshold none = false
is_fresh threshold (some age) = ltb age threshold

abbrev is_past : ℕ → ℕ → Option ℕ → Bool
is_past now grace none = false
is_past now grace (some t) = leb (t + grace) now

abbrev pub is_backup_stalled : BackupWatch → ℕ → BackupJob → Bool
is_backup_stalled w now job =
    is_running job.status
    && is_past now w.grace job.started_at
    && not (is_fresh w.threshold (w.tick_age job.id))

unfoldable pub recover_stalled_backup_jobs : BackupWatch → ℕ → BackupTables → BackupTables × ℕ
unfolding sweep_backups
recover_stalled_backup_jobs w now t =
    sweep_backups (is_backup_stalled w now) stalled stalled_marker now t.jobs t.policies
