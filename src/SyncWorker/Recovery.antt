-- ===== src/SyncWorker/Recovery.antt =====
-- recover_zombie_sync_jobs and recover_stalled_sync_jobs of sync_worker.py: the boot sweep and the
-- watchdog. The ids of `_running_procs`, and the time since the last sampler tick, are arguments.
use mailfallback.Prelude.{
  ℕ, ◌+◌, suc, Bool, false, not, ◌&&◌, ◌||◌, Option, none, some, List, [], ◌∷◌, any, ltb, leb,
  if◌then◌else◌,
}
use mailfallback.Prelude.Text.{Text, codes, text_eq}
use mailfallback.Models.{Account, SyncJob, SyncState, JobStatus, is_live, is_running, is_syncing}
use mailfallback.SyncWorker.Pause.{redrive_or_keep_pause, interrupted}
use mailfallback.SyncWorker.Finish.{append_line}

-- The tables that a sweep reads and writes.
pub record Tables : Type 0 where
  pub jobs : List SyncJob
  pub accounts : List Account

abbrev pub recovered_marker : Text
recovered_marker = codes "[recovered] container restarted mid-sync — closed as interrupted"

abbrev pub reaped_marker : Text
reaped_marker = codes "[reaped] stalled with no progress — closed as interrupted"

abbrev pub has_process : List Text → SyncJob → Bool
has_process procs job = any (text_eq job.id) procs

-- A row that no process of this container stands behind.
abbrev pub is_zombie : List Text → SyncJob → Bool
is_zombie procs job = is_live job.status && not (is_running job.status && has_process procs job)

-- The job's part of both sweeps.
unfoldable pub close_interrupted : Text → ℕ → SyncJob → SyncJob
close_interrupted marker now job = record job {
  status = JobStatus.failed;
  failure_kind = some interrupted;
  completed_at = some now;
  log = some (append_line job.log marker);
}

abbrev settle : Account → Account
settle a = if is_syncing a.sync_state then record a { sync_state = SyncState.idle } else a

-- The account's part.
unfoldable pub release : ℕ → Account → Account
unfolding redrive_or_keep_pause
release now a = redrive_or_keep_pause (settle a) now

-- `query(Account).filter(Account.id == …).first()`, written in place.
unfoldable pub update_account : Text → (Account → Account) → List Account → List Account
update_account id f [] = []
update_account id f (a ∷ rest) =
    if text_eq a.id id then f a ∷ rest else a ∷ update_account id f rest

-- One pass over the rows that `closes` picks; the count is of the rows closed.
unfoldable pub sweep : (SyncJob → Bool) → Text → ℕ → List SyncJob → List Account → Tables × ℕ
unfolding close_interrupted update_account release
sweep closes marker now [] accounts = (record { jobs = []; accounts = accounts }, 0)
sweep closes marker now (job ∷ jobs) accounts =
    let here =
      if closes job then update_account job.account_id (release now) accounts else accounts in
    let rest = sweep closes marker now jobs here in
    if closes job
    then (record rest.0 { jobs = close_interrupted marker now job ∷ rest.0.jobs }, suc rest.1)
    else (record rest.0 { jobs = job ∷ rest.0.jobs }, rest.1)

unfoldable pub recover_zombie_sync_jobs : List Text → ℕ → Tables → Tables × ℕ
unfolding sweep
recover_zombie_sync_jobs procs now t =
    sweep (is_zombie procs) recovered_marker now t.jobs t.accounts

-- What the watchdog sees of a running job: the age of its last tick in microseconds, and whether
-- its process is still running.
pub record Watch : Type 0 where
  pub grace : ℕ
  pub threshold : ℕ
  pub tick_age : Text → Option ℕ
  pub alive : Text → Bool

abbrev fresh_tick : ℕ → Option ℕ → Bool
fresh_tick threshold none = false
fresh_tick threshold (some age) = ltb age threshold

abbrev past_grace : ℕ → ℕ → Option ℕ → Bool
past_grace now grace none = false
past_grace now grace (some t) = leb (t + grace) now

abbrev pub is_stalled : Watch → ℕ → SyncJob → Bool
is_stalled w now job =
    is_running job.status
    && past_grace now w.grace job.started_at
    && not (fresh_tick w.threshold (w.tick_age job.id) || w.alive job.id)

unfoldable pub recover_stalled_sync_jobs : Watch → ℕ → Tables → Tables × ℕ
unfolding sweep
recover_stalled_sync_jobs w now t = sweep (is_stalled w now) reaped_marker now t.jobs t.accounts
