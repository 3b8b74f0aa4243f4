-- ===== src/SyncWorker/Pause.antt =====
-- The self-recovering pauses of sync_worker.py.
use mailfallback.Prelude.{
  ℕ, ◌+◌, ◌-◌, ◌*◌, ◌/◌, suc, Bool, true, false, ◌&&◌, Option, none, some, List, [], ◌∷◌, is_none,
  ltb, leb, if◌then◌else◌, ◌==◌,
}
use mailfallback.Prelude.Text.{Text, codes, text_eq, option_text_eq}
use mailfallback.Clock.{second, day, date}
use mailfallback.SyncBudget.{daily_budget_bytes}
use mailfallback.Models.{Account, SyncJob, SyncState, JobStatus}

abbrev has_headroom : Option ℕ → Option ℕ → ℕ → ℕ → Bool
has_headroom none traffic_date spent today = true
has_headroom (some budget) none spent today = true
has_headroom (some budget) (some d) spent today = if d == today then ltb spent budget else true

-- `_budget_headroom_today`: a ledger of another day leaves the whole budget.
unfoldable pub budget_headroom_today : Account → ℕ → Bool
unfolding daily_budget_bytes
budget_headroom_today a now =
    has_headroom (daily_budget_bytes a.daily_sync_budget_mb a.provider) a.traffic_date
      a.bytes_synced_today (date now)

abbrev pub interrupted : Text
interrupted = codes "interrupted"

-- `_redrive_or_keep_pause`.
unfoldable pub redrive_or_keep_pause : Account → ℕ → Account
redrive_or_keep_pause a now =
    if is_none a.initial_sync_completed_at && budget_headroom_today a now
    then record a { sync_paused_until = some (now - second); pause_reason = some interrupted }
    else a

-- The failure kinds that pause.
pub data PauseKind : Type 0 where
  budget_paused throttled transient : PauseKind

abbrev pub kind_text : PauseKind → Text
kind_text budget_paused = codes "budget_paused"
kind_text throttled = codes "throttled"
kind_text transient = codes "transient"

abbrev pub reason_text : PauseKind → Text
reason_text budget_paused = codes "budget"
reason_text throttled = codes "throttle"
reason_text transient = codes "transient"

-- `_pause_account`, on the account.
unfoldable pub pause_account : PauseKind → ℕ → Account → Account
pause_account kind resume_at a = record a {
  sync_state = SyncState.idle;
  last_error = none;
  sync_paused_until = some resume_at;
  pause_reason = some (reason_text kind);
}

-- `_pause_account`, on the job.
unfoldable pub pause_job : PauseKind → SyncJob → SyncJob
pause_job kind job = record job { status = JobStatus.failed; failure_kind = some (kind_text kind) }

-- `started_at >= day_start`.
abbrev started_since : ℕ → Option ℕ → Bool
started_since day_start none = false
started_since day_start (some t) = leb day_start t

abbrev is_attempt : Text → PauseKind → ℕ → SyncJob → Bool
is_attempt account_id kind day_start job =
    text_eq job.account_id account_id
    && option_text_eq job.failure_kind (some (kind_text kind))
    && started_since day_start job.started_at

abbrev count_if : (SyncJob → Bool) → List SyncJob → ℕ
count_if p [] = 0
count_if p (job ∷ jobs) = if p job then suc (count_if p jobs) else count_if p jobs

-- `_attempt_today`.
unfoldable pub attempt_today : List SyncJob → Text → PauseKind → ℕ → ℕ
unfolding option_text_eq
attempt_today jobs account_id kind now =
    count_if (is_attempt account_id kind (now / day * day)) jobs + 1
