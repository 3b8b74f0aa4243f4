-- ===== src/MailboxStatus/Outcome.antt =====
-- resolve_job_outcome of mailbox_status.py: how one sync run ended.
use mailfallback.Prelude.{Bool, true, false, ◌||◌, Option, none, some, String, if◌then◌else◌}
use mailfallback.Prelude.Text.{Text, codes, text_eq, option_text_eq}
use mailfallback.Constants.{token_refresh_failed}
use mailfallback.Models.{SyncJob, JobStatus, pending, running, completed, failed, cancelled, truthy}
use mailfallback.MailboxStatus.Kinds.{Tone, JobOutcome}

abbrev outcome : Tone → String → String → String → Bool → JobOutcome
outcome tone label badge icon spin = record {
  tone = tone;
  label = label;
  badge = badge;
  icon = icon;
  spin = spin;
}

-- `_PAUSE_KINDS`.
unfoldable pub pause_kind : Text → Option String
pause_kind kind =
    if text_eq kind (codes "budget_paused")
    then some "paused (daily limit)"
    else if text_eq kind (codes "throttled")
    then some "paused (provider throttling)"
    else if text_eq kind (codes "transient")
    then some "paused (temporary error)"
    else if text_eq kind (codes "interrupted")
    then some "interrupted"
    else none

-- `_BLOCKED_LOGS`.
unfoldable pub is_blocked_log : Option Text → Bool
unfolding option_text_eq
is_blocked_log log =
    option_text_eq log (some (codes "Sync blocked: account is suspended"))
    || option_text_eq log (some (codes "Sync blocked: account not authenticated"))
    || option_text_eq log (some (codes "Sync blocked: account migration in progress"))
    || option_text_eq log (some (codes "Sync blocked: user migration in progress"))

abbrev pub failed_outcome : JobOutcome
failed_outcome = outcome Tone.error "failed" "stamp-error" "x-circle" false

abbrev of_pause : Option String → JobOutcome
of_pause none = failed_outcome
of_pause (some label) = outcome Tone.active label "stamp-active" "pause-circle" false

-- A failed run by its failure kind.
unfoldable pub failure_outcome : Option Text → SyncJob → JobOutcome
unfolding pause_kind is_blocked_log
failure_outcome (some kind) job = of_pause (pause_kind kind)
failure_outcome none job =
    if truthy job.signal
    then outcome Tone.muted "stopped" "stamp-muted" "circle-slash" false
    else if is_blocked_log job.log
    then outcome Tone.muted "skipped" "stamp-muted" "circle-slash" false
    else if option_text_eq job.log (some token_refresh_failed)
    then outcome Tone.attention "sign-in failed" "stamp-attention" "key-round" false
    else failed_outcome

unfoldable pub status_outcome : JobStatus → SyncJob → JobOutcome
unfolding failure_outcome
status_outcome completed job = outcome Tone.ok "synced" "stamp-ok" "check-circle" false
status_outcome running job = outcome Tone.active "syncing" "stamp-active" "loader" true
status_outcome failed job = failure_outcome job.failure_kind job
status_outcome pending job = outcome Tone.muted "queued" "stamp-muted" "clock" false
status_outcome cancelled job = outcome Tone.muted "queued" "stamp-muted" "clock" false

unfoldable pub resolve_job_outcome : SyncJob → JobOutcome
unfolding status_outcome
resolve_job_outcome job = status_outcome job.status job
