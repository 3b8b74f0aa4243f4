-- ===== src/MailboxStatus/Resolve.antt =====
-- resolve_mailbox_status of mailbox_status.py: the ladder of cases over the facts.
use mailfallback.Prelude.{
  ℕ, ◌-◌, ◌/◌, Bool, true, false, not, ◌&&◌, ◌||◌, Option, none, some, [], ◌∷◌, ◌++◌, String,
  is_none, if◌then◌else◌,
}
use mailfallback.Prelude.Text.{Text, codes, text_eq, decimal}
use mailfallback.Clock.{day}
use mailfallback.Models.{Account, is_oauth2, is_syncing}
use mailfallback.SyncProgress.Errors.{classify_error, is_auth, describe_error}
use mailfallback.MailboxStatus.Kinds.{
  Tone, MailboxState, NextAction, reconnect, update_password, retry, sync_now, MailboxStatus,
}
use mailfallback.MailboxStatus.SignIn.{sign_in_detail}
use mailfallback.MailboxStatus.Facts.{Cron, Inputs, Facts, facts}

-- What a case of the ladder passes to `make`.
pub record Verdict : Type 0 where
  pub state : MailboxState
  pub tone : Tone
  pub label : String
  pub badge : String
  pub icon : String
  pub spin : Bool
  pub action : Option NextAction
  pub detail : Option Text
  pub needs_attention : Bool

unfoldable pub make : Account → Facts → Verdict → MailboxStatus
make a f v = record {
  state = v.state;
  tone = v.tone;
  label = v.label;
  detail = v.detail;
  action = v.action;
  needs_attention = v.needs_attention;
  signed_in = f.signed_in;
  badge = v.badge;
  icon = v.icon;
  spin = v.spin;
  last_success_at = a.last_sync_at;
  resumes_at = f.resumes_at;
}

-- A verdict with the defaults of `make`.
abbrev plain : MailboxState → Tone → String → String → String → Verdict
plain state tone label badge icon = record {
  state = state;
  tone = tone;
  label = label;
  badge = badge;
  icon = icon;
  spin = false;
  action = none;
  detail = none;
  needs_attention = false;
}

unfoldable pub pause_tooltip : Text → Text
pause_tooltip reason =
    if text_eq reason (codes "budget")
    then codes "Daily sync budget reached"
    else if text_eq reason (codes "throttle")
    then codes "Provider throttled"
    else if text_eq reason (codes "transient")
    then codes "Connection lost — retrying"
    else if text_eq reason (codes "interrupted")
    then codes "Interrupted by a restart. It resumes on its own shortly."
    else codes "Paused for now. It resumes on its own."

abbrev initial_detail : Text
initial_detail = codes "First full sync incomplete"

-- `_is_credential_error`.
unfoldable pub is_credential_error : Option Text → Bool
is_credential_error none = false
is_credential_error (some []) = false
is_credential_error (some (c ∷ s)) = is_auth (classify_error (c ∷ s)).category

unfoldable pub error_action : Account → Facts → Option NextAction
error_action a f =
    if not (is_oauth2 a.auth_type) && is_credential_error a.last_error
    then some update_password
    else if f.pause_blocks_trigger
    then none
    else some retry

-- `_error_detail`.
unfoldable pub error_detail : Account → Text
error_detail a = codes (describe_error a.last_error (not (is_oauth2 a.auth_type)))

abbrev sync_action : Facts → Option NextAction
sync_action f = if f.pause_blocks_trigger then none else some sync_now

abbrev days_since : ℕ → Option ℕ → ℕ → ℕ
days_since now none d = d
days_since now (some t) d = (now - t) / day

-- 4-5: a sync in progress.
unfoldable pub in_progress : Facts → Verdict
in_progress f =
    if not f.initial_done
    then record {
      state = MailboxState.first_sync;
      tone = Tone.active;
      label = "Initial sync";
      badge = "stamp-active";
      icon = "loader";
      spin = true;
      action = none;
      detail = some initial_detail;
      needs_attention = false;
    }
    else plain MailboxState.syncing Tone.active "Syncing" "stamp-active" "loader"

abbrev stopped_detail : Facts → Text
stopped_detail f =
    if f.manual_only
    then codes "The last sync was stopped. Start a sync when you're ready."
    else codes "The last sync was stopped. The next scheduled sync runs normally."

unfoldable pub stopped_verdict : Facts → Verdict
stopped_verdict f =
    let v = plain MailboxState.stopped Tone.muted "Stopped" "stamp-muted" "circle-slash" in
    record v { detail = some (stopped_detail f) }

unfoldable pub error_verdict : Account → Facts → Verdict
error_verdict a f =
    let v = plain MailboxState.error Tone.error "Sync failed" "stamp-error" "alert-circle" in
    record v { action = error_action a f; detail = some (error_detail a); needs_attention = true }

-- 8-9: nothing has been copied lately.
unfoldable pub unsynced_verdict : Account → Facts → ℕ → Verdict
unsynced_verdict a f now =
    let stalled =
      plain MailboxState.initial_stalled Tone.attention "Initial sync stalled" "stamp-attention"
        "alert-triangle" in
    let stale = plain MailboxState.stale Tone.attention "Out of date" "stamp-attention" "clock" in
    let days = decimal (f.threshold / day) in
    let age = decimal (days_since now a.created_at (f.threshold / day)) in
    let since = decimal (days_since now a.last_sync_at 0) in
    if f.initial_done
    then record stale {
      action = sync_action f;
      detail = some (codes "Last sync was " ++ since ++ codes " days ago.");
      needs_attention = true;
    }
    else if f.started
    then record stalled {
      action = sync_action f;
      detail =
          some (codes "The initial sync has not progressed for over " ++ days ++ codes " days.");
      needs_attention = true;
    }
    else record stalled {
      label = "Never synced";
      action = sync_action f;
      detail = some (codes "This mailbox has never synced (added " ++ age ++ codes " days ago).");
      needs_attention = true;
    }

-- 11-13: the quiet states.
unfoldable pub quiet_verdict : Facts → Verdict
quiet_verdict f =
    let initial =
      plain MailboxState.initial_sync Tone.active "Initial sync" "stamp-active" "download" in
    if f.initial_done
    then plain MailboxState.current Tone.ok "Up to date" "stamp-ok" "check-circle"
    else if f.started
    then record initial { detail = some initial_detail }
    else plain MailboxState.waiting Tone.muted "Waiting for first sync" "stamp-muted" "clock"

-- 10: a self-recovering pause.
unfoldable pub pause_or_quiet : Facts → Option Text → Verdict
pause_or_quiet f none = quiet_verdict f
pause_or_quiet f (some reason) =
    let v = plain MailboxState.paused Tone.active "Paused" "stamp-active" "pause-circle" in
    record v { detail = some (pause_tooltip reason) }

unfoldable pub sign_in_verdict : Account → Verdict
sign_in_verdict a =
    let v =
      plain MailboxState.sign_in_needed Tone.attention "Sign-in needed" "stamp-attention"
        "key-round" in
    record v { action = some reconnect; detail = some (sign_in_detail a); needs_attention = true }

-- The cases in order.
unfoldable pub ladder : Account → Facts → Bool → ℕ → Verdict
unfolding in_progress stopped_verdict error_verdict unsynced_verdict quiet_verdict pause_or_quiet
    sign_in_verdict error_action
ladder a f owner_migrating now =
    if a.migrating || owner_migrating
    then plain MailboxState.migrating Tone.active "Migrating" "stamp-active" "loader"
    else if a.suspended
    then plain MailboxState.suspended Tone.muted "Suspended" "stamp-muted" "pause-circle"
    else if not f.signed_in
    then sign_in_verdict a
    else if is_syncing a.sync_state
    then in_progress f
    else if f.failing && f.stopped_job && not f.long_unsynced
    then stopped_verdict f
    else if f.failing && is_none f.pause_reason && not f.stopped_job
    then error_verdict a f
    else if f.long_unsynced
    then unsynced_verdict a f now
    else pause_or_quiet f f.pause_reason

unfoldable pub resolve_mailbox_status : Cron → Account → Inputs → MailboxStatus
unfolding make ladder facts
resolve_mailbox_status cron a i =
    let f = facts cron a i in make a f (ladder a f i.owner_migrating i.now)
