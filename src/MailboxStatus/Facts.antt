-- ===== src/MailboxStatus/Facts.antt =====
-- What resolve_mailbox_status of mailbox_status.py works out from its arguments before it decides.
-- The cron library is a parameter: the trigger of a crontab, `none` if it raises, and its next fire
-- time from the previous one and the time.
use Prim.Native.Nat.{max}
use mailfallback.Prelude.{
  ℕ, ◌+◌, ◌-◌, ◌*◌, Bool, true, false, not, ◌&&◌, ◌||◌, Option, none, some, [], ◌∷◌, is_some,
  is_none, ltb, if◌then◌else◌,
}
use mailfallback.Prelude.Text.{Text, strip, option_text_eq}
use mailfallback.Clock.{day}
use mailfallback.Constants.{token_refresh_failed}
use mailfallback.Models.{
  Account, SyncJob, truthy, is_authenticated, is_error, is_oauth2, is_needs_reauth, is_failed,
}

abbrev pub Cron : Type 0
Cron = Text → Option (Option ℕ → ℕ → Option ℕ)

abbrev pub stale_after : ℕ
stale_after = 7 * day

-- The gap between the next two fire times, or `STALE_AFTER`.
abbrev next_gap : Option ℕ → Option ℕ → ℕ
next_gap (some first) (some second) = max stale_after (2 * (second - first))
next_gap _ _ = stale_after

abbrev after_first : (Option ℕ → ℕ → Option ℕ) → Option ℕ → Option ℕ
after_first trigger none = none
after_first trigger (some first) = trigger (some first) first

abbrev schedule_gap : Option (Option ℕ → ℕ → Option ℕ) → ℕ → ℕ
schedule_gap none now = stale_after
schedule_gap (some trigger) now =
    let first = trigger none now in next_gap first (after_first trigger first)

abbrev blank_or {ℓ} : {A : Type ℓ} → A → (Text → A) → Text → A
blank_or d f [] = d
blank_or d f (c ∷ s) = f (c ∷ s)

unfoldable pub stale_threshold : Cron → Option Text → ℕ → ℕ
stale_threshold cron none now = stale_after
stale_threshold cron (some schedule) now =
    blank_or stale_after (λ s. schedule_gap (cron s) now) (strip schedule)

-- The keyword arguments.
pub record Inputs : Type 0 where
  pub last_job : Option SyncJob
  pub live_progress : Bool
  pub owner_migrating : Bool
  pub now : ℕ

-- `x or y` on nullable times: a time is never falsy.
abbrev time_or : Option ℕ → Option ℕ → Option ℕ
time_or none t = t
time_or (some t) _ = some t

-- `old(t)`: `t < now - threshold`.
abbrev pub is_old : ℕ → ℕ → Option ℕ → Bool
is_old now threshold none = false
is_old now threshold (some t) = ltb (t + threshold) now

abbrev pub job_started : Option SyncJob → Bool
job_started none = false
job_started (some job) = is_some job.started_at

abbrev activity : Option SyncJob → Account → Option ℕ
activity none a = a.created_at
activity (some job) a =
    if is_some job.started_at then time_or job.completed_at job.started_at else a.created_at

-- A stop by a user: failed, with a signal, with no failure kind, and its log is the account's error.
abbrev pub is_stopped_job : Option SyncJob → Account → Bool
is_stopped_job none a = false
is_stopped_job (some job) a =
    is_failed job.status
    && truthy job.signal
    && is_none job.failure_kind
    && option_text_eq a.last_error job.log

abbrev pub non_empty : Option Text → Option Text
non_empty none = none
non_empty (some []) = none
non_empty (some (c ∷ s)) = some (c ∷ s)

-- Only a pause that has yet to lift has a resume time.
abbrev pub resume_time : Option Text → Option ℕ → ℕ → Option ℕ
resume_time none until now = none
resume_time (some reason) none now = none
resume_time (some reason) (some t) now = if ltb now t then some t else none

abbrev is_blank : Option Text → Bool
is_blank none = true
is_blank (some s) = blank_or true (λ t. false) (strip s)

pub record Facts : Type 0 where
  pub failing : Bool
  pub initial_done : Bool
  pub pause_reason : Option Text
  pub resumes_at : Option ℕ
  pub started : Bool
  pub manual_only : Bool
  pub threshold : ℕ
  pub long_unsynced : Bool
  pub signed_in : Bool
  pub stopped_job : Bool
  pub pause_blocks_trigger : Bool

unfoldable pub facts : Cron → Account → Inputs → Facts
unfolding stale_threshold is_authenticated option_text_eq
facts cron a i =
    let failing = is_error a.sync_state in
    let initial_done = is_some a.initial_sync_completed_at in
    let pause_reason = non_empty a.pause_reason in
    let manual_only = is_blank a.sync_schedule in
    let threshold = stale_threshold cron a.sync_schedule i.now in
    let token_refresh =
      failing && is_oauth2 a.auth_type && option_text_eq a.last_error (some token_refresh_failed) in
    record {
      failing = failing;
      initial_done = initial_done;
      pause_reason = pause_reason;
      resumes_at = resume_time pause_reason a.sync_paused_until i.now;
      started = i.live_progress || is_some a.initial_sync_total_messages || job_started i.last_job;
      manual_only = manual_only;
      threshold = threshold;
      long_unsynced =
          not manual_only
          && (if initial_done
              then is_old i.now threshold a.last_sync_at
              else is_old i.now threshold (activity i.last_job a));
      signed_in = is_authenticated a && not (is_needs_reauth a.sync_state) && not token_refresh;
      stopped_job = is_stopped_job i.last_job a;
      pause_blocks_trigger = is_some a.sync_paused_until || is_some a.pause_reason;
    }
