-- ===== src/SyncWorker/Pauses.antt =====
-- How a paused or crashed run is shown.
use mailfallback.Prelude.{
  ℕ, ◌<◌, Bool, true, false, some, ◌≡◌, ◌≢◌, refl, arith, ◌≤◌, ◌*◌, All, [], ◌∷◌, ◌++◌, sym,
}
use mailfallback.Prelude.Text.{Text, codes, text_eq, is_space}
use mailfallback.Models.{Account, SyncState, is_authenticated, truthy}
use mailfallback.SyncWorker.Pause.{
  PauseKind, budget_paused, throttled, transient, pause_account, budget_headroom_today,
}
use mathlib.Core.List.{append_assoc}
use mailfallback.Clock.{minute, date}
use mailfallback.Regex.{non_space}
use mailfallback.SyncBudget.{next_budget_resume}
use mailfallback.SyncBudget.Backoff.{next_budget_resume_day}
use mailfallback.SyncProgress.Errors.{error_category, runtime_cap}
use mailfallback.SyncProgress.Cause.{error_category_runtime_cap}
use mailfallback.SyncWorker.Preflight.{World}
use mailfallback.SyncWorker.Finish.{crash, hit_cap, cap_message}
use mailfallback.SyncWorker.Closing.{is_red}
use mailfallback.SyncWorker.Agreement.{after}
use mailfallback.MailboxStatus.Kinds.{Tone, MailboxState}
use mailfallback.MailboxStatus.Facts.{Cron, Inputs, Facts, facts}
use mailfallback.MailboxStatus.Resolve.{resolve_mailbox_status, make, ladder}
use mailfallback.MailboxStatus.Outcome.{resolve_job_outcome}
use mailfallback.MailboxStatus.Tones.{resolve_mailbox_status_error_iff}

-- A pause that has begun, as the facts see it.
record IsPaused (f : Facts) (t : ℕ) : Type 0 where
  reason : (s : Text) × (f.pause_reason ≡ some s)
  resumes : f.resumes_at ≡ some t
  signed_in : f.signed_in ≡ true
  calm : f.failing ≡ false

IsPaused-facts :
    (cron : Cron) (kind : PauseKind) (t : ℕ) (a : Account) (i : Inputs)
    → is_authenticated a ≡ true
    → i.now < t
    → IsPaused (facts cron (pause_account kind t a) i) t
unfolding facts pause_account
IsPaused-facts cron budget_paused t a i auth h = record {
  reason = (codes "budget", refl);
  resumes = ground arith;
  signed_in = ground arith;
  calm = refl;
}
IsPaused-facts cron throttled t a i auth h = record {
  reason = (codes "throttle", refl);
  resumes = ground arith;
  signed_in = ground arith;
  calm = refl;
}
IsPaused-facts cron transient t a i auth h = record {
  reason = (codes "transient", refl);
  resumes = ground arith;
  signed_in = ground arith;
  calm = refl;
}

paused_ladder :
    (a : Account) (f : Facts) (owner : Bool) (now t : ℕ)
    → IsPaused f t
    → owner ≡ false
    → a.migrating ≡ false
    → a.suspended ≡ false
    → a.sync_state ≡ SyncState.idle
    → f.long_unsynced ≡ false
    → ((ladder a f owner now).state ≡ MailboxState.paused)
      × ((ladder a f owner now).tone ≡ Tone.active)
unfolding ladder
paused_ladder a f owner now t p o m s idle fresh = ground (arith, p.reason.1)

-- A self-recovering pause (the daily budget, a throttle, a network blip) of a mailbox that is
-- signed in, not suspended and not long without a sync, while neither it nor an owner is
-- migrating, is shown as paused, in the active tone and so never in red, with its own resume time,
-- for as long as that time is ahead.
pub pause_shown :
    (cron : Cron) (kind : PauseKind) (t : ℕ) (a : Account) (i : Inputs)
    → is_authenticated a ≡ true
    → a.migrating ≡ false
    → a.suspended ≡ false
    → i.owner_migrating ≡ false
    → i.now < t
    → (facts cron (pause_account kind t a) i).long_unsynced ≡ false
    → ((resolve_mailbox_status cron (pause_account kind t a) i).state ≡ MailboxState.paused)
      × ((resolve_mailbox_status cron (pause_account kind t a) i).tone ≡ Tone.active)
      × ((resolve_mailbox_status cron (pause_account kind t a) i).resumes_at ≡ some t)
unfolding resolve_mailbox_status make pause_account
pause_shown cron kind t a i auth m s owner h fresh =
    let p = IsPaused-facts cron kind t a i auth h in
    let b = pause_account kind t a in
    let shown = paused_ladder b (facts cron b i) i.owner_migrating i.now t p owner m s refl fresh in
    (shown.0, shown.1, p.resumes)

crash_outcome :
    (message : Text) (now : ℕ) (w : World)
    → is_red (resolve_job_outcome (crash message now w).job).tone ≡ true
unfolding crash resolve_job_outcome text_eq
crash_outcome message now w = ground arith

crash_account :
    (message : Text) (now : ℕ) (w : World)
    → ((crash message now w).account.sync_state ≡ SyncState.error)
      × ((crash message now w).account.pause_reason ≡ w.account.pause_reason)
      × ((crash message now w).account.sync_paused_until ≡ w.account.sync_paused_until)
unfolding crash
crash_account message now w = ground arith

-- An exception during the run of an account that has a pause reason leaves that reason and the end
-- of the pause as they were; the run is shown as failed in the history of jobs and the account gets
-- the error state, but the mailbox is not shown in error.
pub crash_hides_error :
    (cron : Cron) (message : Text) (now : ℕ) (w : World) (live_progress : Bool) (later : ℕ)
    → truthy w.account.pause_reason ≡ true
    → (is_red (resolve_job_outcome (crash message now w).job).tone ≡ true)
      × ((crash message now w).account.sync_state ≡ SyncState.error)
      × ((crash message now w).account.pause_reason ≡ w.account.pause_reason)
      × ((crash message now w).account.sync_paused_until ≡ w.account.sync_paused_until)
      × ((resolve_mailbox_status cron
            (crash message now w).account
            (after (crash message now w) live_progress later)).state
          ≢ MailboxState.error)
crash_hides_error cron message now w live_progress later h =
    let c = crash_account message now w in
    (
      crash_outcome message now w,
      c.0,
      c.1,
      c.2,
      λ e.
          let known =
            (resolve_mailbox_status_error_iff cron (crash message now w).account
                (after (crash message now w) live_progress later)).0
              e in
          ground (arith, known.5, c.1),
    )

-- With a jitter of at most 30 minutes: from the end of a budget pause on, at any time, the ledger
-- of the day on which the pause began no longer holds back the account.
pub pause_budget_headroom :
    (now jitter later : ℕ) (a : Account)
    → jitter ≤ 30 * minute
    → a.traffic_date ≡ some (date now)
    → next_budget_resume now jitter ≤ later
    → budget_headroom_today a later ≡ true
unfolding budget_headroom_today
pause_budget_headroom now jitter later a small ledger h =
    let day : date now < date later = omega (arith, next_budget_resume_day now jitter small) in
    ground (arith, ledger, day)

cap_error : (cap : Text) (w : World) → (hit_cap cap w).account.last_error ≡ some (cap_message cap)
unfolding hit_cap
cap_error cap w = ground arith

seconds_word :
    (cap : Text)
    → All (λ x. non_space x ≡ true) cap
    → All (λ x. non_space x ≡ true) (cap ++ codes "s")
unfolding is_space
seconds_word [] h = (refl, tt)
seconds_word (c ∷ cap) h = (h.0, seconds_word cap h.1)

-- A run that is killed by the runtime cap leaves an error that is read back as the runtime cap, for
-- every printed cap that is not empty and has no space in it.
pub hit_cap_category :
    (c : ℕ) (cap : Text) (w : World)
    → All (λ x. non_space x ≡ true) (c ∷ cap)
    → error_category (hit_cap (c ∷ cap) w).account.last_error ≡ runtime_cap
hit_cap_category c cap w h =
    rw (cap_error (c ∷ cap) w, sym (append_assoc cap (codes "s") (codes " runtime cap")))
      (error_category_runtime_cap (codes "Sync ") [] c (cap ++ codes "s")
        (seconds_word (c ∷ cap) h))
