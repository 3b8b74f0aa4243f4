-- ===== src/MailboxStatus/Tones.antt =====
-- What every surface may rely on in a resolved mailbox.
use mailfallback.Prelude.{
  ℕ, ◌<◌, Bool, true, false, not, Option, none, some, is_none, ◌≡◌, ◌↔◌, arith,
}
use mailfallback.Prelude.Text.{Text}
use mailfallback.Models.{Account, SyncState, truthy, is_syncing, is_error}
use mailfallback.MailboxStatus.Kinds.{Tone, MailboxState, NextAction, retry, sync_now}
use mailfallback.MailboxStatus.Facts.{Cron, Inputs, Facts, facts, is_stopped_job, non_empty}
use mailfallback.MailboxStatus.Resolve.{ladder, make, resolve_mailbox_status, Verdict}

abbrev pub asks_owner : MailboxState → Bool
asks_owner MailboxState.sign_in_needed = true
asks_owner MailboxState.error = true
asks_owner MailboxState.stale = true
asks_owner MailboxState.initial_stalled = true
asks_owner _ = false

-- The tone that each state has, whatever the mailbox.
abbrev pub tone_of : MailboxState → Tone
tone_of MailboxState.migrating = Tone.active
tone_of MailboxState.suspended = Tone.muted
tone_of MailboxState.sign_in_needed = Tone.attention
tone_of MailboxState.first_sync = Tone.active
tone_of MailboxState.syncing = Tone.active
tone_of MailboxState.paused = Tone.active
tone_of MailboxState.stopped = Tone.muted
tone_of MailboxState.error = Tone.error
tone_of MailboxState.initial_sync = Tone.active
tone_of MailboxState.initial_stalled = Tone.attention
tone_of MailboxState.waiting = Tone.muted
tone_of MailboxState.stale = Tone.attention
tone_of MailboxState.current = Tone.ok

record IsSound (v : Verdict) : Type 0 where
  toned : v.tone ≡ tone_of v.state
  asks : v.needs_attention ≡ asks_owner v.state

ladder-IsSound :
    (a : Account) (f : Facts) (owner_migrating : Bool) (now : ℕ)
    → IsSound (ladder a f owner_migrating now)
unfolding ladder
ladder-IsSound a f owner_migrating now = ground arith

-- The tone of a mailbox is the one of its state, red for `error` alone, and it needs attention
-- exactly in the four states that ask something of the owner: for every account, job and time.
pub resolve_mailbox_status_tones :
    (cron : Cron) (a : Account) (i : Inputs)
    → ((resolve_mailbox_status cron a i).tone ≡ tone_of (resolve_mailbox_status cron a i).state)
      × ((resolve_mailbox_status cron a i).needs_attention
          ≡ asks_owner (resolve_mailbox_status cron a i).state)
unfolding make resolve_mailbox_status
resolve_mailbox_status_tones cron a i =
    let sound = ladder-IsSound a (facts cron a i) i.owner_migrating i.now in
    (sound.toned, sound.asks)

abbrev pub starts_sync : Option NextAction → Bool
starts_sync (some retry) = true
starts_sync (some sync_now) = true
starts_sync _ = false

ladder_action :
    (a : Account) (f : Facts) (owner_migrating : Bool) (now : ℕ)
    → starts_sync (ladder a f owner_migrating now).action ≡ true
    → f.pause_blocks_trigger ≡ false
unfolding ladder
ladder_action a f owner_migrating now h = ground arith

pause_columns :
    (cron : Cron) (a : Account) (i : Inputs)
    → (facts cron a i).pause_blocks_trigger ≡ false
    → (a.sync_paused_until ≡ none) × (a.pause_reason ≡ none)
unfolding facts
pause_columns cron a i h = ground arith

-- An action that starts a sync is offered only while neither pause column is set, which is when
-- the agent trigger accepts it.
pub resolve_mailbox_status_action :
    (cron : Cron) (a : Account) (i : Inputs)
    → starts_sync (resolve_mailbox_status cron a i).action ≡ true
    → (a.sync_paused_until ≡ none) × (a.pause_reason ≡ none)
unfolding make resolve_mailbox_status
resolve_mailbox_status_action cron a i h =
    pause_columns cron a i (ladder_action a (facts cron a i) i.owner_migrating i.now h)

-- A resume time is only ever the account's own pause end, still ahead of `now`, with a reason set.
pub resolve_mailbox_status_resumes_at :
    (cron : Cron) (a : Account) (i : Inputs) (t : ℕ)
    → (resolve_mailbox_status cron a i).resumes_at ≡ some t
    → (a.sync_paused_until ≡ some t) × (i.now < t) × (truthy a.pause_reason ≡ true)
unfolding resolve_mailbox_status
resolve_mailbox_status_resumes_at cron a i t h = ground arith

ladder_error :
    (a : Account) (f : Facts) (owner_migrating : Bool) (now : ℕ)
    → (ladder a f owner_migrating now).state ≡ MailboxState.error
    → (a.migrating ≡ false)
      × (owner_migrating ≡ false)
      × (a.suspended ≡ false)
      × (f.signed_in ≡ true)
      × (f.failing ≡ true)
      × (is_none f.pause_reason ≡ true)
      × (f.stopped_job ≡ false)
unfolding ladder
ladder_error a f owner_migrating now h = ground arith

error_ladder :
    (a : Account) (f : Facts) (owner_migrating : Bool) (now : ℕ)
    → (a.migrating ≡ false)
      × (owner_migrating ≡ false)
      × (a.suspended ≡ false)
      × (f.signed_in ≡ true)
      × (is_syncing a.sync_state ≡ false)
      × (f.failing ≡ true)
      × (is_none f.pause_reason ≡ true)
      × (f.stopped_job ≡ false)
    → (ladder a f owner_migrating now).state ≡ MailboxState.error
unfolding ladder
error_ladder a f owner_migrating now h = ground arith

is_error_sound : (s : SyncState) → is_error s ≡ true → s ≡ SyncState.error
is_error_sound s h = ground arith

no_reason : (reason : Option Text) → is_none (non_empty reason) ≡ not (truthy reason)
no_reason reason = ground arith

-- A mailbox is in the error state exactly when nothing that comes first applies (a migration of it
-- or of an owner, a suspension, a lost sign-in), its sync state is `error`, no pause reason is set
-- and the last run was not stopped by a user.
pub resolve_mailbox_status_error_iff :
    (cron : Cron) (a : Account) (i : Inputs)
    → ((resolve_mailbox_status cron a i).state ≡ MailboxState.error) ↔ (
        (a.migrating ≡ false)
        × (i.owner_migrating ≡ false)
        × (a.suspended ≡ false)
        × ((resolve_mailbox_status cron a i).signed_in ≡ true)
        × (a.sync_state ≡ SyncState.error)
        × (truthy a.pause_reason ≡ false)
        × (is_stopped_job i.last_job a ≡ false))
unfolding make resolve_mailbox_status
resolve_mailbox_status_error_iff cron a i = (
  λ h.
      let e = ladder_error a (facts cron a i) i.owner_migrating i.now h in
      (
        e.0,
        e.1,
        e.2,
        e.3,
        is_error_sound a.sync_state e.4,
        ground (arith, no_reason a.pause_reason),
        e.6,
      ),
  λ h. error_ladder a (facts cron a i) i.owner_migrating i.now (
    h.0,
    h.1,
    h.2,
    h.3,
    ground arith,
    ground arith,
    ground (arith, no_reason a.pause_reason),
    h.6,
  ),
)
