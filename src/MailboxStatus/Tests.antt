-- ===== src/MailboxStatus/Tests.antt =====
-- The theorems on the resolved mailbox, at concrete mailboxes.
use mailfallback.Prelude.{ℕ, ◌+◌, true, false, Option, none, some, ◌≡◌, ◌↔◌, refl, arith}
use mailfallback.Prelude.Text.{codes, text_eq, option_text_eq}
use mailfallback.Models.{Account, AuthType, SyncState, truthy, is_authenticated}
use mailfallback.Models.Examples.{mailbox}
use mailfallback.MailboxStatus.Kinds.{MailboxState}
use mailfallback.MailboxStatus.Facts.{Cron, Inputs, facts, is_stopped_job}
use mailfallback.MailboxStatus.Resolve.{resolve_mailbox_status, ladder, error_action, error_verdict}
use mailfallback.MailboxStatus.Tones.{
  starts_sync, resolve_mailbox_status_action, resolve_mailbox_status_error_iff,
}

-- Every schedule fires once a day.
abbrev daily : Cron
daily s = some (λ (previous : Option ℕ) (now : ℕ). some (now + 86400000000))

abbrev inputs : Inputs
inputs = record { last_job = none; live_progress = false; owner_migrating = false; now = 100 }

abbrev failed_mailbox : Account
failed_mailbox = record mailbox {
  auth_type = AuthType.oauth2;
  sync_state = SyncState.error;
  last_error = some (codes "disk full");
}

abbrev paused_mailbox : Account
paused_mailbox = record mailbox {
  sync_paused_until = some 200;
  pause_reason = some (codes "budget");
}

failed_action : starts_sync (resolve_mailbox_status daily failed_mailbox inputs).action ≡ true
unfolding resolve_mailbox_status ladder facts is_authenticated error_action error_verdict text_eq
    option_text_eq
failed_action = refl

paused_time : (resolve_mailbox_status daily paused_mailbox inputs).resumes_at ≡ some 200
unfolding resolve_mailbox_status
paused_time = ground arith

resolve_mailbox_status_action_example :
    (failed_mailbox.sync_paused_until ≡ none) × (failed_mailbox.pause_reason ≡ none)
resolve_mailbox_status_action_example =
    resolve_mailbox_status_action daily failed_mailbox inputs failed_action

resolve_mailbox_status_error_iff_example :
    ((resolve_mailbox_status daily failed_mailbox inputs).state ≡ MailboxState.error) ↔ (
      (failed_mailbox.migrating ≡ false)
      × (inputs.owner_migrating ≡ false)
      × (failed_mailbox.suspended ≡ false)
      × ((resolve_mailbox_status daily failed_mailbox inputs).signed_in ≡ true)
      × (failed_mailbox.sync_state ≡ SyncState.error)
      × (truthy failed_mailbox.pause_reason ≡ false)
      × (is_stopped_job inputs.last_job failed_mailbox ≡ false))
resolve_mailbox_status_error_iff_example =
    resolve_mailbox_status_error_iff daily failed_mailbox inputs
