-- ===== src/MailboxStatus/Kinds.antt =====
-- The enums and result types of mailbox_status.py.
use mailfallback.Prelude.{ℕ, Bool, Option, String}
use mailfallback.Prelude.Text.{Text}

pub data Tone : Type 0 where
  ok active attention error muted : Tone

pub data MailboxState : Type 0 where
  migrating suspended sign_in_needed first_sync syncing paused stopped error initial_sync
        initial_stalled waiting stale current :
      MailboxState

pub data NextAction : Type 0 where
  reconnect update_password retry sync_now : NextAction

pub record MailboxStatus : Type 0 where
  pub state : MailboxState
  pub tone : Tone
  pub label : String
  pub detail : Option Text
  pub action : Option NextAction
  pub needs_attention : Bool
  pub signed_in : Bool
  pub badge : String
  pub icon : String
  pub spin : Bool
  pub last_success_at : Option ℕ
  pub resumes_at : Option ℕ

pub record JobOutcome : Type 0 where
  pub tone : Tone
  pub label : String
  pub badge : String
  pub icon : String
  pub spin : Bool
