-- ===== src/Models.antt =====
-- src/mailfallback/models.py: the rows and enums that the modelled components read and write, with
-- the columns that those use. A datetime is a number of microseconds, a date a number of days.
pub mod Examples
pub mod Queries
use mailfallback.Prelude.{ℕ, Bool, true, false, not, ◌&&◌, Option, none, some, List, [], ◌∷◌}
use mailfallback.Prelude.Int.{ℤ}
use mailfallback.Prelude.Text.{Text}

pub data AuthType : Type 0 where
  oauth2 app_password : AuthType

pub data SyncState : Type 0 where
  idle syncing error needs_reauth : SyncState

pub data JobStatus : Type 0 where
  pending running completed failed cancelled : JobStatus

pub data UserRole : Type 0 where
  admin user : UserRole

pub data MigrationStatus : Type 0 where
  pending copying verifying cleaning completed failed : MigrationStatus

pub record MailStore : Type 0 where
  pub id : Text
  pub name : Text
  pub path : Text
  pub enabled : Bool
  pub is_default : Bool

-- `allowed_stores` holds the ids of the rows of the relationship.
pub record User : Type 0 where
  pub id : Text
  pub username : Text
  pub role : UserRole
  pub enabled : Bool
  pub store_id : Text
  pub migrating : Bool
  pub allowed_stores : List Text

pub record Account : Type 0 where
  pub id : Text
  pub name : Text
  pub email_address : Text
  pub provider : Text
  pub auth_type : AuthType
  pub credentials : Option Text
  pub maildir_path : Text
  pub store_id : Text
  pub sync_schedule : Option Text
  pub sync_state : SyncState
  pub last_sync_at : Option ℕ
  pub last_error : Option Text
  pub traffic_date : Option ℕ
  pub bytes_synced_today : ℕ
  pub daily_sync_budget_mb : Option ℕ
  pub sync_paused_until : Option ℕ
  pub pause_reason : Option Text
  pub initial_sync_completed_at : Option ℕ
  pub initial_sync_total_messages : Option ℕ
  pub last_notified_state : Option Text
  pub suspended : Bool
  pub migrating : Bool
  pub created_at : Option ℕ
  pub owners : List User

pub record SyncJob : Type 0 where
  pub id : Text
  pub account_id : Text
  pub status : JobStatus
  pub source : Text
  pub requested_at : ℕ
  pub started_at : Option ℕ
  pub completed_at : Option ℕ
  pub exit_code : Option ℤ
  pub log : Option Text
  pub mbsync_version : Option Text
  pub signal : Option Text
  pub failure_kind : Option Text

pub record StoreMigration : Type 0 where
  pub id : Text
  pub user_id : Option Text
  pub account_id : Option Text
  pub source_store_id : Text
  pub target_store_id : Text
  pub status : MigrationStatus
  pub total_files : ℕ
  pub copied_files : ℕ
  pub total_bytes : ℕ
  pub copied_bytes : ℕ
  pub error : Option Text
  pub started_at : Option ℕ
  pub completed_at : Option ℕ
  pub last_resumed_at : Option ℕ

pub data BackupStatus : Type 0 where
  idle running completed failed : BackupStatus

pub record BackupPolicy : Type 0 where
  pub id : Text
  pub account_id : Text
  pub last_status : BackupStatus
  pub last_error : Option Text
  pub last_run_at : Option ℕ
  pub last_backup_at : Option ℕ
  pub last_successful_run_at : Option ℕ

pub record BackupJob : Type 0 where
  pub id : Text
  pub policy_id : Text
  pub account_id : Text
  pub status : JobStatus
  pub source : Text
  pub requested_at : ℕ
  pub started_at : Option ℕ
  pub completed_at : Option ℕ
  pub failure_kind : Option Text
  pub log : Option Text
  pub snapshot_id : Option Text
  pub bytes_processed : ℕ
  pub bytes_added : ℕ

pub record AppCredential : Type 0 where
  pub id : Text
  pub user_id : Text
  pub name : Text
  pub token_prefix : Text
  pub secret_hash : Text
  pub scopes : Text
  pub expires_at : Option ℕ
  pub revoked_at : Option ℕ
  pub last_used_at : Option ℕ
  pub last_used_kind : Option Text

-- Truth of a nullable text: neither `None` nor empty.
abbrev pub truthy : Option Text → Bool
truthy none = false
truthy (some []) = false
truthy (some (c ∷ s)) = true

abbrev pub is_oauth2 : AuthType → Bool
is_oauth2 oauth2 = true
is_oauth2 app_password = false

-- The property of `Account`.
unfoldable pub is_authenticated : Account → Bool
is_authenticated a = not (is_oauth2 a.auth_type && not (truthy a.credentials))

abbrev pub is_error : SyncState → Bool
is_error error = true
is_error _ = false

abbrev pub is_needs_reauth : SyncState → Bool
is_needs_reauth needs_reauth = true
is_needs_reauth _ = false

abbrev pub is_syncing : SyncState → Bool
is_syncing syncing = true
is_syncing _ = false

abbrev pub is_failed : JobStatus → Bool
is_failed failed = true
is_failed _ = false

abbrev pub is_running : JobStatus → Bool
is_running running = true
is_running _ = false

-- `status.in_([JobStatus.pending, JobStatus.running])`.
abbrev pub is_live : JobStatus → Bool
is_live pending = true
is_live running = true
is_live _ = false
