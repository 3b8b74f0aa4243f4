-- ===== src/SyncProgress/Snapshot.antt =====
-- The data model of sync_progress.py. A `FolderProgress` object is shared by `per_folder`,
-- `folder_by_name` and the loop's `current_folder`; here it stands in `per_folder`, and the other
-- two are its name.
use mailfallback.Prelude.{ℕ, Bool, true, false, Option, none, List, [], ◌∷◌, String, if◌then◌else◌}
use mailfallback.Prelude.Text.{Text, text_eq}
use mailfallback.SyncProgress.Errors.{Category, Action}

pub data FolderPhase : Type 0 where
  opening loading pulling done : FolderPhase

pub record FolderProgress : Type 0 where
  pub name : Text
  pub phase : FolderPhase
  pub near : Option ℕ
  pub far : Option ℕ
  pub added_done : ℕ
  pub added_total : ℕ
  pub flagged_done : ℕ
  pub flagged_total : ℕ
  pub expunged_done : ℕ
  pub expunged_total : ℕ

-- `FolderProgress(name=name)`.
unfoldable pub new_folder : Text → FolderProgress
new_folder name = record {
  name = name;
  phase = FolderPhase.opening;
  near = none;
  far = none;
  added_done = 0;
  added_total = 0;
  flagged_done = 0;
  flagged_total = 0;
  expunged_done = 0;
  expunged_total = 0;
}

pub record ParsedError : Type 0 where
  pub at_line : ℕ
  pub category : Category
  pub user_message : String
  pub technical_detail : Text
  pub actionable : Bool
  pub action : Action

pub data Phase : Type 0 where
  queued starting connecting authenticating listing syncing finalizing done error : Phase

pub data EstimateSource : Type 0 where
  previous_sync live_count summary : EstimateSource

-- The `summary` dict.
pub record Summary : Type 0 where
  pub channels : ℕ
  pub boxes : ℕ
  pub far_added : ℕ
  pub far_flagged : ℕ
  pub far_expunged : ℕ
  pub far_deleted : ℕ
  pub near_added : ℕ
  pub near_flagged : ℕ
  pub near_expunged : ℕ
  pub near_deleted : ℕ

-- `events` is left out: the parser never writes it.
pub record ProgressSnapshot : Type 0 where
  pub phase : Phase
  pub current_channel : Option Text
  pub current_folder : Option Text
  pub connection_host : Option Text
  pub connection_ip : Option Text
  pub connection_port : Option ℕ
  pub auth_method : Option Text
  pub tls_info : Option Text
  pub folder_index : ℕ
  pub folder_total_estimate : Option ℕ
  pub folder_total_estimate_source : Option EstimateSource
  pub per_folder : List FolderProgress
  pub errors : List ParsedError
  pub warnings : List Text
  pub summary : Option Summary
  pub mbsync_version : Option Text
  pub raw_tail : List Text

-- `ProgressSnapshot()`.
unfoldable pub new_snapshot : ProgressSnapshot
new_snapshot = record {
  phase = queued;
  current_channel = none;
  current_folder = none;
  connection_host = none;
  connection_ip = none;
  connection_port = none;
  auth_method = none;
  tls_info = none;
  folder_index = 0;
  folder_total_estimate = none;
  folder_total_estimate_source = none;
  per_folder = [];
  errors = [];
  warnings = [];
  summary = none;
  mbsync_version = none;
  raw_tail = [];
}

-- The variables of the loop.
pub record Loop : Type 0 where
  pub snap : ProgressSnapshot
  pub current_folder : Option Text
  pub seen_synchronizing : Bool

-- `folder_name in folder_by_name`.
unfoldable pub has_folder : Text → List FolderProgress → Bool
has_folder name [] = false
has_folder name (f ∷ fs) = if text_eq f.name name then true else has_folder name fs

-- A write through `folder_by_name[name]`.
unfoldable pub update_folder :
    Text → (FolderProgress → FolderProgress) → List FolderProgress → List FolderProgress
update_folder name change [] = []
update_folder name change (f ∷ fs) =
    if text_eq f.name name then change f ∷ fs else f ∷ update_folder name change fs
