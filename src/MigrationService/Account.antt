-- ===== src/MigrationService/Account.antt =====
-- execute_account_migration.
pub mod Endings
pub mod Keeping
use mailfallback.Prelude.{ℕ, Bool, true, false, Option, none, some, List, [], ◌||◌, if◌then◌else◌}
use mailfallback.Prelude.Text.{Text, codes}
use mailfallback.Models.{StoreMigration, MailStore}
use mailfallback.MailTree.{Disk}
use mailfallback.MigrationService.{
  MigrationRun, CopyPhase, CopyEnding, before_cleaning, cleaned_row, remove_old, stopped_row,
  flags_after, is_cancelled, is_flagged, failed_row, discard,
}
use mailfallback.StoreService.Paths.{derive_maildir_path}
use mailfallback.Models

pub record AccountMove : Type 0 where
  pub migration : StoreMigration
  pub account : Models.Account
  pub disk : Disk
  pub cancel_flags : List Text

-- The clean phase: the new path is committed before the old directory goes.
unfoldable pub clean_account :
    MigrationRun → Text → MailStore → CopyPhase → AccountMove → AccountMove
unfolding cleaned_row remove_old discard
clean_account run target_path target_store phase w = record {
  migration = cleaned_row run phase.rows.row;
  account = record w.account {
    maildir_path = target_path;
    store_id = target_store.id;
    migrating = if run.killed_cleaning then w.account.migrating else false;
  };
  disk = remove_old run w.account.maildir_path phase.disk;
  cancel_flags = if run.killed_cleaning then [] else discard w.migration.id w.cancel_flags;
}

unfoldable pub stop_account : CopyPhase → AccountMove → AccountMove
unfolding stopped_row flags_after
stop_account phase w = record {
  migration = stopped_row phase.ending phase.rows;
  account = record w.account {
    migrating = if is_cancelled phase.ending then false else w.account.migrating;
  };
  disk = phase.disk;
  cancel_flags = flags_after phase.ending w.migration.id w.cancel_flags;
}

abbrev pub is_ready : CopyEnding → Bool
is_ready CopyEnding.ready = true
is_ready _ = false

-- A run with both rows found.
unfoldable pub execute_account_migration : MigrationRun → MailStore → AccountMove → AccountMove
unfolding clean_account stop_account before_cleaning is_flagged derive_maildir_path
execute_account_migration run target_store w =
    let target_path = derive_maildir_path target_store.path w.account.id in
    let phase =
      before_cleaning run (is_flagged w.migration.id w.cancel_flags) w.account.maildir_path
        target_path w.migration w.disk in
    if is_ready phase.ending
    then clean_account run target_path target_store phase w
    else stop_account phase w

-- A run that misses a row.
unfoldable pub miss_account : StoreMigration → StoreMigration
unfolding failed_row
miss_account row = failed_row (codes "Missing account or store record") row
