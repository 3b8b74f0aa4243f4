-- ===== src/MigrationService/Home.antt =====
-- execute_home_migration.
use mailfallback.Prelude.{false, List, [], ◌++◌, if◌then◌else◌}
use mailfallback.Prelude.Text.{Text, codes}
use mailfallback.Models.{StoreMigration, MailStore, User}
use mailfallback.MailTree.{Disk}
use mailfallback.MigrationService.{
  MigrationRun, CopyPhase, before_cleaning, cleaned_row, remove_old, stopped_row, flags_after,
  is_cancelled, is_flagged, failed_row, discard,
}
use mailfallback.MigrationService.Account.{is_ready}

pub record HomeMove : Type 0 where
  pub migration : StoreMigration
  pub user : User
  pub disk : Disk
  pub cancel_flags : List Text

-- `f"{store.path}/.dovecot-home/{user.username}"`.
unfoldable pub home_path : MailStore → User → Text
home_path store user = store.path ++ codes "/.dovecot-home/" ++ user.username

unfoldable pub clean_home : MigrationRun → Text → MailStore → CopyPhase → HomeMove → HomeMove
unfolding cleaned_row remove_old discard
clean_home run source_home target_store phase w = record {
  migration = cleaned_row run phase.rows.row;
  user = record w.user {
    store_id = target_store.id;
    migrating = if run.killed_cleaning then w.user.migrating else false;
  };
  disk = remove_old run source_home phase.disk;
  cancel_flags = if run.killed_cleaning then [] else discard w.migration.id w.cancel_flags;
}

unfoldable pub stop_home : CopyPhase → HomeMove → HomeMove
unfolding stopped_row flags_after
stop_home phase w = record {
  migration = stopped_row phase.ending phase.rows;
  user = record w.user {
    migrating = if is_cancelled phase.ending then false else w.user.migrating;
  };
  disk = phase.disk;
  cancel_flags = flags_after phase.ending w.migration.id w.cancel_flags;
}

-- A run with the three rows found.
unfoldable pub execute_home_migration : MigrationRun → MailStore → MailStore → HomeMove → HomeMove
unfolding clean_home stop_home before_cleaning is_flagged home_path
execute_home_migration run source_store target_store w =
    let source_home = home_path source_store w.user in
    let phase =
      before_cleaning run (is_flagged w.migration.id w.cancel_flags) source_home
        (home_path target_store w.user) w.migration w.disk in
    if is_ready phase.ending
    then clean_home run source_home target_store phase w
    else stop_home phase w

-- A run that misses a row.
unfoldable pub miss_home : StoreMigration → StoreMigration
unfolding failed_row
miss_home row = failed_row (codes "Missing user or store record") row
