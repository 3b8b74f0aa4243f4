-- ===== src/MigrationService/Tests.antt =====
-- Runs of migrations on small trees.
use mailfallback.Prelude.{true, false, none, some, List, [], ◌∷◌, ◌≡◌, refl, if◌then◌else◌, arith}
use mailfallback.Prelude.Text.{Text, codes, text_eq}
use mailfallback.Models.{StoreMigration, MigrationStatus, MailStore}
use mailfallback.Models.Examples.{mailbox}
use mailfallback.MailTree.{Dir, Entry, Disk, IsTree, file_under, find, file_at}
use mailfallback.MigrationWorker.{Written, copy_tree}
use mailfallback.MigrationWorker.Copying.{Fits}
use mailfallback.MigrationWorker.Verifying.{Fits-empty}
use mailfallback.StoreService.Paths.{derive_maildir_path}
use mailfallback.MigrationService.{MigrationRun, is_cancelled, is_flagged}
use mailfallback.MigrationService.Account.{AccountMove, execute_account_migration}
use mailfallback.MigrationService.Account.Keeping.{
  ending_before, target_of, execute_account_migration-keeps, execute_account_migration_failed,
}
use mailfallback.MigrationService.Account.Endings.{
  IsUndisturbed, execute_account_migration_completes, execute_account_migration_resumed,
}
use mailfallback.MigrationService.Drain.{Tables, tables_of, initiate_account_migration}
use mailfallback.MigrationService.Drain.OneLive.{
  Marked, initiate_account_migration-Marked, live_of, is_marked,
}

-- `cur/m1`, and a link beside it.
abbrev mail : Dir
mail =
    Dir.entry (codes "cur") (Entry.dir (Dir.entry (codes "m1") (Entry.file (codes "Hi")) Dir.empty))
      (Dir.entry (codes "link") Entry.special Dir.empty)

abbrev m1 : List Text
m1 = codes "cur" ∷ codes "m1" ∷ []

abbrev store : MailStore
store = record {
  id = codes "s2";
  name = codes "new";
  path = codes "/new/";
  enabled = true;
  is_default = false;
}

-- The mail stands at `/old/a` alone.
abbrev disk : Disk
disk p = if text_eq (codes "/old/a") p then some mail else none

-- The mail stands at `/new/a` alone.
abbrev moved_disk : Disk
moved_disk p = if text_eq (codes "/new/a") p then some mail else none

abbrev pending_row : StoreMigration
pending_row = record {
  id = codes "g";
  user_id = none;
  account_id = some (codes "a");
  source_store_id = codes "s1";
  target_store_id = codes "s2";
  status = MigrationStatus.pending;
  total_files = 0;
  copied_files = 0;
  total_bytes = 0;
  copied_bytes = 0;
  error = none;
  started_at = none;
  completed_at = none;
  last_resumed_at = none;
}

abbrev world : AccountMove
world = record {
  migration = pending_row;
  account = record mailbox { migrating = true };
  disk = disk;
  cancel_flags = [];
}

abbrev quiet_run : MigrationRun
quiet_run = record {
  now = 10;
  done_at = 20;
  write = λ n. Written.whole;
  asked = λ n. false;
  asked_verifying = false;
  asked_cleaning = false;
  left = λ d. none;
  killed_cleaning = false;
}

-- The disk is full after one byte of the file.
abbrev full_run : MigrationRun
full_run = record quiet_run {
  write = λ n. Written.broken (some (codes "H")) (codes "No space left on device");
}

quiet : IsUndisturbed quiet_run false
quiet = record {
  writes = λ n. refl;
  unasked = λ n. refl;
  unasked_verifying = refl;
  unasked_cleaning = refl;
  unflagged = refl;
  alive = refl;
  removes = λ d. refl;
}

mail-IsTree : IsTree mail
unfolding IsTree find text_eq
mail-IsTree = (refl, ((refl, tt), (refl, tt)))

mail-Fits : Fits mail Dir.empty
mail-Fits = Fits-empty mail mail-IsTree

execute_account_migration-keeps_example :
    file_under
      (execute_account_migration full_run store world).disk
      (execute_account_migration full_run store world).account.maildir_path
      m1
    ≡ some (codes "Hi")
unfolding text_eq file_at find derive_maildir_path
execute_account_migration-keeps_example =
    execute_account_migration-keeps full_run store world mail m1 (codes "Hi") refl refl mail-IsTree
      mail-Fits refl

execute_account_migration_completes_example :
    ((execute_account_migration quiet_run store world).migration.status ≡ MigrationStatus.completed)
    × (((execute_account_migration quiet_run store world).account ≡ (record world.account {
      maildir_path = target_of store world;
      store_id = store.id;
      migrating = false;
    }))
        × ((execute_account_migration quiet_run store world).disk world.account.maildir_path
            ≡ none))
unfolding text_eq is_flagged derive_maildir_path
execute_account_migration_completes_example =
    execute_account_migration_completes quiet_run store world mail quiet mail-IsTree refl refl refl

-- What a process leaves that ends in the clean phase.
abbrev resumed_world : AccountMove
resumed_world = record {
  migration = record pending_row { status = MigrationStatus.cleaning };
  account = record world.account { maildir_path = codes "/new/a"; store_id = codes "s2" };
  disk = moved_disk;
  cancel_flags = [];
}

execute_account_migration_resumed_example :
    ((execute_account_migration quiet_run store resumed_world).migration.status
      ≡ MigrationStatus.completed)
    × (((execute_account_migration quiet_run store resumed_world).account.maildir_path
          ≡ resumed_world.account.maildir_path)
        × ((execute_account_migration quiet_run store resumed_world).disk
              resumed_world.account.maildir_path
            ≡ none))
unfolding text_eq is_flagged derive_maildir_path
execute_account_migration_resumed_example =
    execute_account_migration_resumed quiet_run store resumed_world mail quiet mail-IsTree refl refl

execute_account_migration_failed_example :
    ((execute_account_migration full_run store world).account.maildir_path
      ≡ world.account.maildir_path)
    × (((execute_account_migration full_run store world).account.store_id ≡ world.account.store_id)
        × ((is_flagged world.migration.id
                (execute_account_migration full_run store world).cancel_flags
              ≡ false)
            × ((execute_account_migration full_run store world).account.migrating ≡ (
                if is_cancelled (ending_before full_run store world)
                then false
                else world.account.migrating))))
unfolding text_eq execute_account_migration find copy_tree
execute_account_migration_failed_example =
    execute_account_migration_failed full_run store world refl

-- One account on a store, and another store.
abbrev tables : Tables
tables = record { accounts = mailbox ∷ []; users = []; stores = store ∷ []; migrations = [] }

tables-Marked : Marked tables
unfolding Marked live_of is_marked
tables-Marked id = omega arith

initiate_account_migration-Marked_example :
    Marked
      (tables_of tables (initiate_account_migration (codes "g") (codes "a") (codes "s2") tables))
initiate_account_migration-Marked_example =
    initiate_account_migration-Marked (codes "g") (codes "a") (codes "s2") tables tables-Marked
