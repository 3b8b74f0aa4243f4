-- ===== src/MigrationService/Account/Endings.antt =====
-- How a run of an account's migration ends.
use mailfallback.Prelude.{ℕ, Bool, true, false, none, some, ◌≡◌, refl, sym, arith}
use mailfallback.Prelude.Text.{Text, text_eq, text_eq_refl}
use mailfallback.Models.{StoreMigration, MailStore, MigrationStatus}
use mailfallback.MailTree.{Dir, Disk, IsTree, dir_or_empty, set_dir}
use mailfallback.MigrationWorker.{Written, copy_tree, is_finished, prescan, verify_copy}
use mailfallback.MigrationWorker.Copying.{Fits}
use mailfallback.MigrationWorker.Counting.{copy_entries_ends}
use mailfallback.MigrationWorker.Verifying.{
  Fits-empty, Fits-self, copy_entries_total, Apart, Apart-empty,
}
use mailfallback.MigrationService.{
  MigrationRun, MigrationRows, before_cleaning, cleaned_row, copy_phase, on_progress, remove_old,
  start_copying, verify_phase, is_flagged,
}
use mailfallback.MigrationService.Account.{
  AccountMove, is_ready, clean_account, execute_account_migration,
}
use mailfallback.MigrationService.Account.Keeping.{walk_of, target_of, copy_phase-disk}

-- A run that meets no failing write, no request to cancel and no end of the process, and removes
-- what it is told to.
pub record IsUndisturbed (run : MigrationRun) (flagged : Bool) : Type 0 where
  pub writes : (n : ℕ) → run.write n ≡ Written.whole
  pub unasked : (n : ℕ) → run.asked n ≡ false
  pub unasked_verifying : run.asked_verifying ≡ false
  pub unasked_cleaning : run.asked_cleaning ≡ false
  pub unflagged : flagged ≡ false
  pub alive : run.killed_cleaning ≡ false
  pub removes : (d : Dir) → run.left d ≡ none

goes_on :
    (run : MigrationRun) (flagged : Bool) (u : IsUndisturbed run flagged) (f b : ℕ)
    (p : MigrationRows)
    → is_finished (on_progress run flagged f b p).1 ≡ true
unfolding on_progress
goes_on run flagged u f b p = ground (arith, u.unflagged, u.unasked f)

walk_ends :
    (run : MigrationRun) (flagged : Bool) (t : Text) (row : StoreMigration) (disk : Disk)
    (source : Dir)
    → IsUndisturbed run flagged
    → IsTree source
    → Fits source (dir_or_empty (disk t))
    → is_finished (walk_of run flagged t row disk source).outcome ≡ true
unfolding copy_tree
walk_ends run flagged t row disk source u tree fits =
    copy_entries_ends run.write (on_progress run flagged) source _ u.writes (goes_on run flagged u)
      tree fits refl

verify_phase-ready :
    (run : MigrationRun) (flagged : Bool) (s t : Text) (row : StoreMigration) (disk : Disk)
    → IsUndisturbed run flagged
    → (prescan (dir_or_empty (disk s))).0 ≡ (prescan (dir_or_empty (disk t))).0
    → is_ready (verify_phase run flagged s t row disk).ending ≡ true
unfolding verify_phase verify_copy
verify_phase-ready run flagged s t row disk u same =
    ground (arith, u.unflagged, u.unasked_verifying, u.unasked_cleaning, same)

copy_phase-ready_of :
    (run : MigrationRun) (flagged : Bool) (s t : Text) (row : StoreMigration) (disk : Disk)
    (source : Dir)
    → IsUndisturbed run flagged
    → IsTree source
    → Fits source (dir_or_empty (disk t))
    → (prescan
        (dir_or_empty (set_dir t (some (walk_of run flagged t row disk source).tree) disk s))).0
      ≡ (prescan (walk_of run flagged t row disk source).tree).0
    → is_ready (copy_phase run flagged s t row disk source).ending ≡ true
unfolding copy_phase set_dir
copy_phase-ready_of run flagged s t row disk source u tree fits same =
    let walk = walk_of run flagged t row disk source in
    ground (
      arith,
      walk_ends run flagged t row disk source u tree fits,
      text_eq_refl t,
      verify_phase-ready run flagged s t walk.progress.row (set_dir t (some walk.tree) disk) u,
    )

walk_total :
    (run : MigrationRun) (flagged : Bool) (t : Text) (row : StoreMigration) (disk : Disk)
    (source : Dir)
    → IsUndisturbed run flagged
    → IsTree source
    → disk t ≡ none
    → (prescan (walk_of run flagged t row disk source).tree).0 ≡ (prescan source).0
unfolding copy_tree prescan
walk_total run flagged t row disk source u tree absent =
    let new : dir_or_empty (disk t) ≡ Dir.empty = rw absent refl in
    let apart : Apart source (dir_or_empty (disk t)) = rw new (Apart-empty source) in
    let fits : Fits source (dir_or_empty (disk t)) = rw new (Fits-empty source tree) in
    let total =
      copy_entries_total run.write (on_progress run flagged) source _ tree apart
        (walk_ends run flagged t row disk source u tree fits) in
    let nothing : (prescan (dir_or_empty (disk t))).0 ≡ 0 = rw new refl in ground (arith, total)

before_cleaning-some :
    (run : MigrationRun) (flagged : Bool) (s t : Text) (row : StoreMigration) (disk : Disk)
    (source : Dir)
    → disk s ≡ some source
    → before_cleaning run flagged s t row disk
      ≡ copy_phase run flagged s t (start_copying run row) disk source
unfolding before_cleaning
before_cleaning-some run flagged s t row disk source h = ground arith

-- A run that reaches the clean phase and is not killed there.
cleaned :
    (run : MigrationRun) (store : MailStore) (w : AccountMove) (source : Dir)
    → IsUndisturbed run (is_flagged w.migration.id w.cancel_flags)
    → IsTree source
    → w.disk w.account.maildir_path ≡ some source
    → Fits source (dir_or_empty (w.disk (target_of store w)))
    → (prescan (
        dir_or_empty (
          set_dir
            (target_of store w)
            (some
              (walk_of run
                (is_flagged w.migration.id w.cancel_flags)
                (target_of store w)
                (start_copying run w.migration)
                w.disk
                source).tree)
            w.disk
            w.account.maildir_path))).0
      ≡ (prescan
          (walk_of run
            (is_flagged w.migration.id w.cancel_flags)
            (target_of store w)
            (start_copying run w.migration)
            w.disk
            source).tree).0
    → ((execute_account_migration run store w).migration.status ≡ MigrationStatus.completed)
      × (((execute_account_migration run store w).account ≡ (record w.account {
        maildir_path = target_of store w;
        store_id = store.id;
        migrating = false;
      }))
          × ((execute_account_migration run store w).disk
              ≡ remove_old run w.account.maildir_path (
                  set_dir
                    (target_of store w)
                    (some
                      (walk_of run
                        (is_flagged w.migration.id w.cancel_flags)
                        (target_of store w)
                        (start_copying run w.migration)
                        w.disk
                        source).tree)
                    w.disk)))
unfolding execute_account_migration clean_account cleaned_row
cleaned run store w source u tree there fits same =
    let s = w.account.maildir_path in
    let t = target_of store w in
    let flagged = is_flagged w.migration.id w.cancel_flags in
    let row = start_copying run w.migration in
    let phase = copy_phase run flagged s t row w.disk source in
    let ready : is_ready phase.ending ≡ true =
      copy_phase-ready_of run flagged s t row w.disk source u tree fits same in
    let same_phase = before_cleaning-some run flagged s t w.migration w.disk source there in
    (
      ground (arith, same_phase, u.alive),
      (
        ground (arith, same_phase, u.alive),
        ground (arith, same_phase, copy_phase-disk run flagged s t row w.disk source),
      ),
    )

-- An undisturbed run into an absent target that is another path completes: the account stands at
-- the target and is let go, and the old directory is gone.
pub execute_account_migration_completes :
    (run : MigrationRun) (store : MailStore) (w : AccountMove) (source : Dir)
    → IsUndisturbed run (is_flagged w.migration.id w.cancel_flags)
    → IsTree source
    → w.disk w.account.maildir_path ≡ some source
    → w.disk (target_of store w) ≡ none
    → text_eq (target_of store w) w.account.maildir_path ≡ false
    → ((execute_account_migration run store w).migration.status ≡ MigrationStatus.completed)
      × (((execute_account_migration run store w).account ≡ (record w.account {
        maildir_path = target_of store w;
        store_id = store.id;
        migrating = false;
      }))
          × ((execute_account_migration run store w).disk w.account.maildir_path ≡ none))
unfolding set_dir remove_old
execute_account_migration_completes run store w source u tree there absent ne =
    let s = w.account.maildir_path in
    let t = target_of store w in
    let flagged = is_flagged w.migration.id w.cancel_flags in
    let row = start_copying run w.migration in
    let fits : Fits source (dir_or_empty (w.disk t)) = rw absent (Fits-empty source tree) in
    let total = walk_total run flagged t row w.disk source u tree absent in
    let result = cleaned run store w source u tree there fits (ground arith) in
    (result.0, (result.1.0, ground (arith, result.1.1, text_eq_refl s, u.removes source)))

-- A run that nothing disturbs (no failing write, no request to cancel, no end of the process, and
-- an rmtree that removes everything), over a directory that lists no name twice, whose account
-- already stands at the target path (the state that a process leaves which ends between the new
-- path and the last commit, and which the next start resumes): it completes, keeps the account's
-- path, and removes the directory at that path.
pub execute_account_migration_resumed :
    (run : MigrationRun) (store : MailStore) (w : AccountMove) (source : Dir)
    → IsUndisturbed run (is_flagged w.migration.id w.cancel_flags)
    → IsTree source
    → w.disk w.account.maildir_path ≡ some source
    → w.account.maildir_path ≡ target_of store w
    → ((execute_account_migration run store w).migration.status ≡ MigrationStatus.completed)
      × (((execute_account_migration run store w).account.maildir_path ≡ w.account.maildir_path)
          × ((execute_account_migration run store w).disk w.account.maildir_path ≡ none))
unfolding set_dir remove_old
execute_account_migration_resumed run store w source u tree there same =
    let s = w.account.maildir_path in
    let t = target_of store w in
    let flagged = is_flagged w.migration.id w.cancel_flags in
    let row = start_copying run w.migration in
    let walk = walk_of run flagged t row w.disk source in
    let at_target : w.disk t ≡ some source = rw (sym same) there in
    let here : dir_or_empty (w.disk t) ≡ source = rw at_target refl in
    let fits : Fits source (dir_or_empty (w.disk t)) = rw here (Fits-self source tree) in
    let result =
      cleaned run store w source u tree there fits (ground (arith, same, text_eq_refl t)) in
    (
      result.0,
      (
        ground (arith, result.1.0, same),
        ground (arith, result.1.1, same, text_eq_refl s, u.removes walk.tree),
      ),
    )
