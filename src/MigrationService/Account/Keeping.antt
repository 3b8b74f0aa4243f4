-- ===== src/MigrationService/Account/Keeping.antt =====
-- What a run of an account's migration does to the mail.
use mailfallback.Prelude.{
  Bool, true, false, some, List, [], ◌∷◌, ◌≡◌, refl, ◌∙◌, arith, Bool-cases, inl, inr,
  if◌then◌else◌,
}
use mailfallback.Prelude.Text.{Text, text_eq, text_eq_refl, text_eq_sound}
use mailfallback.Models.{StoreMigration, MigrationStatus, MailStore}
use mailfallback.MailTree.{Dir, Disk, IsTree, dir_or_empty, file_at, file_under, set_dir}
use mailfallback.MigrationWorker.{Walk, Outcome, copy_tree, is_finished, prescan}
use mailfallback.MigrationWorker.Copying.{Fits, copy_entries_complete}
use mailfallback.MigrationService.{
  MigrationRun, MigrationRows, CopyEnding, before_cleaning, cleaned_row, commit, ending_of,
  copy_phase, on_progress, remove_old, start_copying, verify_phase, flags_after, is_flagged,
  discard, is_cancelled,
}
use mailfallback.MigrationService.Account.{
  AccountMove, is_ready, clean_account, stop_account, execute_account_migration,
}
use mailfallback.StoreService.Paths.{derive_maildir_path}

-- The walk of a run.
abbrev pub walk_of : MigrationRun → Bool → Text → StoreMigration → Disk → Dir → Walk MigrationRows
walk_of run flagged target_path row disk source =
    copy_tree run.write (on_progress run flagged) source (disk target_path)
      (commit (record row { total_files = (prescan source).0; total_bytes = (prescan source).1 }))

verify_phase-disk :
    (run : MigrationRun) (flagged : Bool) (s t : Text) (row : StoreMigration) (disk : Disk)
    → (verify_phase run flagged s t row disk).disk ≡ disk
unfolding verify_phase
verify_phase-disk run flagged s t row disk = refl

pub copy_phase-disk :
    (run : MigrationRun) (flagged : Bool) (s t : Text) (row : StoreMigration) (disk : Disk)
    (source : Dir)
    → (copy_phase run flagged s t row disk source).disk
      ≡ set_dir t (some (walk_of run flagged t row disk source).tree) disk
unfolding copy_phase
copy_phase-disk run flagged s t row disk source =
    let walk = walk_of run flagged t row disk source in
    ground
      (arith, verify_phase-disk run flagged s t walk.progress.row (set_dir t (some walk.tree) disk))

is_ready-ending_of : (o : Outcome) → is_ready (ending_of o) ≡ is_finished o
is_ready-ending_of Outcome.finished = refl
is_ready-ending_of Outcome.cancelled = refl
is_ready-ending_of (Outcome.raised message) = refl
is_ready-ending_of Outcome.died = refl

copy_phase-ready :
    (run : MigrationRun) (flagged : Bool) (s t : Text) (row : StoreMigration) (disk : Disk)
    (source : Dir)
    → is_ready (copy_phase run flagged s t row disk source).ending ≡ true
    → is_finished (walk_of run flagged t row disk source).outcome ≡ true
unfolding copy_phase
copy_phase-ready run flagged s t row disk source h =
    ground (arith, is_ready-ending_of (walk_of run flagged t row disk source).outcome)

pub text_eq_sym : (s t : Text) → text_eq s t ≡ text_eq t s
text_eq_sym s t = elim (Bool-cases (text_eq s t)) [
  | inl e ↦ ground (arith, text_eq_sound s t e)
  | inr e ↦ elim (Bool-cases (text_eq t s)) [
    | inl e' ↦ ground (arith, text_eq_sound t s e')
    | inr e' ↦ ground arith
  ]
]

-- The source stays as it is before the clean phase, and a run that gets there has all of it at the
-- target.
before_cleaning-source :
    (run : MigrationRun) (flagged : Bool) (s t : Text) (row : StoreMigration) (disk : Disk)
    (source : Dir)
    → text_eq t s ≡ false
    → disk s ≡ some source
    → (before_cleaning run flagged s t row disk).disk s ≡ some source
unfolding before_cleaning set_dir
before_cleaning-source run flagged s t row disk source ne there =
    ground (arith, copy_phase-disk run flagged s t (start_copying run row) disk source)

before_cleaning-target :
    (run : MigrationRun) (flagged : Bool) (s t : Text) (row : StoreMigration) (disk : Disk)
    (source : Dir) (path : List Text) (content : Text)
    → disk s ≡ some source
    → IsTree source
    → Fits source (dir_or_empty (disk t))
    → is_ready (before_cleaning run flagged s t row disk).ending ≡ true
    → file_at source path ≡ some content
    → file_under (before_cleaning run flagged s t row disk).disk t path ≡ some content
unfolding before_cleaning set_dir file_under copy_tree
before_cleaning-target run flagged s t row disk source path content there tree fits ready at =
    let started = start_copying run row in
    let walk = walk_of run flagged t started disk source in
    let done : is_finished walk.outcome ≡ true =
      copy_phase-ready run flagged s t started disk source (ground arith) in
    let copied : file_at walk.tree path ≡ some content =
      copy_entries_complete run.write (on_progress run flagged) source _ tree fits done path content
        at in
    ground (arith, text_eq_refl t, copy_phase-disk run flagged s t started disk source)

-- The directory that a move of the account to the store fills.
abbrev pub target_of : MailStore → AccountMove → Text
target_of store w = derive_maildir_path store.path w.account.id

remove_old-other :
    (run : MigrationRun) (s t : Text) (disk : Disk) (path : List Text)
    → text_eq s t ≡ false
    → file_under (remove_old run s disk) t path ≡ file_under disk t path
unfolding remove_old file_under set_dir
remove_old-other run s t disk path ne = ground arith

file_under-some :
    (disk : Disk) (p : Text) (d : Dir) (path : List Text)
    → disk p ≡ some d
    → file_under disk p path ≡ file_at d path
unfolding file_under
file_under-some disk p d path h = rw h refl

-- However a run ends (done, cancelled, with an error, with a failed check, or with the process, a
-- write cut short included), every regular file that the account's directory held before the run
-- is below the account's path afterwards, with its content: where the source directory lists no
-- name twice, the target is another path, and what the target already holds under a name of the
-- source is that same file or directory.
pub execute_account_migration-keeps :
    (run : MigrationRun) (store : MailStore) (w : AccountMove) (source : Dir) (path : List Text)
    (content : Text)
    → text_eq (target_of store w) w.account.maildir_path ≡ false
    → w.disk w.account.maildir_path ≡ some source
    → IsTree source
    → Fits source (dir_or_empty (w.disk (target_of store w)))
    → file_at source path ≡ some content
    → file_under
        (execute_account_migration run store w).disk
        (execute_account_migration run store w).account.maildir_path
        path
      ≡ some content
unfolding execute_account_migration clean_account stop_account
execute_account_migration-keeps run store w source path content ne there tree fits at =
    let s = w.account.maildir_path in
    let t = target_of store w in
    let flagged = is_flagged w.migration.id w.cancel_flags in
    let phase = before_cleaning run flagged s t w.migration w.disk in
    let kept : file_under phase.disk s path ≡ some content =
      file_under-some phase.disk s source path
        (before_cleaning-source run flagged s t w.migration w.disk source ne there)
      ∙ at in
    elim (Bool-cases (is_ready phase.ending)) [
      | inl ready ↦ rw ready (
          remove_old-other run s t phase.disk path (text_eq_sym s t ∙ ne)
          ∙ before_cleaning-target run flagged s t w.migration w.disk source path content there tree
              fits ready at)
      | inr stopped ↦ rw stopped kept
    ]

is_flagged-discard : (id : Text) (flags : List Text) → is_flagged id (discard id flags) ≡ false
unfolding is_flagged discard
is_flagged-discard id [] = refl
is_flagged-discard id (flag ∷ flags) = ground (arith, is_flagged-discard id flags)

is_flagged-flags_after :
    (ending : CopyEnding) (id : Text) (flags : List Text)
    → is_flagged id (flags_after ending id flags) ≡ false
unfolding flags_after is_flagged
is_flagged-flags_after CopyEnding.died id flags = refl
is_flagged-flags_after CopyEnding.ready id flags = is_flagged-discard id flags
is_flagged-flags_after CopyEnding.cancelled id flags = is_flagged-discard id flags
is_flagged-flags_after (CopyEnding.mismatch detail) id flags = is_flagged-discard id flags
is_flagged-flags_after (CopyEnding.raised message) id flags = is_flagged-discard id flags

-- How a run ends before its clean phase.
abbrev pub ending_before : MigrationRun → MailStore → AccountMove → CopyEnding
ending_before run store w =
    (before_cleaning run (is_flagged w.migration.id w.cancel_flags) w.account.maildir_path
      (target_of store w) w.migration w.disk).ending

-- A run that fails leaves the account's path and store as they were, and no request to cancel it;
-- a run that was cancelled lets the account go, and every other that fails leaves its mark of a
-- migration as it was.
pub execute_account_migration_failed :
    (run : MigrationRun) (store : MailStore) (w : AccountMove)
    → (execute_account_migration run store w).migration.status ≡ MigrationStatus.failed
    → ((execute_account_migration run store w).account.maildir_path ≡ w.account.maildir_path)
      × (((execute_account_migration run store w).account.store_id ≡ w.account.store_id)
          × ((is_flagged w.migration.id (execute_account_migration run store w).cancel_flags
                ≡ false)
              × ((execute_account_migration run store w).account.migrating ≡ (
                  if is_cancelled (ending_before run store w)
                  then false
                  else w.account.migrating))))
unfolding execute_account_migration clean_account stop_account cleaned_row
execute_account_migration_failed run store w h =
    let phase =
      before_cleaning run (is_flagged w.migration.id w.cancel_flags) w.account.maildir_path
        (target_of store w) w.migration w.disk in
    elim (Bool-cases (is_ready phase.ending)) [
      | inl ready ↦ (ground arith, (ground arith, (ground arith, ground arith)))
      | inr stopped ↦ (
        ground arith,
        (
          ground arith,
          (
            ground (arith, is_flagged-flags_after phase.ending w.migration.id w.cancel_flags),
            ground arith,
          ),
        ),
      )
    ]
