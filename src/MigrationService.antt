-- ===== src/MigrationService.antt =====
-- src/mailfallback/services/migration_service.py: the run of one migration. The rows that its
-- queries find are arguments, and what the run meets (writes, cancellations, the end of the
-- process) is a MigrationRun.
pub mod Account
pub mod Drain
pub mod Home
mod Tests
use mailfallback.Prelude.{
  ℕ, zero, suc, ◌%◌, ◌==◌, Bool, true, false, not, Option, none, some, List, [], ◌∷◌, ◌++◌, any,
  keep, if◌then◌else◌, is_some, ◌||◌,
}
use mailfallback.Prelude.Text.{Text, codes, text_eq}
use mailfallback.Models.{StoreMigration, MigrationStatus}
use mailfallback.MailTree.{Dir, Disk, dir_or_empty, set_dir}
use mailfallback.MigrationWorker.{
  Written, Outcome, Walk, is_finished, prescan, copy_tree, verify_copy,
}

-- `asked n` says that a request to cancel came before the n-th call of on_progress, `left` what
-- `rmtree` with `ignore_errors` leaves of a tree, and `killed_cleaning` that the process ends
-- between the new path and the last commit.
pub record MigrationRun : Type 0 where
  pub now : ℕ
  pub done_at : ℕ
  pub write : ℕ → Written
  pub asked : ℕ → Bool
  pub asked_verifying : Bool
  pub asked_cleaning : Bool
  pub left : Dir → Option Dir
  pub killed_cleaning : Bool

-- The row, and the row as it was at the last commit.
pub record MigrationRows : Type 0 where
  pub row : StoreMigration
  pub saved : StoreMigration

abbrev pub commit : StoreMigration → MigrationRows
commit row = record { row = row; saved = row }

-- How the part of a run up to the clean phase ends.
pub data CopyEnding : Type 0 where
  ready cancelled died : CopyEnding
  mismatch : Text → CopyEnding
  raised : Text → CopyEnding

pub record CopyPhase : Type 0 where
  pub rows : MigrationRows
  pub disk : Disk
  pub ending : CopyEnding

-- `request_migration_cancel`, and `migration_id in _cancel_flags`.
unfoldable pub request_migration_cancel : Text → List Text → List Text
request_migration_cancel id flags = id ∷ flags

unfoldable pub is_flagged : Text → List Text → Bool
is_flagged id flags = any (text_eq id) flags

unfoldable pub discard : Text → List Text → List Text
discard id flags = keep (λ (flag : Text). not (text_eq id flag)) flags

-- A failing check of the flag comes before the counters; a hundredth call commits.
unfoldable pub on_progress : MigrationRun → Bool → ℕ → ℕ → MigrationRows → MigrationRows × Outcome
on_progress run flagged files bytes p =
    let row : StoreMigration = record p.row { copied_files = files; copied_bytes = bytes } in
    if flagged || run.asked files
    then (p, Outcome.cancelled)
    else (record { row = row; saved = if files % 100 == 0 then row else p.saved }, Outcome.finished)

abbrev pub ending_of : Outcome → CopyEnding
ending_of Outcome.finished = CopyEnding.ready
ending_of Outcome.cancelled = CopyEnding.cancelled
ending_of (Outcome.raised message) = CopyEnding.raised message
ending_of Outcome.died = CopyEnding.died

-- After the copy: the check of the counts, and the last check of the flag.
unfoldable pub verify_phase : MigrationRun → Bool → Text → Text → StoreMigration → Disk → CopyPhase
verify_phase run flagged source_path target_path row disk =
    let rows = commit (record row { status = MigrationStatus.verifying }) in
    let (ok, detail) =
      verify_copy (dir_or_empty (disk source_path)) (dir_or_empty (disk target_path)) in
    record {
      rows = rows;
      disk = disk;
      ending =
          if flagged || run.asked_verifying
          then CopyEnding.cancelled
          else if not ok
          then CopyEnding.mismatch detail
          else if run.asked_cleaning
          then CopyEnding.cancelled
          else CopyEnding.ready;
    }

-- The scan and the copy of a source that is there.
unfoldable pub copy_phase :
    MigrationRun → Bool → Text → Text → StoreMigration → Disk → Dir → CopyPhase
unfolding on_progress verify_phase set_dir
copy_phase run flagged source_path target_path row disk source =
    let rows =
      commit (record row { total_files = (prescan source).0; total_bytes = (prescan source).1 }) in
    let walk = copy_tree run.write (on_progress run flagged) source (disk target_path) rows in
    let disk' = set_dir target_path (some walk.tree) disk in
    if is_finished walk.outcome
    then verify_phase run flagged source_path target_path walk.progress.row disk'
    else record { rows = walk.progress; disk = disk'; ending = ending_of walk.outcome }

-- With no source there is nothing to copy; the totals wait for the next commit.
unfoldable pub skip_phase : MigrationRun → Bool → MigrationRows → Disk → CopyPhase
skip_phase run flagged rows disk = record {
  rows = record rows { row = record rows.row { total_files = 0; total_bytes = 0 } };
  disk = disk;
  ending = if flagged || run.asked_cleaning then CopyEnding.cancelled else CopyEnding.ready;
}

-- The row as the run starts.
unfoldable pub start_copying : MigrationRun → StoreMigration → StoreMigration
start_copying run row = record row {
  status = MigrationStatus.copying;
  started_at = some run.now;
  last_resumed_at = if is_some row.last_resumed_at then row.last_resumed_at else some run.now;
}

-- A run up to the clean phase.
unfoldable pub before_cleaning :
    MigrationRun → Bool → Text → Text → StoreMigration → Disk → CopyPhase
unfolding copy_phase skip_phase start_copying
before_cleaning run flagged source_path target_path row disk =
    let started = start_copying run row in
    elim (disk source_path) [
      | some source ↦ copy_phase run flagged source_path target_path started disk source
      | none ↦ skip_phase run flagged (commit started) disk
    ]

unfoldable pub failed_row : Text → StoreMigration → StoreMigration
failed_row message row = record row { status = MigrationStatus.failed; error = some message }

-- The row that a run leaves that does not reach the clean phase.
unfoldable pub stopped_row : CopyEnding → MigrationRows → StoreMigration
unfolding failed_row
stopped_row CopyEnding.ready rows = rows.row
stopped_row CopyEnding.cancelled rows = failed_row (codes "Cancelled by admin") rows.row
stopped_row CopyEnding.died rows = rows.saved
stopped_row (CopyEnding.mismatch detail) rows = failed_row detail rows.row
stopped_row (CopyEnding.raised message) rows = failed_row message rows.row

abbrev pub is_cancelled : CopyEnding → Bool
is_cancelled CopyEnding.cancelled = true
is_cancelled _ = false

-- `_cancel_flags` after a run: the flag is taken down, and the set ends with the process.
unfoldable pub flags_after : CopyEnding → Text → List Text → List Text
unfolding discard
flags_after CopyEnding.died id flags = []
flags_after _ id flags = discard id flags

-- The row of a run that reached the clean phase.
unfoldable pub cleaned_row : MigrationRun → StoreMigration → StoreMigration
cleaned_row run row =
    if run.killed_cleaning
    then record row { status = MigrationStatus.cleaning }
    else record row { status = MigrationStatus.completed; completed_at = some run.done_at }

-- The disk without the old directory.
unfoldable pub remove_old : MigrationRun → Text → Disk → Disk
remove_old run source_path disk = elim (disk source_path) [
  | some d ↦ set_dir source_path (run.left d) disk
  | none ↦ disk
]
