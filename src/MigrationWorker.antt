-- ===== src/MigrationWorker.antt =====
-- src/mailfallback/services/migration_worker.py: the scan, the copy and the check of a tree. What a
-- write of the n-th file meets, and the caller's on_progress, are arguments.
pub mod Copying
pub mod Counting
pub mod Keeping
pub mod Verifying
use mailfallback.Prelude.{
  ℕ, zero, suc, ◌+◌, ◌==◌, Bool, true, false, Option, none, some, ◌++◌, length, if◌then◌else◌,
  is_some,
}
use mailfallback.Prelude.Text.{Text, codes, decimal}
use mailfallback.MailTree.{Entry, Dir, dir_or_empty, find, put}

unfoldable pub prescan : Dir → ℕ × ℕ
prescan Dir.empty = (0, 0)
prescan (Dir.entry k (Entry.file content) rest) =
    let (files, bytes) = prescan rest in (suc files, length content + bytes)
prescan (Dir.entry k (Entry.dir d) rest) =
    let (sub_files, sub_bytes) = prescan d in
    let (files, bytes) = prescan rest in (sub_files + files, sub_bytes + bytes)
prescan (Dir.entry k Entry.special rest) = prescan rest

-- What `shutil.copy2` does with a file: the whole copy, an error with what it has written by then,
-- or the end of the process in the middle.
pub data Written : Type 0 where
  whole : Written
  broken : Option Text → Text → Written
  killed : Option Text → Written

-- How a walk ends: at its end, with MigrationCancelled, with another exception, or with the process.
pub data Outcome : Type 0 where
  finished cancelled : Outcome
  raised : Text → Outcome
  died : Outcome

abbrev pub is_finished : Outcome → Bool
is_finished Outcome.finished = true
is_finished _ = false

-- A walk in progress: the target as it is by now, the `_counter`, and the state of on_progress.
pub record Walk (P : Type 0) : Type 0 where
  pub tree : Dir
  pub files : ℕ
  pub bytes : ℕ
  pub progress : P
  pub outcome : Outcome

-- What a write leaves under the name, and how the walk goes on.
unfoldable pub put_written : Text → Text → Written → Dir → Dir
put_written name content Written.whole d = put name (Entry.file content) d
put_written name content (Written.broken none message) d = d
put_written name content (Written.broken (some part) message) d = put name (Entry.file part) d
put_written name content (Written.killed none) d = d
put_written name content (Written.killed (some part)) d = put name (Entry.file part) d

unfoldable pub after_write : Written → Outcome
after_write Written.whole = Outcome.finished
after_write (Written.broken part message) = Outcome.raised message
after_write (Written.killed part) = Outcome.died

-- The directory under a name, made where there is none.
unfoldable pub sub_of : Text → Dir → Dir
sub_of name d = elim (find name d) [ some (Entry.dir sub) ↦ sub | _ ↦ Dir.empty ]

-- `os.makedirs` raises on a name that is no directory.
unfoldable pub is_blocked : Text → Dir → Bool
is_blocked name d = elim (find name d) [
  | none ↦ false
  | some (Entry.dir sub) ↦ false
  | some _ ↦ true
]

module _ {P : Type 0} (write : ℕ → Written) (on_progress : ℕ → ℕ → P → P × Outcome) where
  -- The file is counted, whether it was copied or skipped.
  unfoldable pub count_file : ℕ → Walk P → Walk P
  count_file size w =
      let (progress, outcome) = on_progress (suc w.files) (w.bytes + size) w.progress in
      record {
        tree = w.tree;
        files = suc w.files;
        bytes = w.bytes + size;
        progress = progress;
        outcome = outcome;
      }

  unfoldable pub copy_file : Text → Text → Walk P → Walk P
  unfolding count_file put_written after_write
  copy_file name content w =
      let written = write w.files in
      let next : Walk P = record w {
        tree = put_written name content written w.tree;
        outcome = after_write written;
      } in
      if is_some (find name w.tree)
      then count_file (length content) w
      else if is_finished next.outcome
      then count_file (length content) next
      else next

  -- The loop over the entries of a directory.
  unfoldable pub copy_entries : Dir → Walk P → Walk P
  unfolding copy_file sub_of is_blocked
  copy_entries Dir.empty w = w
  copy_entries (Dir.entry k (Entry.file content) rest) w =
      let next = copy_file k content w in
      let end = copy_entries rest next in if is_finished next.outcome then end else next
  copy_entries (Dir.entry k (Entry.dir d) rest) w =
      let sub = copy_entries d (record w { tree = sub_of k w.tree }) in
      let next : Walk P = record sub { tree = put k (Entry.dir sub.tree) w.tree } in
      let end = copy_entries rest next in
      if is_blocked k w.tree
      then record w { outcome = Outcome.raised (codes "File exists" ++ k) }
      else if is_finished sub.outcome
      then end
      else next
  copy_entries (Dir.entry k Entry.special rest) w = copy_entries rest w

  -- The target directory is made where there is none.
  unfoldable pub copy_tree : Dir → Option Dir → P → Walk P
  unfolding copy_entries
  copy_tree source dest progress = copy_entries source (record {
    tree = dir_or_empty dest;
    files = 0;
    bytes = 0;
    progress = progress;
    outcome = Outcome.finished;
  })

unfoldable pub verify_copy : Dir → Dir → Bool × Text
unfolding prescan
verify_copy source dest =
    let src_files = (prescan source).0 in
    let dst_files = (prescan dest).0 in
    if src_files == dst_files then (true, codes "OK") else (
      false,
      codes "File count mismatch: source="
          ++ decimal src_files
          ++ codes ", dest="
          ++ decimal dst_files,
    )
