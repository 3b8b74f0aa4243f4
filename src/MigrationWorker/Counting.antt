-- ===== src/MigrationWorker/Counting.antt =====
-- The counters of copy_tree, and what an undisturbed copy counts at the target.
use mailfallback.Prelude.{ℕ, suc, ◌+◌, ◌≤◌, ◌≡◌, arith, true, length}
use mailfallback.Prelude.Text.{Text}
use mailfallback.MailTree.{Entry, Dir, put, IsTree}
use mailfallback.MigrationWorker.{
  Written, Outcome, Walk, is_finished, after_write, sub_of, count_file, copy_file, copy_entries,
  prescan,
}
use mailfallback.MigrationWorker.Copying.{Fits, Fits-put, copy_file-Fits}
use Entry.{file, dir, special}
use Dir.{empty, entry}

module _ {P : Type 0} (write : ℕ → Written) (on_progress : ℕ → ℕ → P → P × Outcome) where
  copy_file_counts :
      (k c : Text) (w : Walk P)
      → is_finished (copy_file write on_progress k c w).outcome ≡ true
      → ((copy_file write on_progress k c w).files ≡ suc w.files)
        × ((copy_file write on_progress k c w).bytes ≡ w.bytes + length c)
  unfolding copy_file count_file
  copy_file_counts k c w h = ground arith

  -- A copy that reaches its end has counted each file of the source and its bytes once.
  pub copy_entries_counts :
      (source : Dir) (w : Walk P)
      → is_finished (copy_entries write on_progress source w).outcome ≡ true
      → ((copy_entries write on_progress source w).files ≡ w.files + (prescan source).0)
        × ((copy_entries write on_progress source w).bytes ≡ w.bytes + (prescan source).1)
  unfolding copy_entries prescan
  copy_entries_counts empty w h = ground arith
  copy_entries_counts (entry k (file c) rest) w h =
      let next = copy_file write on_progress k c w in
      ground (arith, copy_file_counts k c w, copy_entries_counts rest next)
  copy_entries_counts (entry k (dir s) rest) w h =
      let inside : Walk P = record w { tree = sub_of k w.tree } in
      let sub = copy_entries write on_progress s inside in
      let next : Walk P = record sub { tree = put k (dir sub.tree) w.tree } in
      ground (arith, copy_entries_counts s inside, copy_entries_counts rest next)
  copy_entries_counts (entry k special rest) w h = copy_entries_counts rest w h

  copy_file_bound :
      (k c : Text) (w : Walk P)
      → ((copy_file write on_progress k c w).files ≤ suc w.files)
        × ((copy_file write on_progress k c w).bytes ≤ w.bytes + length c)
  unfolding copy_file count_file
  copy_file_bound k c w = ground arith

  -- However a copy ends, it has counted at most the files and bytes of the source.
  pub copy_entries_bound :
      (source : Dir) (w : Walk P)
      → ((copy_entries write on_progress source w).files ≤ w.files + (prescan source).0)
        × ((copy_entries write on_progress source w).bytes ≤ w.bytes + (prescan source).1)
  unfolding copy_entries prescan
  copy_entries_bound empty w = ground arith
  copy_entries_bound (entry k (file c) rest) w =
      let next = copy_file write on_progress k c w in
      ground (arith, copy_file_bound k c w, copy_entries_bound rest next)
  copy_entries_bound (entry k (dir s) rest) w =
      let inside : Walk P = record w { tree = sub_of k w.tree } in
      let sub = copy_entries write on_progress s inside in
      let next : Walk P = record sub { tree = put k (dir sub.tree) w.tree } in
      ground (arith, copy_entries_bound s inside, copy_entries_bound rest next)
  copy_entries_bound (entry k special rest) w = copy_entries_bound rest w

  copy_file_goes_on :
      (k c : Text) (w : Walk P)
      → ((n : ℕ) → write n ≡ Written.whole)
      → ((f b : ℕ) (p : P) → is_finished (on_progress f b p).1 ≡ true)
      → is_finished (copy_file write on_progress k c w).outcome ≡ true
  unfolding copy_file count_file after_write
  copy_file_goes_on k c w wr go =
      ground (arith, wr w.files, go (suc w.files) (w.bytes + length c) w.progress)

  -- With no failing write and no cancellation a copy into a target that fits reaches its end.
  pub copy_entries_ends :
      (source : Dir) (w : Walk P)
      → ((n : ℕ) → write n ≡ Written.whole)
      → ((f b : ℕ) (p : P) → is_finished (on_progress f b p).1 ≡ true)
      → IsTree source
      → Fits source w.tree
      → is_finished w.outcome ≡ true
      → is_finished (copy_entries write on_progress source w).outcome ≡ true
  unfolding copy_entries IsTree Fits
  copy_entries_ends empty w wr go tree fits on = on
  copy_entries_ends (entry k (file c) rest) w wr go tree fits on =
      let next = copy_file write on_progress k c w in
      let copied : is_finished next.outcome ≡ true = copy_file_goes_on k c w wr go in
      ground (
        arith,
        copy_entries_ends rest next wr go tree.1
            (copy_file-Fits write on_progress k c rest w tree.0 fits.1 copied) copied,
      )
  copy_entries_ends (entry k (dir s) rest) w wr go tree fits on =
      let inside : Walk P = record w { tree = sub_of k w.tree } in
      let sub = copy_entries write on_progress s inside in
      let next : Walk P = record sub { tree = put k (dir sub.tree) w.tree } in
      let copied : is_finished sub.outcome ≡ true =
        copy_entries_ends s inside wr go tree.1.0 fits.0.1 on in
      ground (
        arith,
        fits.0.0,
        copy_entries_ends rest next wr go tree.1.1
            (Fits-put k (dir sub.tree) rest w.tree tree.0 fits.1) copied,
      )
  copy_entries_ends (entry k special rest) w wr go tree fits on =
      copy_entries_ends rest w wr go tree.1 fits on
