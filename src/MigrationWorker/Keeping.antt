-- ===== src/MigrationWorker/Keeping.antt =====
-- What copy_tree does to a target that already holds something.
use mailfallback.Prelude.{
  if◌then◌else◌, ℕ, none, some, ◌≡◌, arith, false, inl, inr, Option-cases, is_some,
}
use mailfallback.Prelude.Text.{Text}
use mailfallback.MailTree.{Entry, Dir, find, put, Keeps}
use mailfallback.MailTree.Laws.{Keeps-put_new, Keeps-put_dir}
use mailfallback.MigrationWorker.{
  Written, Outcome, Walk, put_written, sub_of, is_blocked, count_file, copy_file, copy_entries,
}
use Entry.{file, dir, special}
use Dir.{empty, entry}

Keeps-put_written :
    (k c : Text) (written : Written) (d : Dir)
    → find k d ≡ none
    → Keeps d (put_written k c written d)
unfolding put_written
Keeps-put_written k c Written.whole d h = Keeps-put_new k (file c) d h
Keeps-put_written k c (Written.broken none message) d h = λ path content at. at
Keeps-put_written k c (Written.broken (some part) message) d h = Keeps-put_new k (file part) d h
Keeps-put_written k c (Written.killed none) d h = λ path content at. at
Keeps-put_written k c (Written.killed (some part)) d h = Keeps-put_new k (file part) d h

pub sub_of-find : (k : Text) (d t : Dir) → find k d ≡ some (dir t) → sub_of k d ≡ t
unfolding sub_of
sub_of-find k d t e = ground arith

sub-Keeps :
    (k : Text) (d s : Dir)
    → is_blocked k d ≡ false
    → Keeps (sub_of k d) s
    → Keeps d (put k (dir s) d)
unfolding sub_of is_blocked
sub-Keeps k d s h keeps = elim (Option-cases (find k d)) [
  | inl e ↦ Keeps-put_new k (dir s) d e
  | inr (file c, e) ↦ ground arith
  | inr (dir t, e) ↦ Keeps-put_dir k t s d e (rw (sub_of-find k d t e) at keeps)
  | inr (special, e) ↦ ground arith
]

module _ {P : Type 0} (write : ℕ → Written) (on_progress : ℕ → ℕ → P → P × Outcome) where
  copy_file-tree :
      (k c : Text) (w : Walk P)
      → (copy_file write on_progress k c w).tree
        ≡ (if is_some (find k w.tree) then w.tree else put_written k c (write w.files) w.tree)
  unfolding copy_file count_file
  copy_file-tree k c w = ground arith

  copy_file-Keeps :
      (k c : Text) (w : Walk P) → Keeps w.tree (copy_file write on_progress k c w).tree
  copy_file-Keeps k c w path content at = ground (
    arith,
    copy_file-tree k c w,
    λ (h : find k w.tree ≡ none). Keeps-put_written k c (write w.files) w.tree h path content at,
  )

  pub copy_entries-Keeps :
      (source : Dir) (w : Walk P) → Keeps w.tree (copy_entries write on_progress source w).tree
  unfolding copy_entries
  copy_entries-Keeps empty w path content at = at
  copy_entries-Keeps (entry k (file c) rest) w path content at =
      let next = copy_file write on_progress k c w in
      ground
        (arith, copy_file-Keeps k c w path content at, copy_entries-Keeps rest next path content)
  copy_entries-Keeps (entry k (dir d) rest) w path content at =
      let sub = copy_entries write on_progress d (record w { tree = sub_of k w.tree }) in
      let next : Walk P = record sub { tree = put k (dir sub.tree) w.tree } in
      ground (
        arith,
        λ (h : is_blocked k w.tree ≡ false).
            sub-Keeps k w.tree sub.tree h
              (copy_entries-Keeps d (record w { tree = sub_of k w.tree })) path content at,
        copy_entries-Keeps rest next path content,
      )
  copy_entries-Keeps (entry k special rest) w path content at =
      copy_entries-Keeps rest w path content at
