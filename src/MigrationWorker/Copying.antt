-- ===== src/MigrationWorker/Copying.antt =====
-- What a copy that reached its end has put at the target.
use mailfallback.Prelude.{
  if◌then◌else◌, ℕ, none, some, List, [], ◌∷◌, ◌≡◌, refl, arith, true, false, ◌⊎◌, inl, inr,
  Option-cases, Bool-cases, is_some,
}
use mailfallback.Prelude.Text.{Text, text_eq, text_eq_refl, text_eq_sound}
use mailfallback.MailTree.{Entry, Dir, find, put, file_at, Keeps, IsTree}
use mailfallback.MailTree.Laws.{find-put_same, find-put_other}
use mailfallback.MigrationWorker.{
  Written, Outcome, Walk, is_finished, put_written, after_write, sub_of, is_blocked, count_file,
  copy_file, copy_entries,
}
use mailfallback.MigrationWorker.Keeping.{copy_entries-Keeps}
use Entry.{file, dir, special}
use Dir.{empty, entry}

-- Whatever the target holds under the name of a file of the source is that file, and a directory
-- stands where the source has one. It may hold more, and it may hold nothing.
unfoldable pub Fits : Dir → Dir → Type 0
Fits empty d = Unit
Fits (entry k (file c) rest) d = ((find k d ≡ none) ⊎ (find k d ≡ some (file c))) × Fits rest d
Fits (entry k (dir s) rest) d = ((is_blocked k d ≡ false) × Fits s (sub_of k d)) × Fits rest d
Fits (entry k special rest) d = Fits rest d

text_eq_sym : (s t : Text) → text_eq s t ≡ false → text_eq t s ≡ false
text_eq_sym s t h = elim (Bool-cases (text_eq t s)) [
  | inl e ↦ ground (arith, text_eq_sound t s e, text_eq_refl s)
  | inr e ↦ e
]

pub find-other :
    (k m : Text) (e : Entry) (rest : Dir)
    → find k (entry m e rest) ≡ none
    → (text_eq k m ≡ false) × (find k rest ≡ none)
unfolding find
find-other k m e rest h = (text_eq_sym m k (ground arith), ground arith)

is_blocked-put :
    (k m : Text) (e : Entry) (d : Dir)
    → text_eq k m ≡ false
    → is_blocked m (put k e d) ≡ is_blocked m d
unfolding is_blocked
is_blocked-put k m e d h = ground (arith, find-put_other k m e d h)

sub_of-put :
    (k m : Text) (e : Entry) (d : Dir) → text_eq k m ≡ false → sub_of m (put k e d) ≡ sub_of m d
unfolding sub_of
sub_of-put k m e d h = ground (arith, find-put_other k m e d h)

pub Fits-put :
    (k : Text) (e : Entry) (rest d : Dir) → find k rest ≡ none → Fits rest d → Fits rest (put k e d)
unfolding Fits
Fits-put k e empty d h fits = tt
Fits-put k e (entry m (file c) rest) d h fits =
    let (ne, h') = find-other k m (file c) rest h in
    (rw (find-put_other k m e d ne) fits.0, Fits-put k e rest d h' fits.1)
Fits-put k e (entry m (dir s) rest) d h fits =
    let (ne, h') = find-other k m (dir s) rest h in
    (rw (is_blocked-put k m e d ne, sub_of-put k m e d ne) fits.0, Fits-put k e rest d h' fits.1)
Fits-put k e (entry m special rest) d h fits =
    let (ne, h') = find-other k m special rest h in Fits-put k e rest d h' fits

put_written_whole :
    (k c : Text) (written : Written) (d : Dir)
    → is_finished (after_write written) ≡ true
    → put_written k c written d ≡ put k (file c) d
unfolding put_written after_write
put_written_whole k c Written.whole d h = refl
put_written_whole k c (Written.broken none message) d h = ground arith
put_written_whole k c (Written.broken (some part) message) d h = ground arith
put_written_whole k c (Written.killed none) d h = ground arith
put_written_whole k c (Written.killed (some part)) d h = ground arith

from_rest :
    (k x : Text) (path : List Text) (content : Text) (e : Entry) (rest d : Dir)
    → text_eq k x ≡ false
    → Keeps rest d
    → file_at (entry k e rest) (x ∷ path) ≡ some content
    → file_at d (x ∷ path) ≡ some content
unfolding file_at find
from_rest k x path content e rest d ne keeps at = keeps (x ∷ path) content (ground arith)

from_file :
    (k : Text) (x : Text) (path : List Text) (content c : Text) (rest next d : Dir)
    → text_eq k x ≡ true
    → find k next ≡ some (file c)
    → Keeps next d
    → file_at (entry k (file c) rest) (x ∷ path) ≡ some content
    → file_at d (x ∷ path) ≡ some content
unfolding file_at find
from_file k x path content c rest next d same there keeps at =
    keeps (x ∷ path) content (ground (arith, text_eq_sound k x same))

from_dir :
    (k : Text) (x : Text) (path : List Text) (content : Text) (s t rest next d : Dir)
    → text_eq k x ≡ true
    → find k next ≡ some (dir t)
    → Keeps s t
    → Keeps next d
    → file_at (entry k (dir s) rest) (x ∷ path) ≡ some content
    → file_at d (x ∷ path) ≡ some content
unfolding file_at find
from_dir k x path content s t rest next d same there below keeps at =
    keeps (x ∷ path) content (ground (arith, text_eq_sound k x same, below path content))

file_at-nil : (d : Dir) → file_at d [] ≡ none
unfolding file_at
file_at-nil d = refl

file_at-empty : (path : List Text) → file_at empty path ≡ none
unfolding file_at find
file_at-empty [] = refl
file_at-empty (x ∷ path) = refl

file_at-special :
    (k x : Text) (path : List Text) (rest : Dir)
    → text_eq k x ≡ true
    → file_at (entry k special rest) (x ∷ path) ≡ none
unfolding file_at find
file_at-special k x path rest h = ground arith

module _ {P : Type 0} (write : ℕ → Written) (on_progress : ℕ → ℕ → P → P × Outcome) where
  pub copy_file-finished :
      (k c : Text) (w : Walk P)
      → is_finished (copy_file write on_progress k c w).outcome ≡ true
      → (copy_file write on_progress k c w).tree
        ≡ (if is_some (find k w.tree) then w.tree else put k (file c) w.tree)
  unfolding copy_file count_file
  copy_file-finished k c w h = ground (arith, put_written_whole k c (write w.files) w.tree)

  copy_file-find :
      (k c : Text) (w : Walk P)
      → (find k w.tree ≡ none) ⊎ (find k w.tree ≡ some (file c))
      → is_finished (copy_file write on_progress k c w).outcome ≡ true
      → find k (copy_file write on_progress k c w).tree ≡ some (file c)
  copy_file-find k c w fits h =
      ground (arith, copy_file-finished k c w, find-put_same k (file c) w.tree)

  pub copy_file-Fits :
      (k c : Text) (rest : Dir) (w : Walk P)
      → find k rest ≡ none
      → Fits rest w.tree
      → is_finished (copy_file write on_progress k c w).outcome ≡ true
      → Fits rest (copy_file write on_progress k c w).tree
  copy_file-Fits k c rest w h fits done = elim (Option-cases (find k w.tree)) [
    | inl e ↦ rw (copy_file-finished k c w done, e) (Fits-put k (file c) rest w.tree h fits)
    | inr (x, e) ↦ rw (copy_file-finished k c w done, e) fits
  ]

  -- A copy that reaches its end leaves every regular file of the source at the target.
  pub copy_entries_complete :
      (source : Dir) (w : Walk P)
      → IsTree source
      → Fits source w.tree
      → is_finished (copy_entries write on_progress source w).outcome ≡ true
      → Keeps source (copy_entries write on_progress source w).tree
  unfolding copy_entries IsTree Fits
  copy_entries_complete source w tree fits done [] content at = ground (arith, file_at-nil source)
  copy_entries_complete empty w tree fits done (x ∷ path) content at =
      ground (arith, file_at-empty (x ∷ path))
  copy_entries_complete (entry k (file c) rest) w tree fits done (x ∷ path) content at =
      let next = copy_file write on_progress k c w in
      let end = copy_entries write on_progress rest next in
      let copied : is_finished next.outcome ≡ true = ground arith in
      let ended : is_finished end.outcome ≡ true = ground arith in
      let all : file_at end.tree (x ∷ path) ≡ some content = elim (Bool-cases (text_eq k x)) [
        | inl same ↦
            from_file k x path content c rest next.tree end.tree same
              (copy_file-find k c w fits.0 copied) (copy_entries-Keeps write on_progress rest next)
              at
        | inr ne ↦
            from_rest k x path content (file c) rest end.tree ne
              (copy_entries_complete rest next tree.1
                (copy_file-Fits k c rest w tree.0 fits.1 copied) ended)
              at
      ] in
      ground arith
  copy_entries_complete (entry k (dir s) rest) w tree fits done (x ∷ path) content at =
      let sub = copy_entries write on_progress s (record w { tree = sub_of k w.tree }) in
      let next : Walk P = record sub { tree = put k (dir sub.tree) w.tree } in
      let end = copy_entries write on_progress rest next in
      let copied : is_finished sub.outcome ≡ true = ground arith in
      let ended : is_finished end.outcome ≡ true = ground arith in
      let all : file_at end.tree (x ∷ path) ≡ some content = elim (Bool-cases (text_eq k x)) [
        | inl same ↦
            from_dir k x path content s sub.tree rest next.tree end.tree same
              (find-put_same k (dir sub.tree) w.tree)
              (copy_entries_complete s (record w { tree = sub_of k w.tree }) tree.1.0 fits.0.1
                copied)
              (copy_entries-Keeps write on_progress rest next) at
        | inr ne ↦
            from_rest k x path content (dir s) rest end.tree ne
              (copy_entries_complete rest next tree.1.1
                (Fits-put k (dir sub.tree) rest w.tree tree.0 fits.1) ended)
              at
      ] in
      ground arith
  copy_entries_complete (entry k special rest) w tree fits done (x ∷ path) content at =
      elim (Bool-cases (text_eq k x)) [
        | inl same ↦ ground (arith, file_at-special k x path rest same)
        | inr ne ↦
            from_rest k x path content special rest (copy_entries write on_progress rest w).tree ne
              (copy_entries_complete rest w tree.1 fits done) at
      ]
