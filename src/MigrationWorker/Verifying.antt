-- ===== src/MigrationWorker/Verifying.antt =====
-- What verify_copy finds after an undisturbed copy.
use mailfallback.Prelude.{ℕ, suc, ◌+◌, none, some, ◌≡◌, refl, ◌∙◌, arith, true, false, inl, inr}
use mailfallback.Prelude.Text.{Text, text_eq_refl, text_eq_sound}
use mailfallback.MailTree.{Entry, Dir, find, put, IsTree}
use mailfallback.MailTree.Laws.{find-put_other}
use mailfallback.MigrationWorker.{
  Written, Outcome, Walk, is_finished, sub_of, is_blocked, copy_file, copy_entries, prescan,
}
use mailfallback.MigrationWorker.Copying.{Fits, find-other, copy_file-finished}
use mailfallback.MigrationWorker.Keeping.{sub_of-find}
use Entry.{file, dir, special}
use Dir.{empty, entry}

-- No name of the first directory is in the second.
unfoldable pub Apart : Dir → Dir → Type 0
Apart empty d = Unit
Apart (entry k e rest) d = (find k d ≡ none) × Apart rest d

pub Apart-empty : (rest : Dir) → Apart rest empty
unfolding Apart find
Apart-empty empty = tt
Apart-empty (entry k e rest) = (refl, Apart-empty rest)

Apart-put :
    (k : Text) (e : Entry) (rest d : Dir)
    → find k rest ≡ none
    → Apart rest d
    → Apart rest (put k e d)
unfolding Apart
Apart-put k e empty d h apart = tt
Apart-put k e (entry m x rest) d h apart =
    let (ne, h') = find-other k m x rest h in
    (find-put_other k m e d ne ∙ apart.0, Apart-put k e rest d h' apart.1)

pub Fits-Apart : (rest d : Dir) → IsTree rest → Apart rest d → Fits rest d
unfolding Apart Fits is_blocked sub_of IsTree
Fits-Apart empty d t a = tt
Fits-Apart (entry k (file c) rest) d t a = (inl a.0, Fits-Apart rest d t.1 a.1)
Fits-Apart (entry k (dir s) rest) d t a =
    let free : is_blocked k d ≡ false = ground arith in
    let new : sub_of k d ≡ empty = ground arith in
    ((free, rw new (Fits-Apart s empty t.1.0 (Apart-empty s))), Fits-Apart rest d t.1.1 a.1)
Fits-Apart (entry k special rest) d t a = Fits-Apart rest d t.1 a.1

pub Fits-empty : (source : Dir) → IsTree source → Fits source empty
Fits-empty source t = Fits-Apart source empty t (Apart-empty source)

prescan-put_file :
    (k c : Text) (d : Dir) → find k d ≡ none → (prescan (put k (file c) d)).0 ≡ suc (prescan d).0
unfolding prescan put find
prescan-put_file k c empty h = refl
prescan-put_file k c (entry m (file x) rest) h = ground (arith, prescan-put_file k c rest)
prescan-put_file k c (entry m (dir x) rest) h = ground (arith, prescan-put_file k c rest)
prescan-put_file k c (entry m special rest) h = ground (arith, prescan-put_file k c rest)

prescan-put_dir :
    (k : Text) (s d : Dir)
    → find k d ≡ none
    → (prescan (put k (dir s) d)).0 ≡ (prescan s).0 + (prescan d).0
unfolding prescan put find
prescan-put_dir k c empty h = omega arith
prescan-put_dir k c (entry m (file x) rest) h = ground (arith, prescan-put_dir k c rest)
prescan-put_dir k c (entry m (dir x) rest) h = ground (arith, prescan-put_dir k c rest)
prescan-put_dir k c (entry m special rest) h = ground (arith, prescan-put_dir k c rest)

sub_of-absent : (k : Text) (d : Dir) → find k d ≡ none → sub_of k d ≡ empty
unfolding sub_of
sub_of-absent k d h = ground arith

module _ {P : Type 0} (write : ℕ → Written) (on_progress : ℕ → ℕ → P → P × Outcome) where
  copy_file_total :
      (k c : Text) (w : Walk P)
      → find k w.tree ≡ none
      → is_finished (copy_file write on_progress k c w).outcome ≡ true
      → (copy_file write on_progress k c w).tree ≡ put k (file c) w.tree
  copy_file_total k c w h done = ground (arith, copy_file-finished write on_progress k c w done)

  pub copy_entries_total :
      (source : Dir) (w : Walk P)
      → IsTree source
      → Apart source w.tree
      → is_finished (copy_entries write on_progress source w).outcome ≡ true
      → (prescan (copy_entries write on_progress source w).tree).0
        ≡ (prescan source).0 + (prescan w.tree).0
  unfolding copy_entries prescan IsTree Apart
  copy_entries_total empty w t a h = ground arith
  copy_entries_total (entry k (file c) rest) w t a h =
      let next = copy_file write on_progress k c w in
      let copied : is_finished next.outcome ≡ true = ground arith in
      let tree : next.tree ≡ put k (file c) w.tree = copy_file_total k c w a.0 copied in
      let apart : Apart rest next.tree = rw tree (Apart-put k (file c) rest w.tree t.0 a.1) in
      let counted : (prescan next.tree).0 ≡ suc (prescan w.tree).0 =
        rw tree (prescan-put_file k c w.tree a.0) in
      ground (arith, copy_entries_total rest next t.1 apart)
  copy_entries_total (entry k (dir s) rest) w t a h =
      let inside : Walk P = record w { tree = sub_of k w.tree } in
      let sub = copy_entries write on_progress s inside in
      let next : Walk P = record sub { tree = put k (dir sub.tree) w.tree } in
      let new : sub_of k w.tree ≡ empty = sub_of-absent k w.tree a.0 in
      let copied : is_finished sub.outcome ≡ true = ground arith in
      let within : Apart s (sub_of k w.tree) = rw new (Apart-empty s) in
      let below : (prescan sub.tree).0 ≡ (prescan s).0 + (prescan (sub_of k w.tree)).0 =
        copy_entries_total s inside t.1.0 within copied in
      let nothing : (prescan (sub_of k w.tree)).0 ≡ 0 = rw new refl in
      ground (
        arith,
        prescan-put_dir k sub.tree w.tree a.0,
        copy_entries_total rest next t.1.1 (Apart-put k (dir sub.tree) rest w.tree t.0 a.1),
      )
  copy_entries_total (entry k special rest) w t a h = copy_entries_total rest w t.1 a.1 h

-- A tree fits onto itself.
Within : Dir → Dir → Type 0
Within rest whole = (k : Text) (e : Entry) → find k rest ≡ some e → find k whole ≡ some e

Within-tail :
    (m : Text) (x : Entry) (rest whole : Dir)
    → find m rest ≡ none
    → Within (entry m x rest) whole
    → Within rest whole
unfolding Within find
Within-tail m x rest whole absent sub k e h = sub k e (ground (arith, text_eq_sound m k))

Within-head :
    (m : Text) (x : Entry) (rest whole : Dir)
    → Within (entry m x rest) whole
    → find m whole ≡ some x
unfolding Within find
Within-head m x rest whole sub = sub m x (ground (arith, text_eq_refl m))

Fits-Within : (rest whole : Dir) → IsTree rest → Within rest whole → Fits rest whole
unfolding Fits IsTree is_blocked Within
Fits-Within empty whole t sub = tt
Fits-Within (entry k (file c) rest) whole t sub = (
  inr (Within-head k (file c) rest whole sub),
  Fits-Within rest whole t.1 (Within-tail k (file c) rest whole t.0 sub),
)
Fits-Within (entry k (dir s) rest) whole t sub =
    let there = Within-head k (dir s) rest whole sub in
    let free : is_blocked k whole ≡ false = ground arith in
    (
      (free, rw (sub_of-find k whole s there) (Fits-Within s s t.1.0 (λ m e h. h))),
      Fits-Within rest whole t.1.1 (Within-tail k (dir s) rest whole t.0 sub),
    )
Fits-Within (entry k special rest) whole t sub =
    Fits-Within rest whole t.1 (Within-tail k special rest whole t.0 sub)

pub Fits-self : (d : Dir) → IsTree d → Fits d d
unfolding Within
Fits-self d t = Fits-Within d d t (λ k e h. h)
