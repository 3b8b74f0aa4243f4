-- ===== src/MailTree/Laws.antt =====
-- find and file_at after put.
use mailfallback.Prelude.{none, some, [], ◌∷◌, ◌≡◌, arith, false, inl, inr, Bool-cases}
use mailfallback.Prelude.Text.{Text, text_eq, text_eq_refl, text_eq_sound}
use mailfallback.MailTree.{Entry, Dir, find, put, file_at, Keeps}
use Entry.{dir}
use Dir.{empty, entry}

pub find-put_same : (name : Text) (e : Entry) (d : Dir) → find name (put name e d) ≡ some e
unfolding find put
find-put_same name e empty = ground (arith, text_eq_refl name)
find-put_same name e (entry k old rest) = ground (arith, find-put_same name e rest)

pub find-put_other :
    (name other : Text) (e : Entry) (d : Dir)
    → text_eq name other ≡ false
    → find other (put name e d) ≡ find other d
unfolding find put
find-put_other name other e empty h = ground arith
find-put_other name other e (entry k old rest) h =
    ground (arith, find-put_other name other e rest h, text_eq_sound k name)

pub Keeps-trans : (d e f : Dir) → Keeps d e → Keeps e f → Keeps d f
Keeps-trans d e f h h' path content at = h' path content (h path content at)

pub Keeps-put_new :
    (name : Text) (e : Entry) (d : Dir) → find name d ≡ none → Keeps d (put name e d)
unfolding file_at
Keeps-put_new name e d h [] content at = cc
Keeps-put_new name e d h (x ∷ path) content at =
    ground (arith, find-put_other name x e d, text_eq_sound name x)

pub Keeps-put_dir :
    (name : Text) (s s' d : Dir)
    → find name d ≡ some (dir s)
    → Keeps s s'
    → Keeps d (put name (dir s') d)
unfolding file_at
Keeps-put_dir name s s' d h k [] content at = cc
Keeps-put_dir name s s' d h k (x ∷ path) content at = elim (Bool-cases (text_eq name x)) [
  | inl e ↦ ground (arith, text_eq_sound name x, find-put_same name (dir s') d, k path content)
  | inr e ↦ ground (arith, find-put_other name x (dir s') d e)
]
