-- ===== src/SyncProgress/Invariant/Folders.antt =====
-- The list of folders under the parser's two writes.
use mailfallback.Prelude.{
  Bool, true, false, not, ◌&&◌, ◌||◌, Option, none, some, List, [], ◌∷◌, ◌++◌, ◌≡◌, refl, arith,
  length, if◌then◌else◌,
}
use mailfallback.Prelude.Text.{Text, text_eq, text_eq_refl, text_eq_iff}
use mailfallback.SyncProgress.Snapshot.{FolderProgress, new_folder, has_folder, update_folder}
use mailfallback.SyncProgress.Lines.{add_folder}

unfoldable pub distinct : List FolderProgress → Bool
distinct [] = true
distinct (f ∷ fs) = not (has_folder f.name fs) && distinct fs

unfoldable pub is_known : Option Text → List FolderProgress → Bool
is_known none fs = true
is_known (some name) fs = has_folder name fs

pub record KeepsName (change : FolderProgress → FolderProgress) : Type 0 where
  pub name : (f : FolderProgress) → (change f).name ≡ f.name

module _ (name : Text) (change : FolderProgress → FolderProgress) (keeps : KeepsName change) where
  pub length-update_folder :
      (fs : List FolderProgress) → length (update_folder name change fs) ≡ length fs
  unfolding update_folder
  length-update_folder [] = refl
  length-update_folder (f ∷ fs) = ground (arith, length-update_folder fs)

  pub has_folder-update_folder :
      (n : Text) (fs : List FolderProgress)
      → has_folder n (update_folder name change fs) ≡ has_folder n fs
  unfolding update_folder has_folder
  has_folder-update_folder n [] = refl
  has_folder-update_folder n (f ∷ fs) = ground (arith, keeps.name f, has_folder-update_folder n fs)

  pub distinct-update_folder :
      (fs : List FolderProgress) → distinct (update_folder name change fs) ≡ distinct fs
  unfolding update_folder distinct
  distinct-update_folder [] = refl
  distinct-update_folder (f ∷ fs) =
      ground (arith, keeps.name f, has_folder-update_folder f.name fs, distinct-update_folder fs)

  pub is_known-update_folder :
      (current : Option Text) (fs : List FolderProgress)
      → is_known current (update_folder name change fs) ≡ is_known current fs
  unfolding is_known
  is_known-update_folder none fs = refl
  is_known-update_folder (some n) fs = has_folder-update_folder n fs

has_folder_new :
    (name : Text) (fs : List FolderProgress) → has_folder name (fs ++ new_folder name ∷ []) ≡ true
unfolding has_folder new_folder
has_folder_new name [] = ground (arith, text_eq_refl name)
has_folder_new name (f ∷ fs) = ground (arith, has_folder_new name fs)

has_folder-append :
    (n name : Text) (fs : List FolderProgress)
    → has_folder n (fs ++ new_folder name ∷ []) ≡ (has_folder n fs || text_eq name n)
unfolding has_folder new_folder
has_folder-append n name [] = ground arith
has_folder-append n name (f ∷ fs) = ground (arith, has_folder-append n name fs)

has_folder-cons :
    (n : Text) (f : FolderProgress) (fs : List FolderProgress)
    → has_folder n (f ∷ fs) ≡ (if text_eq f.name n then true else has_folder n fs)
unfolding has_folder
has_folder-cons n f fs = refl

text_eq_comm : (s t : Text) → text_eq s t ≡ text_eq t s
text_eq_comm s t = ground (arith, text_eq_iff s t, text_eq_iff t s)

distinct_new :
    (name : Text) (fs : List FolderProgress)
    → has_folder name fs ≡ false
    → distinct fs ≡ true
    → distinct (fs ++ new_folder name ∷ []) ≡ true
unfolding distinct
distinct_new name [] h d = unfold has_folder in refl
distinct_new name (f ∷ fs) h d = ground (
  arith,
  has_folder-append f.name name fs,
  text_eq_comm name f.name,
  has_folder-cons name f fs,
  distinct_new name fs,
)

pub distinct-add_folder :
    (name : Text) (fs : List FolderProgress)
    → distinct fs ≡ true
    → distinct (add_folder name fs) ≡ true
distinct-add_folder name fs d = ground (arith, distinct_new name fs)

pub has_folder-add_folder :
    (name : Text) (fs : List FolderProgress) → has_folder name (add_folder name fs) ≡ true
has_folder-add_folder name fs = ground (arith, has_folder_new name fs)
