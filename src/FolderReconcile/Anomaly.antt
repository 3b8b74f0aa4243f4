-- ===== src/FolderReconcile/Anomaly.antt =====
-- What folders_to_quarantine may move.
use mailfallback.Prelude.{
  ℕ, suc, ◌*◌, ◌≤◌, Bool, true, false, not, ◌&&◌, ◌||◌, List, [], ◌∷◌, any, keep, length, ◌≡◌, ◌⊎◌,
  refl, ap, arith, inl, inr, Bool-cases,
}
use mailfallback.Prelude.Text.{Text, text_eq, text_eq_sound}
use mailfallback.FolderReconcile.{
  missing, is_missing, is_anomaly, folders_to_quarantine, sorted, insert_sorted, guard_anomaly,
}

abbrev pub is_empty : List Text → Bool
is_empty [] = true
is_empty (x ∷ xs) = false

abbrev pub has : Text → List Text → Bool
has x xs = any (text_eq x) xs

has-insert_sorted :
    (x y : Text) (ys : List Text) → has x (insert_sorted y ys) ≡ (text_eq x y || has x ys)
unfolding insert_sorted
has-insert_sorted x y [] = refl
has-insert_sorted x y (z ∷ ys) = ground (arith, has-insert_sorted x y ys)

has-sorted : (x : Text) (xs : List Text) → has x (sorted xs) ≡ has x xs
unfolding sorted
has-sorted x [] = refl
has-sorted x (y ∷ ys) = ground (arith, has-insert_sorted x y (sorted ys), has-sorted x ys)

has-keep : (p : Text → Bool) (x : Text) (xs : List Text) → has x (keep p xs) ≡ (has x xs && p x)
has-keep p x [] = refl
has-keep p x (y ∷ ys) = elim (Bool-cases (text_eq x y)) [
  | inl same ↦ ground (arith, same, ap p (text_eq_sound x y same), has-keep p x ys)
  | inr differ ↦ ground (arith, differ, has-keep p x ys)
]

length-insert_sorted : (y : Text) (ys : List Text) → length (insert_sorted y ys) ≡ suc (length ys)
unfolding insert_sorted
length-insert_sorted y [] = refl
length-insert_sorted y (z ∷ ys) = ground (arith, length-insert_sorted y ys)

length-sorted : (xs : List Text) → length (sorted xs) ≡ length xs
unfolding sorted
length-sorted [] = refl
length-sorted (x ∷ xs) = ground (arith, length-insert_sorted x (sorted xs), length-sorted xs)

length-keep : (p : Text → Bool) (xs : List Text) → length (keep p xs) ≤ length xs
length-keep p [] = omega arith
length-keep p (x ∷ xs) = ground (arith, length-keep p xs)

within :
    (count total : ℕ)
    → is_anomaly count total ≡ false
    → count ≤ total
    → (count ≤ 3) ⊎ (4 * count ≤ total)
within count total h small = ground arith

guarded :
    (total : ℕ) (found xs : List Text)
    → guard_anomaly total found ≡ missing xs
    → (found ≡ xs) × (is_anomaly (length found) total ≡ false)
guarded total found xs h = ground arith

-- A folder is given for quarantine exactly when it is a local one that the Source lists no more and
-- that no pattern excludes, provided the Source listed any folder at all.
pub folders_to_quarantine_members :
    (matches : Text → Text → Bool) (local_folders remote patterns xs : List Text) (folder : Text)
    → folders_to_quarantine matches local_folders remote patterns ≡ missing xs
    → has folder xs ≡ (
        has folder local_folders
        && is_missing matches remote patterns folder
        && not (is_empty remote))
unfolding folders_to_quarantine
folders_to_quarantine_members matches local_folders [] patterns xs folder h = ground arith
folders_to_quarantine_members matches local_folders (r ∷ remote) patterns xs folder h =
    let found = keep (is_missing matches (r ∷ remote) patterns) local_folders in
    let g = guarded (length local_folders) (sorted found) xs h in
    ground (
      arith,
      ap (has folder) g.0,
      has-sorted folder found,
      has-keep (is_missing matches (r ∷ remote) patterns) folder local_folders,
    )

-- A call that does not raise gives at most three folders, or at most a quarter of the local ones.
pub folders_to_quarantine_bound :
    (matches : Text → Text → Bool) (local_folders remote patterns xs : List Text)
    → folders_to_quarantine matches local_folders remote patterns ≡ missing xs
    → (length xs ≤ 3) ⊎ (4 * length xs ≤ length local_folders)
unfolding folders_to_quarantine
folders_to_quarantine_bound matches local_folders [] patterns [] h = inl (omega arith)
folders_to_quarantine_bound matches local_folders [] patterns (x ∷ xs) h = ground arith
folders_to_quarantine_bound matches local_folders (r ∷ remote) patterns xs h =
    let found = keep (is_missing matches (r ∷ remote) patterns) local_folders in
    let g = guarded (length local_folders) (sorted found) xs h in
    let same = ap (length {A = Text}) g.0 in
    within (length xs) (length local_folders) (ground (arith, g.1, same)) (
      omega (
        arith,
        same,
        length-sorted found,
        length-keep (is_missing matches (r ∷ remote) patterns) local_folders,
      ))
