-- ===== src/FolderReconcile.antt =====
-- src/mailfallback/services/folder_reconcile.py: the folders that vanished from the Source, and what
-- they are called in the quarantine. A set is a list without duplicates; what touches the disk
-- (local_synced_folders, write_container_readme, quarantine_folder) is not modelled.
pub mod RoundTrip
pub mod Anomaly
mod Tests
use mailfallback.Prelude.{
  ℕ, suc, ◌+◌, ◌*◌, ◌/◌, ◌%◌, Bool, true, false, not, ◌&&◌, ◌||◌, Option, none, some, List, [], ◌∷◌,
  ◌++◌, any, keep, length, drop, ◌==◌, ltb, leb, if◌then◌else◌,
}
use mailfallback.Prelude.Text.{Text, codes, text_eq, starts_with, replace_char, contains}

abbrev pub removed_container : Text
removed_container = codes "Removed from Source"

-- The fields that `strftime('%Y-%m-%d %H%M')` reads, for years of four digits.
pub record Minute : Type 0 where
  pub year : ℕ
  pub month : ℕ
  pub day : ℕ
  pub hour : ℕ
  pub minute : ℕ

unfoldable pub digit_of : ℕ → ℕ
digit_of n = 48 + n % 10

abbrev two : ℕ → Text → Text
two n rest = digit_of (n / 10) ∷ digit_of n ∷ rest

abbrev four : ℕ → Text → Text
four n rest = two (n / 100) (two n rest)

-- `f" ({when.strftime(…)})"`.
abbrev pub stamp : Minute → Text
stamp t =
    b' '
    ∷ b'('
    ∷ four t.year
        (b'-' ∷ two t.month (b'-' ∷ two t.day (b' ' ∷ two t.hour (two t.minute (b')' ∷ [])))))

abbrev pub leaf_of : Text → Text
leaf_of folder = replace_char b':' b'-' (replace_char b'/' b'-' folder)

unfoldable pub quarantine_name : Text → Minute → Text
unfolding replace_char
quarantine_name folder when = leaf_of folder ++ stamp when

unfoldable pub is_digit : ℕ → Bool
is_digit c = leb 48 c && leb c 57

abbrev is : ℕ → ℕ → Bool
is d c = c == d

-- The characters of ` \(\d{4}-\d{2}-\d{2} \d{4}\)`, for ASCII digits.
abbrev pub stamp_tests : List (ℕ → Bool)
stamp_tests =
    is b' '
    ∷ is b'('
    ∷ is_digit
    ∷ is_digit
    ∷ is_digit
    ∷ is_digit
    ∷ is b'-'
    ∷ is_digit
    ∷ is_digit
    ∷ is b'-'
    ∷ is_digit
    ∷ is_digit
    ∷ is b' '
    ∷ is_digit
    ∷ is_digit
    ∷ is_digit
    ∷ is_digit
    ∷ is b')'
    ∷ []

-- What follows a match of the tests.
unfoldable pub eat : List (ℕ → Bool) → Text → Option Text
eat [] s = some s
eat (p ∷ ps) [] = none
eat (p ∷ ps) (c ∷ s) = if p c then eat ps s else none

-- `$`: the end, or a newline that ends the text.
abbrev pub at_end : Text → Bool
at_end [] = true
at_end (c ∷ []) = c == 10
at_end (c ∷ d ∷ s) = false

-- `\d*\)$`.
unfoldable pub closes_number : Text → Bool
closes_number [] = false
closes_number (c ∷ s) = if is_digit c then closes_number s else c == b')' && at_end s

abbrev number_after : Option Text → Bool
number_after none = false
number_after (some s) = closes_number s

-- `(?: \(\d+\))?$`.
abbrev pub ends : Text → Bool
ends s = at_end s || number_after (eat (is b' ' ∷ is b'(' ∷ is_digit ∷ []) s)

abbrev ends_after : Option Text → Bool
ends_after none = false
ends_after (some s) = ends s

-- The part of `_QUARANTINED_RE` after the name.
unfoldable pub is_stamped : Text → Bool
unfolding eat closes_number
is_stamped s = ends_after (eat stamp_tests s)

abbrev extend : ℕ → Bool → Option Text → Option Text
extend c here (some name) = some (c ∷ name)
extend c true none = some (c ∷ [])
extend c false none = none

-- The group `name` of the match: `.+` is greedy, so the longest name that the rest allows.
unfoldable pub longest_name : Text → Option Text
unfolding is_stamped
longest_name [] = none
longest_name (c ∷ s) = if c == 10 then none else extend c (is_stamped s) (longest_name s)

abbrev or_else : Text → Option Text → Text
or_else d none = d
or_else d (some s) = s

abbrev pub prefix : Text
prefix = removed_container ++ codes "/"

unfoldable pub original_folder_name : Text → Text
unfolding starts_with longest_name
original_folder_name folder_path =
    if not (starts_with folder_path prefix)
    then folder_path
    else or_else folder_path (longest_name (drop (length prefix) folder_path))

-- `fnmatch.fnmatchcase(name, pattern.replace("[", "[[]"))` is a parameter.
abbrev is_glob : Text → Bool
is_glob pattern = contains pattern (codes "*") || contains pattern (codes "?")

unfoldable pub excluded : (Text → Text → Bool) → Text → List Text → Bool
unfolding contains
excluded matches name [] = false
excluded matches name (pattern ∷ patterns) =
    text_eq name pattern
    || is_glob pattern && matches name pattern
    || excluded matches name patterns

unfoldable pub text_leb : Text → Text → Bool
text_leb [] t = true
text_leb (c ∷ s) [] = false
text_leb (c ∷ s) (d ∷ t) = if c == d then text_leb s t else ltb c d

unfoldable pub insert_sorted : Text → List Text → List Text
unfolding text_leb
insert_sorted x [] = x ∷ []
insert_sorted x (y ∷ ys) = if text_leb x y then x ∷ y ∷ ys else y ∷ insert_sorted x ys

unfoldable pub sorted : List Text → List Text
unfolding insert_sorted
sorted [] = []
sorted (x ∷ xs) = insert_sorted x (sorted xs)

pub data Quarantine : Type 0 where
  provider_anomaly : ℕ → ℕ → Quarantine
  missing : List Text → Quarantine

abbrev pub is_missing : (Text → Text → Bool) → List Text → List Text → Text → Bool
is_missing matches remote patterns folder =
    not (any (text_eq folder) remote) && not (excluded matches folder patterns)

-- `len(missing) > 3 and local_folders and len(missing) / len(local_folders) > 0.25`.
abbrev pub is_anomaly : ℕ → ℕ → Bool
is_anomaly count total = ltb 3 count && ltb 0 total && ltb total (4 * count)

abbrev guard_anomaly : ℕ → List Text → Quarantine
guard_anomaly total found =
    if is_anomaly (length found) total then provider_anomaly (length found) total else missing found

unfoldable pub folders_to_quarantine :
    (Text → Text → Bool) → List Text → List Text → List Text → Quarantine
unfolding sorted excluded
folders_to_quarantine matches local_folders [] patterns = missing []
folders_to_quarantine matches local_folders (r ∷ remote) patterns =
    guard_anomaly (length local_folders)
      (sorted (keep (is_missing matches (r ∷ remote) patterns) local_folders))
