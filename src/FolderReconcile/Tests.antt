-- ===== src/FolderReconcile/Tests.antt =====
-- The quarantine at concrete folders.
use mailfallback.Prelude.{
  ◌*◌, ◌≤◌, Bool, true, false, List, [], ◌∷◌, ◌++◌, any, length, ◌≡◌, ◌≢◌, ◌↔◌, ◌⊎◌, refl,
}
use mailfallback.Prelude.Text.{Text, codes, text_eq}
use mailfallback.FolderReconcile.{
  Minute, missing, quarantine_name, original_folder_name, leaf_of, prefix, folders_to_quarantine,
  sorted, insert_sorted, excluded, eat, longest_name, is_stamped, is_digit, closes_number, text_leb,
}
use mailfallback.FolderReconcile.RoundTrip.{
  one_line, is_folded, original_folder_name-quarantine_name, original_folder_name_iff,
}
use mailfallback.FolderReconcile.Anomaly.{folders_to_quarantine_bound}

abbrev when : Minute
when = record { year = 2026; month = 7; day = 5; hour = 13; minute = 4 }

abbrev nested : Text
nested = codes "Work/2024"

nested_some : nested ≢ []
nested_some h = cc

nested_line : one_line nested ≡ true
unfolding one_line
nested_line = refl

-- A second folder of the same name in the same minute.
collided : original_folder_name (prefix ++ codes "Work (2026-07-05 1304) (2)") ≡ codes "Work"
unfolding original_folder_name longest_name is_stamped eat is_digit closes_number
collided = refl

original_folder_name-quarantine_name_example :
    original_folder_name (prefix ++ quarantine_name nested when) ≡ leaf_of nested
original_folder_name-quarantine_name_example =
    original_folder_name-quarantine_name nested when nested_some nested_line

original_folder_name_iff_example :
    (original_folder_name (prefix ++ quarantine_name nested when) ≡ nested)
    ↔ (any is_folded nested ≡ false)
original_folder_name_iff_example = original_folder_name_iff nested when nested_some nested_line

abbrev no_glob : Text → Text → Bool
no_glob name pattern = false

abbrev local : List Text
local = codes "Old" ∷ codes "INBOX" ∷ codes "Archive" ∷ []

abbrev remote : List Text
remote = codes "INBOX" ∷ []

abbrev gone : List Text
gone = codes "Archive" ∷ codes "Old" ∷ []

two_gone : folders_to_quarantine no_glob local remote [] ≡ missing gone
unfolding folders_to_quarantine sorted insert_sorted text_leb excluded text_eq
two_gone = refl

folders_to_quarantine_bound_example : (length gone ≤ 3) ⊎ (4 * length gone ≤ length local)
folders_to_quarantine_bound_example =
    folders_to_quarantine_bound no_glob local remote [] gone two_gone
