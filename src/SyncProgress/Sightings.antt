-- ===== src/SyncProgress/Sightings.antt =====
-- What the lines of a log say on their own: which folder a line opens, and which line is a summary.
-- No state of the parser is kept but whether a folder was opened before.
pub mod Blocks
pub mod Skipping
pub mod Steps
use mailfallback.Prelude.{
  Bool, true, false, ◌&&◌, ◌||◌, Option, none, some, List, [], ◌∷◌, ◌++◌, any, is_some,
  if◌then◌else◌,
}
use mailfallback.Prelude.Text.{Text, codes, text_eq, strip}
use mailfallback.Regex.{match_first, search_first}
use mailfallback.SyncProgress.Patterns.{
  re_version, re_channel, re_resolving, re_connecting, re_tls, re_auth_sasl, re_auth_login,
  re_folder_open, re_near_count, re_far_count, re_synchronizing, re_progress_f, re_progress_n,
  re_pulling, re_summary,
}
use mailfallback.SyncProgress.Snapshot.{Summary}
use mailfallback.SyncProgress.Lines.{group}
use mailfallback.SyncProgress.Reports.{summary_of}

abbrev pub one_of : List Bool → Bool
one_of tests = any (λ (b : Bool). b) tests

-- A line of the connection, which is read as nothing else.
unfoldable pub is_connection : Text → Bool
is_connection line = one_of (
    is_some (match_first re_version line)
    ∷ is_some (match_first re_channel line)
    ∷ is_some (match_first re_resolving line)
    ∷ is_some (match_first re_connecting line)
    ∷ is_some (search_first re_tls line)
    ∷ is_some (search_first re_auth_sasl line)
    ∷ is_some (search_first re_auth_login line)
    ∷ text_eq line (codes "Logging in...")
    ∷ [])

-- A line on the folder that is open, or the one that starts the synchronisation.
unfoldable pub is_folder_report : Bool → Text → Bool
is_folder_report in_folder line = one_of (
    (is_some (search_first re_far_count line) && in_folder)
    ∷ (is_some (search_first re_near_count line) && in_folder)
    ∷ is_some (match_first re_synchronizing line)
    ∷ (is_some (match_first re_progress_f line) && in_folder)
    ∷ (is_some (match_first re_progress_n line) && in_folder)
    ∷ (is_some (search_first re_pulling line) && in_folder)
    ∷ [])

abbrev pub first_group : Option (List Text) → Option Text
first_group none = none
first_group (some m) = some (group 0 m)

abbrev pub summary_group : Option (List Text) → Option Summary
summary_group none = none
summary_group (some m) = some (summary_of m)

-- The folder that a stripped line opens.
unfoldable pub opened_by : Text → Option Text
unfolding is_connection
opened_by [] = none
opened_by (c ∷ line) =
    if is_connection (c ∷ line) then none else first_group (match_first re_folder_open (c ∷ line))

-- The summary that a stripped line holds.
unfoldable pub summary_in : Bool → Text → Option Summary
unfolding is_connection is_folder_report summary_of
summary_in in_folder [] = none
summary_in in_folder (c ∷ line) =
    if one_of (
      is_connection (c ∷ line)
      ∷ is_some (match_first re_folder_open (c ∷ line))
      ∷ is_folder_report in_folder (c ∷ line)
      ∷ [])
    then none
    else summary_group (search_first re_summary (c ∷ line))

abbrev pub newer {ℓ} : {A : Type ℓ} → Option A → Option A → Option A
newer none old = old
newer (some a) old = some a

abbrev pub add_name : Text → List Text → List Text
add_name name names = if any (λ (n : Text). text_eq n name) names then names else names ++ name ∷ []

abbrev pub add_opened : Option Text → List Text → List Text
add_opened none names = names
add_opened (some name) names = add_name name names

-- The folders opened so far, each once, in the order of their first opening.
unfoldable pub opened_names : List Text → List Text → List Text
unfolding opened_by
opened_names names [] = names
opened_names names (line ∷ lines) = opened_names (add_opened (opened_by (strip line)) names) lines

unfoldable pub last_opened : Option Text → List Text → Option Text
unfolding opened_by
last_opened name [] = name
last_opened name (line ∷ lines) = last_opened (newer (opened_by (strip line)) name) lines

-- The last summary, given whether a folder was opened, and the summary before these lines.
unfoldable pub last_summary : Option Text → Option Summary → List Text → Option Summary
unfolding opened_by summary_in
last_summary name summary [] = summary
last_summary name summary (line ∷ lines) =
    last_summary (newer (opened_by (strip line)) name)
      (newer (summary_in (is_some name) (strip line)) summary) lines
