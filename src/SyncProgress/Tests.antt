-- ===== src/SyncProgress/Tests.antt =====
-- Runs of the parser and of the classifier, and the theorems at concrete inputs.
use mailfallback.Prelude.{ℕ, true, Option, none, some, List, [], ◌∷◌, ◌≡◌, ◌≢◌, refl}
use mailfallback.Prelude.Text.{Text, codes, strip, is_space, text_eq, digits_value}
use mailfallback.Regex.{search_first, literal, literal_i}
use mailfallback.SyncProgress.Errors.{
  token_refresh, error_categories, classify_error, error_category, describe_error,
}
use mailfallback.SyncProgress.Patterns.{patterns}
use mailfallback.SyncProgress.Snapshot.{
  Summary, FolderProgress, has_folder, update_folder, new_folder,
}
use mailfallback.SyncProgress.Sightings.{
  is_connection, is_folder_report, last_summary, opened_by, opened_names, summary_in,
}
use mailfallback.SyncProgress.Reports.{summary_of, on_summary, on_warning, on_error}
use mailfallback.SyncProgress.Lines.{
  on_version, on_channel, on_resolving, on_connecting, on_tls, on_auth_sasl, on_auth_login,
  on_logging_in, on_folder_open, on_far_count, on_near_count, on_synchronizing, on_progress_f,
  on_progress_n, on_pulling,
}
use mailfallback.SyncProgress.Parse.{parse_mbsync_lines, parse_lines, parse_line, dispatch}
use mailfallback.Constants.{token_refresh_failed}
use mailfallback.SyncProgress.Invariant.Blocks.{IsConsistent, parse_mbsync_lines-IsConsistent}

abbrev log : List Text
log =
    codes "isync 1.5.1"
    ∷ codes "  Connecting to imap.example.org (1.2.3.4:993)... "
    ∷ codes "Opening far side box INBOX..."
    ∷ codes "far side: 120 messages, 3 recent"
    ∷ codes "Opening far side box Work/2024..."
    ∷ codes "Opening far side box INBOX..."
    ∷ codes "F: +7/120 *1/2 #0/0"
    ∷ codes "IMAP error: AUTHENTICATIONFAILED x"
    ∷ codes "Channels: 1    Boxes: 3    Far: +0 *0 #0 -0    Near: +7 *0 #0 -0"
    ∷ []

abbrev folder_counts : List FolderProgress → List (ℕ × ℕ)
folder_counts [] = []
folder_counts (f ∷ fs) = (f.added_done, f.added_total) ∷ folder_counts fs

run_counts : folder_counts (parse_mbsync_lines log none).per_folder ≡ (7, 120) ∷ (0, 0) ∷ []
unfolding parse_mbsync_lines parse_lines parse_line dispatch on_version on_channel on_resolving
    on_connecting on_tls on_auth_sasl on_auth_login on_logging_in on_folder_open on_far_count
    on_near_count on_synchronizing on_progress_f on_progress_n on_pulling on_summary on_warning
    on_error patterns search_first strip text_eq has_folder update_folder new_folder digits_value
run_counts = refl

abbrev boxes : Option Summary → ℕ
boxes none = 0
boxes (some summary) = summary.boxes

-- What the same lines tell on their own.
told :
    (opened_names [] log ≡ codes "INBOX" ∷ codes "Work/2024" ∷ [])
    × (boxes (last_summary none none log) ≡ 3)
unfolding opened_names last_summary opened_by summary_in is_connection is_folder_report summary_of
    patterns search_first strip text_eq digits_value
told = (refl, refl)

parse_mbsync_lines-IsConsistent_example : IsConsistent log (parse_mbsync_lines log none)
parse_mbsync_lines-IsConsistent_example = parse_mbsync_lines-IsConsistent log none

timed_out_text : codes "timed out" ≢ []
timed_out_text h = cc

rejected_password :
    describe_error (some (codes "IMAP error: authenticationfailed")) true
    ≡ "The server rejected the password."
unfolding describe_error error_category classify_error error_categories search_first literal
    literal_i
rejected_password = refl

refresh_text : error_category (some token_refresh_failed) ≡ token_refresh
unfolding describe_error error_category classify_error error_categories search_first literal
    literal_i is_space
refresh_text = refl
