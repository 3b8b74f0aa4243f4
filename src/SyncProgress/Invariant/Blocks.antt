-- ===== src/SyncProgress/Invariant/Blocks.antt =====
-- Every block of the parser keeps its invariant, and so does a whole run.

use mailfallback.Prelude.{
  ℕ, true, false, ap, ◌∙◌, Option, none, some, List, [], ◌∷◌, ◌≡◌, refl, arith, length,
  Option-cases, inl, inr, ◌+◌, All,
}
use mailfallback.Prelude.Text.{Text, strip}
use mailfallback.Regex.{match_first, search_first}
use mailfallback.SyncProgress.Patterns.{
  re_folder_open, re_near_count, re_far_count, re_synchronizing, re_progress_f, re_progress_n,
  re_pulling,
}
use mailfallback.SyncProgress.Sightings.{last_opened, last_summary, opened_names}
use mailfallback.SyncProgress.Sightings.Blocks.{View, names_of, view}
use mailfallback.SyncProgress.Sightings.Steps.{after_lines, view-parse_lines}
use mailfallback.SyncProgress.Snapshot.{new_snapshot, FolderPhase, Loop, ProgressSnapshot}
use mailfallback.SyncProgress.Lines.{
  Handler, open_folder, on_folder_open, on_far_count, on_near_count, on_synchronizing,
  on_progress_f, on_progress_n, on_pulling, near_progress, far_progress, pulling_progress,
  synchronizing, finish_folder, group, number,
}
use mailfallback.SyncProgress.Parse.{
  dispatch, read_line, handlers, parse_line, parse_lines, start, parse_mbsync_lines,
}
use mailfallback.SyncProgress.Invariant.Folders.{distinct, is_known}
use mailfallback.SyncProgress.Invariant.{
  Inv, Agrees, Keeps, when-Inv, keeps_in_folder, in_folder-Inv, open_folder-Inv, Keeps-version,
  Keeps-channel, Keeps-resolving, Keeps-connecting, Keeps-tls, Keeps-auth_sasl, Keeps-auth_login,
  Keeps-logging_in, Keeps-summary, Keeps-warning, Keeps-error,
}

Keeps-folder_open : Keeps on_folder_open
unfolding on_folder_open
Keeps-folder_open line s h s' e =
    when-Inv (match_first re_folder_open line) (λ m. open_folder (group 0 m) s)
      (λ m. open_folder-Inv (group 0 m) s h) s' e

Keeps-far_count : Keeps on_far_count
unfolding on_far_count
Keeps-far_count line s h s' e =
    keeps_in_folder (search_first re_far_count line) (λ m f. record f { far = some (number 0 m) })
      (λ m. record { name = λ f. refl }) s h s' e

Keeps-near_count : Keeps on_near_count
unfolding on_near_count
Keeps-near_count line s h s' e =
    keeps_in_folder (search_first re_near_count line) (λ m f. record f { near = some (number 0 m) })
      (λ m. record { name = λ f. refl }) s h s' e

Keeps-progress_f : Keeps on_progress_f
unfolding on_progress_f
Keeps-progress_f line s h s' e =
    keeps_in_folder (match_first re_progress_f line) far_progress (λ m. record { name = λ f. refl })
      s h s' e

Keeps-progress_n : Keeps on_progress_n
unfolding on_progress_n
Keeps-progress_n line s h s' e =
    keeps_in_folder (match_first re_progress_n line) near_progress
      (λ m. record { name = λ f. ground arith }) s h s' e

Keeps-pulling : Keeps on_pulling
unfolding on_pulling
Keeps-pulling line s h s' e =
    keeps_in_folder (search_first re_pulling line) pulling_progress
      (λ m. record { name = λ f. refl }) s h s' e

synchronizing-Inv : (s : Loop) → Inv s → Inv (synchronizing s)
synchronizing-Inv s h = record {
  counted = h.counted;
  distinct_names = h.distinct_names;
  known = h.known;
  same_folder = h.same_folder;
  agrees = h.agrees;
}

finish_folder-Inv : (folder : Option Text) (s : Loop) → Inv s → Inv (finish_folder folder s)
finish_folder-Inv none s h = h
finish_folder-Inv (some name) s h =
    in_folder-Inv name (λ f. record f { phase = FolderPhase.done }) (record { name = λ f. refl }) s
      h

Keeps-synchronizing : Keeps on_synchronizing
unfolding on_synchronizing
Keeps-synchronizing line s h s' e =
    when-Inv (match_first re_synchronizing line)
      (λ m. synchronizing (finish_folder s.current_folder s))
      (λ m. synchronizing-Inv _ (finish_folder-Inv s.current_folder s h)) s' e

dispatch-Inv :
    (hs : List Handler) (line : Text) (s : Loop) → All Keeps hs → Inv s → Inv (dispatch hs line s)
unfolding dispatch
dispatch-Inv [] line s k h = h
dispatch-Inv (g ∷ hs) line s k h = elim (Option-cases (g line s)) [
  | inl miss ↦ rw (miss, dispatch) (dispatch-Inv hs line s k.1 h)
  | inr hit ↦ rw (hit.1, dispatch) (k.0 line s h hit.0 hit.1)
]

handlers_keep : (i : ℕ) → All Keeps (handlers i)
handlers_keep i = (
  Keeps-version,
  (
    Keeps-channel,
    (
      Keeps-resolving,
      (
        Keeps-connecting,
        (
          Keeps-tls,
          (
            Keeps-auth_sasl,
            (
              Keeps-auth_login,
              (
                Keeps-logging_in,
                (
                  Keeps-folder_open,
                  (
                    Keeps-far_count,
                    (
                      Keeps-near_count,
                      (
                        Keeps-synchronizing,
                        (
                          Keeps-progress_f,
                          (
                            Keeps-progress_n,
                            (Keeps-pulling, (Keeps-summary, (Keeps-warning, (Keeps-error i, tt)))),
                          ),
                        ),
                      ),
                    ),
                  ),
                ),
              ),
            ),
          ),
        ),
      ),
    ),
  ),
)

parse_line-Inv : (i : ℕ) (line : Text) (s : Loop) → Inv s → Inv (parse_line i line s)
unfolding parse_line
parse_line-Inv i line s h = read (strip line)
  where
    read : (text : Text) → Inv (read_line i text s)
    read [] = h
    read (c ∷ text) = dispatch-Inv (handlers i) (c ∷ text) s (handlers_keep i) h

pub parse_lines-Inv : (i : ℕ) (lines : List Text) (s : Loop) → Inv s → Inv (parse_lines i lines s)
unfolding parse_lines
parse_lines-Inv i [] s h = h
parse_lines-Inv i (line ∷ lines) s h =
    parse_lines-Inv (i + 1) lines (parse_line i line s) (parse_line-Inv i line s h)

start-Inv : (lines : List Text) (prior : Option ℕ) → Inv (start lines prior)
unfolding start distinct is_known
start-Inv lines none = ground arith
start-Inv lines (some n) = ground arith

-- The loop before any line.
abbrev blank : Loop
unfolding new_snapshot
blank = record { snap = new_snapshot; current_folder = none; seen_synchronizing = false }

pub record IsConsistent (lines : List Text) (snap : ProgressSnapshot) : Type 0 where
  pub names : names_of snap.per_folder ≡ opened_names [] lines
  pub folder : snap.current_folder ≡ last_opened none lines
  pub summary : snap.summary ≡ last_summary none none lines
  pub counted : snap.folder_index ≡ length snap.per_folder
  pub distinct_names : distinct snap.per_folder ≡ true
  pub known : is_known snap.current_folder snap.per_folder ≡ true
  pub agrees : Agrees snap.summary snap.folder_total_estimate snap.folder_total_estimate_source

view-start : (lines : List Text) (prior : Option ℕ) → view (start lines prior) ≡ view blank
unfolding start new_snapshot
view-start lines none = refl
view-start lines (some n) = refl

IsConsistent-of_Inv :
    (lines : List Text) (s : Loop)
    → view s ≡ after_lines lines (view blank)
    → Inv s
    → IsConsistent lines s.snap
unfolding new_snapshot
IsConsistent-of_Inv lines s read h = record {
  names = ap (λ (v : View). v.names) read;
  folder = h.same_folder ∙ ap (λ (v : View). v.folder) read;
  summary = ap (λ (v : View). v.summary) read;
  counted = h.counted;
  distinct_names = h.distinct_names;
  known = rw h.same_folder h.known;
  agrees = h.agrees;
}

-- Whatever lines mbsync prints: the folders of the snapshot are those that the lines open, each
-- once and in the order of their first opening, and the folder index is their number; the current
-- folder is the one opened last, and is among them; the summary is that of the last line that holds
-- one and reports on nothing else; and where there is a summary, the estimated total is its number
-- of boxes, and is marked as taken from it.
pub parse_mbsync_lines-IsConsistent :
    (lines : List Text) (prior : Option ℕ) → IsConsistent lines (parse_mbsync_lines lines prior)
unfolding parse_mbsync_lines distinct is_known opened_names last_opened last_summary new_snapshot
parse_mbsync_lines-IsConsistent [] prior = record {
  names = refl;
  folder = refl;
  summary = refl;
  counted = refl;
  distinct_names = refl;
  known = refl;
  agrees = tt;
}
parse_mbsync_lines-IsConsistent (line ∷ lines) prior =
    let all_lines = line ∷ lines in
    IsConsistent-of_Inv all_lines (parse_lines 0 all_lines (start all_lines prior))
      (view-parse_lines 0 all_lines (start all_lines prior)
        ∙ ap (λ (v : View). after_lines all_lines v) (view-start all_lines prior))
      (parse_lines-Inv 0 all_lines (start all_lines prior) (start-Inv all_lines prior))
