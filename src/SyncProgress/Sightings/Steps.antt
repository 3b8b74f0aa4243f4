-- ===== src/SyncProgress/Sightings/Steps.antt =====
-- The parser reads of each line what the line says on its own.

use mailfallback.Prelude.{
  ℕ, ◌+◌, Bool, true, false, ◌||◌, Option, none, some, List, [], ◌∷◌, ◌++◌, any, is_some, ◌≡◌, refl,
  ap, ◌∙◌, arith, Option-cases, Bool-cases, inl, inr, if◌then◌else◌,
}
use mailfallback.Prelude.Text.{Text, text_eq, strip}
use mailfallback.Regex.{match_first, search_first}
use mailfallback.SyncProgress.Patterns.{re_folder_open, re_summary}
use mailfallback.SyncProgress.Snapshot.{FolderProgress, Loop, Summary, has_folder, new_folder}
use mailfallback.SyncProgress.Lines.{
  Handler, open_folder, on_folder_open, group, add_folder, start_loading,
}
use mailfallback.SyncProgress.Reports.{on_summary, on_warning, on_error}
use mailfallback.SyncProgress.Parse.{dispatch, handlers, parse_line, parse_lines, read_line}
use mailfallback.SyncProgress.Sightings.{
  add_name, add_opened, is_connection, is_folder_report, last_opened, last_summary, newer,
  opened_by, opened_names, summary_group, summary_in,
}
use mailfallback.SyncProgress.Sightings.Blocks.{
  names_of, View, view, names_of-update_folder, view_of,
}
use mailfallback.SyncProgress.Sightings.Skipping.{
  hits, dispatch-skip, connection_blocks, folder_blocks, hits-connection, hits-folder,
  connection-Neutral, folder-Neutral, closing-Neutral,
}

names_of-append :
    (name : Text) (fs : List FolderProgress)
    → names_of (fs ++ new_folder name ∷ []) ≡ names_of fs ++ name ∷ []
unfolding new_folder
names_of-append name [] = refl
names_of-append name (f ∷ fs) = ap (λ (names : List Text). f.name ∷ names) (names_of-append name fs)

has_folder-names_of :
    (name : Text) (fs : List FolderProgress)
    → has_folder name fs ≡ any (λ (n : Text). text_eq n name) (names_of fs)
unfolding has_folder
has_folder-names_of name [] = refl
has_folder-names_of name (f ∷ fs) = ground (arith, has_folder-names_of name fs)

names_of-add_folder :
    (name : Text) (fs : List FolderProgress)
    → names_of (add_folder name fs) ≡ add_name name (names_of fs)
names_of-add_folder name fs = ground (arith, has_folder-names_of name fs, names_of-append name fs)

abbrev opened_view : Text → View → View
opened_view name v = record {
  names = add_name name v.names;
  folder = some name;
  summary = v.summary;
}

abbrev summary_view : Option Summary → View → View
summary_view summary v = record v { summary = newer summary v.summary }

-- What one line changes.
abbrev after_line : Text → View → View
after_line line v = record {
  names = add_opened (opened_by line) v.names;
  folder = newer (opened_by line) v.folder;
  summary = newer (summary_in (is_some v.folder) line) v.summary;
}

view-open_folder : (name : Text) (s : Loop) → view (open_folder name s) ≡ opened_view name (view s)
unfolding open_folder
view-open_folder name s =
    ap (λ (names : List Text). view_of names (record s { current_folder = some name }))
      (names_of-update_folder name start_loading (record { name = λ f. refl })
          (add_folder name s.snap.per_folder)
        ∙ names_of-add_folder name s.snap.per_folder)

dispatch-entered :
    (h : Handler) (hs : List Handler) (line : Text) (s s' : Loop)
    → h line s ≡ some s'
    → dispatch (h ∷ hs) line s ≡ s'
unfolding dispatch
dispatch-entered h hs line s s' e = rw e refl

dispatch-missed :
    (h : Handler) (hs : List Handler) (line : Text) (s : Loop)
    → h line s ≡ none
    → dispatch (h ∷ hs) line s ≡ dispatch hs line s
unfolding dispatch
dispatch-missed h hs line s e = rw e refl

if_same {ℓ} : {A : Type ℓ} (b : Bool) (a : A) → (if b then a else a) ≡ a
if_same true a = refl
if_same false a = refl

abbrev closing_blocks : ℕ → List Handler
closing_blocks i = on_warning ∷ on_error i ∷ []

view-closing : (i : ℕ) (line : Text) (s : Loop) → view (dispatch (closing_blocks i) line s) ≡ view s
unfolding dispatch
view-closing i line s =
    dispatch-skip (closing_blocks i) [] line s (closing-Neutral i)
    ∙ if_same (hits line s (closing_blocks i)) (view s)

summary_hit :
    (line : Text) (s s' : Loop)
    → on_summary line s ≡ some s'
    → view s' ≡ summary_view (summary_group (search_first re_summary line)) (view s)
unfolding on_summary
summary_hit line s s' e = ground arith

summary_missed :
    (line : Text) (s : Loop)
    → on_summary line s ≡ none
    → summary_group (search_first re_summary line) ≡ none
unfolding on_summary
summary_missed line s e = ground arith

view-summary :
    (i : ℕ) (line : Text) (s : Loop)
    → view (dispatch (on_summary ∷ closing_blocks i) line s)
      ≡ summary_view (summary_group (search_first re_summary line)) (view s)
view-summary i line s = elim (Option-cases (on_summary line s)) [
  | inl e ↦
      rw (summary_missed line s e)
        (ap view (dispatch-missed on_summary (closing_blocks i) line s e) ∙ view-closing i line s)
  | inr (s', e) ↦
      ap view (dispatch-entered on_summary (closing_blocks i) line s s' e) ∙ summary_hit line s s' e
]

folder_hit :
    (line : Text) (s : Loop) (m : List Text)
    → match_first re_folder_open line ≡ some m
    → on_folder_open line s ≡ some (open_folder (group 0 m) s)
unfolding on_folder_open
folder_hit line s m e = rw e refl

folder_missed :
    (line : Text) (s : Loop) → match_first re_folder_open line ≡ none → on_folder_open line s ≡ none
unfolding on_folder_open
folder_missed line s e = rw e refl

-- The blocks after those for a folder that is opened.
abbrev later_blocks : ℕ → List Handler
later_blocks i = folder_blocks ++ on_summary ∷ closing_blocks i

view-later :
    (i : ℕ) (line : Text) (s : Loop)
    → view (dispatch (later_blocks i) line s) ≡ (
        if is_folder_report (is_some s.current_folder) line
        then view s
        else summary_view (summary_group (search_first re_summary line)) (view s))
view-later i line s =
    dispatch-skip folder_blocks (on_summary ∷ closing_blocks i) line s folder-Neutral
    ∙ rw (hits-folder line s, view-summary i line s) refl

report_or_summary :
    (report : Bool) (summary : Option Summary) (v : View)
    → (if report then v else summary_view summary v)
      ≡ summary_view (if report || false then none else summary) v
report_or_summary true summary v = refl
report_or_summary false summary v = refl

view-dispatch :
    (i : ℕ) (c : ℕ) (line : Text) (s : Loop)
    → view (dispatch (handlers i) (c ∷ line) s) ≡ after_line (c ∷ line) (view s)
unfolding opened_by summary_in
view-dispatch i c line s =
    dispatch-skip connection_blocks (on_folder_open ∷ later_blocks i) (c ∷ line) s
      connection-Neutral
    ∙ rw (hits-connection (c ∷ line) s) (elim (Bool-cases (is_connection (c ∷ line))) [
      | inl e ↦ rw e refl
      | inr e ↦ elim (Option-cases (match_first re_folder_open (c ∷ line))) [
        | inl missed ↦
            rw (e, missed)
              (ap view (
                  dispatch-missed on_folder_open (later_blocks i) (c ∷ line) s
                    (folder_missed (c ∷ line) s missed))
                ∙ view-later i (c ∷ line) s
                ∙ report_or_summary (is_folder_report (is_some s.current_folder) (c ∷ line))
                    (summary_group (search_first re_summary (c ∷ line))) (view s))
        | inr (m, hit) ↦
            rw (e, hit)
              (ap view (
                  dispatch-entered on_folder_open (later_blocks i) (c ∷ line) s
                    (open_folder (group 0 m) s) (folder_hit (c ∷ line) s m hit))
                ∙ view-open_folder (group 0 m) s)
      ]
    ])

view-parse_line :
    (i : ℕ) (line : Text) (s : Loop) → view (parse_line i line s) ≡ after_line (strip line) (view s)
unfolding parse_line opened_by summary_in
view-parse_line i line s = read (strip line)
  where
    read : (text : Text) → view (read_line i text s) ≡ after_line text (view s)
    read [] = refl
    read (c ∷ text) = view-dispatch i c text s

abbrev pub after_lines : List Text → View → View
after_lines lines v = record {
  names = opened_names v.names lines;
  folder = last_opened v.folder lines;
  summary = last_summary v.folder v.summary lines;
}

-- The names, the open folder and the summary after any lines are those that the lines themselves
-- tell.
pub view-parse_lines :
    (i : ℕ) (lines : List Text) (s : Loop)
    → view (parse_lines i lines s) ≡ after_lines lines (view s)
unfolding parse_lines opened_names last_opened last_summary
view-parse_lines i [] s = refl
view-parse_lines i (line ∷ lines) s =
    view-parse_lines (i + 1) lines (parse_line i line s)
    ∙ ap (λ (v : View). after_lines lines v) (view-parse_line i line s)
