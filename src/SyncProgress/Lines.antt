-- ===== src/SyncProgress/Lines.antt =====
-- The handlers of parse_mbsync_lines in sync_progress.py, one for each `m = …; if m: …; continue`
-- block: `none` when the block is not entered.
use mailfallback.Prelude.{
  ℕ, suc, zero, true, Option, none, some, List, [], ◌∷◌, ◌++◌, ltb, if◌then◌else◌, length, ◌==◌,
}
use mathlib.Core.List.{reverse}
use mailfallback.Prelude.Text.{Text, codes, text_eq, digits_value}
use mailfallback.SyncProgress.Patterns.{
  re_version, re_channel, re_resolving, re_connecting, re_tls, re_auth_sasl, re_auth_login,
  re_folder_open, re_near_count, re_far_count, re_synchronizing, re_progress_f, re_progress_n,
  re_pulling,
}
use mailfallback.Regex.{match_first, search_first}
use mailfallback.SyncProgress.Snapshot.{
  FolderPhase, FolderProgress, new_folder, connecting, authenticating, listing, syncing, Loop,
  has_folder, update_folder,
}

abbrev pub Handler : Type 0
Handler = Text → Loop → Option Loop

-- `m.group(i + 1)`.
abbrev pub group : ℕ → List Text → Text
group i [] = []
group zero (g ∷ gs) = g
group (suc i) (g ∷ gs) = group i gs

-- `int(m.group(i + 1))`.
abbrev pub number : ℕ → List Text → ℕ
number i gs = digits_value 0 (group i gs)

-- `if m: …`.
abbrev pub when {ℓ} : {A : Type ℓ} → Option (List Text) → (List Text → A) → Option A
when none f = none
when (some gs) f = some (f gs)

-- `if m and current_folder: …`.
abbrev pub when_in {ℓ} :
    {A : Type ℓ} → Option (List Text) → Option Text → (List Text → Text → A) → Option A
when_in none folder f = none
when_in (some gs) none f = none
when_in (some gs) (some name) f = some (f gs name)

-- `s.rstrip(".")`.
drop_dots : Text → Text
drop_dots [] = []
drop_dots (c ∷ s) = if c == b'.' then drop_dots s else c ∷ s

unfoldable pub rstrip_dots : Text → Text
unfolding drop_dots
rstrip_dots s = reverse (drop_dots (reverse s))

unfoldable pub on_version : Handler
on_version line s =
    when (match_first re_version line)
      (λ m. record s { snap = record s.snap { mbsync_version = some (group 0 m) } })

unfoldable pub on_channel : Handler
on_channel line s =
    when (match_first re_channel line)
      (λ m. record s { snap = record s.snap { current_channel = some (group 0 m) } })

unfoldable pub on_resolving : Handler
on_resolving line s = when (match_first re_resolving line) (λ m. record s {
  snap = record s.snap { connection_host = some (rstrip_dots (group 0 m)); phase = connecting };
})

unfoldable pub on_connecting : Handler
on_connecting line s = when (match_first re_connecting line) (λ m. record s {
  snap = record s.snap {
    connection_host = some (group 0 m);
    connection_ip = some (group 1 m);
    connection_port = some (number 2 m);
    phase = connecting;
  };
})

unfoldable pub on_tls : Handler
on_tls line s =
    when (search_first re_tls line)
      (λ m. record s { snap = record s.snap { tls_info = some (codes "encrypted") } })

abbrev pub authenticate : List Text → Loop → Loop
authenticate m s = record s {
  snap = record s.snap { auth_method = some (group 0 m); phase = authenticating };
}

unfoldable pub on_auth_sasl : Handler
on_auth_sasl line s = when (search_first re_auth_sasl line) (λ m. authenticate m s)

unfoldable pub on_auth_login : Handler
on_auth_login line s = when (search_first re_auth_login line) (λ m. authenticate m s)

unfoldable pub on_logging_in : Handler
on_logging_in line s =
    if text_eq line (codes "Logging in...")
    then some (record s { snap = record s.snap { phase = authenticating } })
    else none

-- A folder that is opened again keeps its object.
abbrev pub add_folder : Text → List FolderProgress → List FolderProgress
add_folder name fs = if has_folder name fs then fs else fs ++ new_folder name ∷ []

abbrev pub start_loading : FolderProgress → FolderProgress
start_loading f = record f { phase = FolderPhase.loading }

unfoldable pub open_folder : Text → Loop → Loop
open_folder name s =
    let fs = add_folder name s.snap.per_folder in
    record s {
      current_folder = some name;
      snap = record s.snap {
        per_folder = update_folder name start_loading fs;
        current_folder = some name;
        folder_index = length fs;
        phase = if s.seen_synchronizing then syncing else listing;
      };
    }

unfoldable pub on_folder_open : Handler
unfolding open_folder
on_folder_open line s = when (match_first re_folder_open line) (λ m. open_folder (group 0 m) s)

abbrev pub in_folder : Text → (FolderProgress → FolderProgress) → Loop → Loop
in_folder name change s = record s {
  snap = record s.snap { per_folder = update_folder name change s.snap.per_folder };
}

unfoldable pub on_far_count : Handler
on_far_count line s =
    when_in (search_first re_far_count line) s.current_folder
      (λ m name. in_folder name (λ f. record f { far = some (number 0 m) }) s)

unfoldable pub on_near_count : Handler
on_near_count line s =
    when_in (search_first re_near_count line) s.current_folder
      (λ m name. in_folder name (λ f. record f { near = some (number 0 m) }) s)

abbrev pub finish_folder : Option Text → Loop → Loop
finish_folder none s = s
finish_folder (some name) s = in_folder name (λ f. record f { phase = FolderPhase.done }) s

abbrev pub synchronizing : Loop → Loop
synchronizing s = record s { seen_synchronizing = true; snap = record s.snap { phase = syncing } }

unfoldable pub on_synchronizing : Handler
on_synchronizing line s =
    when (match_first re_synchronizing line) (λ m. synchronizing (finish_folder s.current_folder s))

abbrev pub far_progress : List Text → FolderProgress → FolderProgress
far_progress m f = record f {
  added_done = number 0 m;
  added_total = number 1 m;
  flagged_done = number 2 m;
  flagged_total = number 3 m;
  expunged_done = number 4 m;
  expunged_total = number 5 m;
  phase = FolderPhase.pulling;
}

unfoldable pub on_progress_f : Handler
on_progress_f line s =
    when_in (match_first re_progress_f line) s.current_folder
      (λ m name. in_folder name (far_progress m) s)

unfoldable pub near_progress : List Text → FolderProgress → FolderProgress
near_progress m f =
    if ltb f.added_done (number 0 m)
    then record f { added_done = number 0 m; added_total = number 1 m }
    else f

unfoldable pub on_progress_n : Handler
unfolding near_progress
on_progress_n line s =
    when_in (match_first re_progress_n line) s.current_folder
      (λ m name. in_folder name (near_progress m) s)

abbrev pub pulling_progress : List Text → FolderProgress → FolderProgress
pulling_progress m f = record f {
  added_done = number 0 m;
  added_total = number 1 m;
  phase = FolderPhase.pulling;
}

unfoldable pub on_pulling : Handler
on_pulling line s =
    when_in (search_first re_pulling line) s.current_folder
      (λ m name. in_folder name (pulling_progress m) s)
