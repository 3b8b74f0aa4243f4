-- ===== src/SyncProgress/Invariant.antt =====
-- What holds of the parser's state after any lines.
pub mod Folders
pub mod Blocks
use mathlib.Core.Path.{subst}
use mailfallback.Prelude.{
  ℕ, Bool, true, false, Option, none, some, List, [], ◌∷◌, ◌≡◌, refl, arith, length, Option-cases,
  inl, inr, ◌+◌, ◌∙◌, sym, All,
}
use mailfallback.Prelude.Text.{Text}
use mailfallback.Regex.{match_first, search_first}
use mailfallback.SyncProgress.Patterns.{
  re_version, re_channel, re_resolving, re_connecting, re_tls, re_auth_sasl, re_auth_login,
  re_folder_open, re_near_count, re_far_count, re_synchronizing, re_progress_f, re_progress_n,
  re_pulling, re_summary, re_warning, re_error_line,
}
use mailfallback.SyncProgress.Snapshot.{
  FolderPhase, FolderProgress, EstimateSource, Summary, Loop, ProgressSnapshot, has_folder,
  update_folder, new_snapshot,
}
use mailfallback.SyncProgress.Reports.{on_summary, on_warning, on_error}
use mailfallback.SyncProgress.Lines.{
  Handler, when, when_in, on_version, on_channel, on_resolving, on_connecting, on_tls, on_auth_sasl,
  on_auth_login, on_logging_in, open_folder, on_folder_open, on_far_count, on_near_count,
  on_synchronizing, on_progress_f, on_progress_n, on_pulling, in_folder, near_progress,
  far_progress, pulling_progress, synchronizing, finish_folder, group, number, add_folder,
  start_loading,
}
use mailfallback.SyncProgress.Parse.{
  dispatch, handlers, parse_line, parse_lines, start, parse_mbsync_lines,
}
use Folders.{
  distinct, is_known, KeepsName, length-update_folder, distinct-update_folder,
  is_known-update_folder, has_folder-update_folder, distinct-add_folder, has_folder-add_folder,
}

-- The total taken from the summary line is its number of boxes.
abbrev pub Agrees : Option Summary → Option ℕ → Option EstimateSource → Type 0
Agrees none total source = Unit
Agrees (some x) total source = (total ≡ some x.boxes) × (source ≡ some EstimateSource.summary)

pub record Inv (s : Loop) : Type 0 where
  pub counted : s.snap.folder_index ≡ length s.snap.per_folder
  pub distinct_names : distinct s.snap.per_folder ≡ true
  pub known : is_known s.current_folder s.snap.per_folder ≡ true
  pub same_folder : s.snap.current_folder ≡ s.current_folder
  pub agrees :
      Agrees s.snap.summary s.snap.folder_total_estimate s.snap.folder_total_estimate_source

abbrev pub Keeps : Handler → Type 0
Keeps h = (line : Text) (s : Loop) → Inv s → (s' : Loop) → h line s ≡ some s' → Inv s'

pub Keeps-version : Keeps on_version
unfolding on_version
Keeps-version line s h s' e = ground arith

pub Keeps-channel : Keeps on_channel
unfolding on_channel
Keeps-channel line s h s' e = ground arith

pub Keeps-resolving : Keeps on_resolving
unfolding on_resolving
Keeps-resolving line s h s' e = ground arith

pub Keeps-connecting : Keeps on_connecting
unfolding on_connecting
Keeps-connecting line s h s' e = ground arith

pub Keeps-tls : Keeps on_tls
unfolding on_tls
Keeps-tls line s h s' e = ground arith

pub Keeps-auth_sasl : Keeps on_auth_sasl
unfolding on_auth_sasl
Keeps-auth_sasl line s h s' e = ground arith

pub Keeps-auth_login : Keeps on_auth_login
unfolding on_auth_login
Keeps-auth_login line s h s' e = ground arith

pub Keeps-logging_in : Keeps on_logging_in
unfolding on_logging_in
Keeps-logging_in line s h s' e = ground arith

pub Keeps-summary : Keeps on_summary
unfolding on_summary
Keeps-summary line s h s' e = ground arith

pub Keeps-warning : Keeps on_warning
unfolding on_warning
Keeps-warning line s h s' e = ground arith

pub Keeps-error : (i : ℕ) → Keeps (on_error i)
unfolding on_error
Keeps-error i line s h s' e = ground arith

pub in_folder-Inv :
    (name : Text) (change : FolderProgress → FolderProgress)
    → KeepsName change
    → (s : Loop) → Inv s
    → Inv (in_folder name change s)
in_folder-Inv name change k s h = record {
  counted = h.counted ∙ sym (length-update_folder name change k s.snap.per_folder);
  distinct_names = distinct-update_folder name change k s.snap.per_folder ∙ h.distinct_names;
  known = is_known-update_folder name change k s.current_folder s.snap.per_folder ∙ h.known;
  same_folder = h.same_folder;
  agrees = h.agrees;
}

pub open_folder-Inv : (name : Text) (s : Loop) → Inv s → Inv (open_folder name s)
unfolding open_folder is_known
open_folder-Inv name s h =
    let fs = add_folder name s.snap.per_folder in
    record {
      counted = sym (length-update_folder name start_loading loading fs);
      distinct_names =
          distinct-update_folder name start_loading loading fs
          ∙ distinct-add_folder name s.snap.per_folder h.distinct_names;
      known =
          has_folder-update_folder name start_loading loading name fs
          ∙ has_folder-add_folder name s.snap.per_folder;
      same_folder = refl;
      agrees = h.agrees;
    }
  where
    loading : KeepsName start_loading
    loading = record { name = λ f. refl }

some_injective : {s t : Loop} → some s ≡ some t → s ≡ t
some_injective e = cc

pub when-Inv :
    (m : Option (List Text)) (f : List Text → Loop)
    → ((gs : List Text) → Inv (f gs))
    → (s' : Loop) → when m f ≡ some s'
    → Inv s'
when-Inv none f k s' e = cc
when-Inv (some gs) f k s' e = subst Inv (some_injective e) (k gs)

pub when_in-Inv :
    (m : Option (List Text)) (folder : Option Text) (f : List Text → Text → Loop)
    → ((gs : List Text) (name : Text) → Inv (f gs name))
    → (s' : Loop) → when_in m folder f ≡ some s'
    → Inv s'
when_in-Inv none folder f k s' e = cc
when_in-Inv (some gs) none f k s' e = cc
when_in-Inv (some gs) (some name) f k s' e = subst Inv (some_injective e) (k gs name)

-- A block that writes the current folder through `change`.
pub keeps_in_folder :
    (m : Option (List Text)) (change : List Text → FolderProgress → FolderProgress)
    → ((gs : List Text) → KeepsName (change gs))
    → (s : Loop) → Inv s
    → (s' : Loop) → when_in m s.current_folder (λ gs name. in_folder name (change gs) s) ≡ some s'
    → Inv s'
keeps_in_folder m change k s h s' e =
    when_in-Inv m s.current_folder (λ gs name. in_folder name (change gs) s)
      (λ gs name. in_folder-Inv name (change gs) (k gs) s h) s' e
