-- ===== src/SyncProgress/Sightings/Blocks.antt =====
-- The blocks of the parser that change none of the names, the open folder and the summary.

use mailfallback.Prelude.{ℕ, Option, none, some, List, [], ◌∷◌, ◌≡◌, refl, sym, ap, ◌∙◌, arith}
use mailfallback.Prelude.Text.{Text}
use mailfallback.Regex.{match_first, search_first}
use mailfallback.SyncProgress.Patterns.{
  re_near_count, re_far_count, re_synchronizing, re_progress_f, re_progress_n, re_pulling,
}
use mailfallback.SyncProgress.Snapshot.{FolderPhase, FolderProgress, Loop, Summary, update_folder}
use mailfallback.SyncProgress.Lines.{
  Handler, when, when_in, on_version, on_channel, on_resolving, on_connecting, on_tls, on_auth_sasl,
  on_auth_login, on_logging_in, on_far_count, on_near_count, on_synchronizing, on_progress_f,
  on_progress_n, on_pulling, in_folder, near_progress, far_progress, pulling_progress,
  synchronizing, finish_folder, number,
}
use mailfallback.SyncProgress.Reports.{on_warning, on_error}
use mailfallback.SyncProgress.Invariant.Folders.{KeepsName}

abbrev pub names_of : List FolderProgress → List Text
names_of [] = []
names_of (f ∷ fs) = f.name ∷ names_of fs

-- The part of the parser's state that the lines determine.
pub record View : Type 0 where
  pub names : List Text
  pub folder : Option Text
  pub summary : Option Summary

abbrev pub view : Loop → View
view s = record {
  names = names_of s.snap.per_folder;
  folder = s.current_folder;
  summary = s.snap.summary;
}

abbrev pub Neutral : Handler → Type 0
Neutral h = (line : Text) (s s' : Loop) → h line s ≡ some s' → view s' ≡ view s

pub Neutral-version : Neutral on_version
unfolding on_version
Neutral-version line s s' e = ground arith

pub Neutral-logging_in : Neutral on_logging_in
unfolding on_logging_in
Neutral-logging_in line s s' e = ground arith

pub names_of-update_folder :
    (name : Text) (change : FolderProgress → FolderProgress)
    → KeepsName change
    → (fs : List FolderProgress) → names_of (update_folder name change fs) ≡ names_of fs
unfolding update_folder
names_of-update_folder name change k [] = refl
names_of-update_folder name change k (f ∷ fs) =
    ground (arith, k.name f, names_of-update_folder name change k fs)

abbrev pub view_of : List Text → Loop → View
view_of names s = record { names = names; folder = s.current_folder; summary = s.snap.summary }

pub view-in_folder :
    (name : Text) (change : FolderProgress → FolderProgress)
    → KeepsName change
    → (s : Loop) → view (in_folder name change s) ≡ view s
view-in_folder name change k s =
    ap (λ (names : List Text). view_of names s)
      (names_of-update_folder name change k s.snap.per_folder)

pub some_inj : {s t : Loop} → some s ≡ some t → s ≡ t
some_inj e = cc

-- A block that writes the current folder through `change`.
pub view-when_in :
    (m : Option (List Text)) (change : List Text → FolderProgress → FolderProgress)
    → ((gs : List Text) → KeepsName (change gs))
    → (folder : Option Text) (s s' : Loop)
    → when_in m folder (λ gs name. in_folder name (change gs) s) ≡ some s'
    → view s' ≡ view s
view-when_in none change k folder s s' e = cc
view-when_in (some gs) change k none s s' e = cc
view-when_in (some gs) change k (some name) s s' e =
    ap view (sym (some_inj e)) ∙ view-in_folder name (change gs) (k gs) s

pub Neutral-far_count : Neutral on_far_count
unfolding on_far_count
Neutral-far_count line s s' e =
    view-when_in (search_first re_far_count line) (λ m f. record f { far = some (number 0 m) })
      (λ m. record { name = λ f. refl }) s.current_folder s s' e

pub Neutral-near_count : Neutral on_near_count
unfolding on_near_count
Neutral-near_count line s s' e =
    view-when_in (search_first re_near_count line) (λ m f. record f { near = some (number 0 m) })
      (λ m. record { name = λ f. refl }) s.current_folder s s' e

pub Neutral-progress_f : Neutral on_progress_f
unfolding on_progress_f
Neutral-progress_f line s s' e =
    view-when_in (match_first re_progress_f line) far_progress (λ m. record { name = λ f. refl })
      s.current_folder s s' e

pub Neutral-progress_n : Neutral on_progress_n
unfolding on_progress_n
Neutral-progress_n line s s' e =
    view-when_in (match_first re_progress_n line) near_progress
      (λ m. record { name = λ f. ground arith }) s.current_folder s s' e

pub Neutral-pulling : Neutral on_pulling
unfolding on_pulling
Neutral-pulling line s s' e =
    view-when_in (search_first re_pulling line) pulling_progress (λ m. record { name = λ f. refl })
      s.current_folder s s' e

pub view-finish_folder : (folder : Option Text) (s : Loop) → view (finish_folder folder s) ≡ view s
view-finish_folder none s = refl
view-finish_folder (some name) s =
    view-in_folder name (λ f. record f { phase = FolderPhase.done }) (record { name = λ f. refl }) s

pub view-synchronizing : (s : Loop) → view (synchronizing s) ≡ view s
view-synchronizing s = refl

pub view-when :
    (m : Option (List Text)) (f : List Text → Loop) (s : Loop)
    → ((gs : List Text) → view (f gs) ≡ view s)
    → (s' : Loop) → when m f ≡ some s'
    → view s' ≡ view s
view-when none f s k s' e = cc
view-when (some gs) f s k s' e = ap view (sym (some_inj e)) ∙ k gs

pub Neutral-synchronizing : Neutral on_synchronizing
unfolding on_synchronizing
Neutral-synchronizing line s s' e =
    view-when (match_first re_synchronizing line)
      (λ m. synchronizing (finish_folder s.current_folder s)) s
      (λ m.
        view-synchronizing (finish_folder s.current_folder s)
        ∙ view-finish_folder s.current_folder s)
      s' e

pub Neutral-channel : Neutral on_channel
unfolding on_channel
Neutral-channel line s s' e = ground arith

pub Neutral-resolving : Neutral on_resolving
unfolding on_resolving
Neutral-resolving line s s' e = ground arith

pub Neutral-connecting : Neutral on_connecting
unfolding on_connecting
Neutral-connecting line s s' e = ground arith

pub Neutral-tls : Neutral on_tls
unfolding on_tls
Neutral-tls line s s' e = ground arith

pub Neutral-auth_sasl : Neutral on_auth_sasl
unfolding on_auth_sasl
Neutral-auth_sasl line s s' e = ground arith

pub Neutral-auth_login : Neutral on_auth_login
unfolding on_auth_login
Neutral-auth_login line s s' e = ground arith

pub Neutral-warning : Neutral on_warning
unfolding on_warning
Neutral-warning line s s' e = ground arith

pub Neutral-error : (i : ℕ) → Neutral (on_error i)
unfolding on_error
Neutral-error i line s s' e = ground arith
