-- ===== src/SyncProgress/Sightings/Skipping.antt =====
-- A list of blocks that change none of the names, the open folder and the summary, and whether one
-- of them takes a line.
use mailfallback.Prelude.{
  ℕ, Bool, ◌&&◌, Option, none, some, List, [], ◌∷◌, ◌++◌, any, is_some, All, ◌≡◌, refl, arith,
  Option-cases, inl, inr, if◌then◌else◌,
}
use mailfallback.Prelude.Text.{Text, codes, text_eq}
use mailfallback.SyncProgress.Snapshot.{Loop}
use mailfallback.SyncProgress.Lines.{
  Handler, when, when_in, on_version, on_channel, on_resolving, on_connecting, on_tls, on_auth_sasl,
  on_auth_login, on_logging_in, on_far_count, on_near_count, on_synchronizing, on_progress_f,
  on_progress_n, on_pulling,
}
use mailfallback.SyncProgress.Reports.{on_warning, on_error}
use mailfallback.SyncProgress.Parse.{dispatch}
use mailfallback.SyncProgress.Sightings.{is_connection, is_folder_report}
use mailfallback.SyncProgress.Sightings.Blocks.{
  view, Neutral, Neutral-version, Neutral-logging_in, Neutral-far_count, Neutral-near_count,
  Neutral-progress_f, Neutral-progress_n, Neutral-pulling, Neutral-synchronizing, Neutral-channel,
  Neutral-resolving, Neutral-connecting, Neutral-tls, Neutral-auth_sasl, Neutral-auth_login,
  Neutral-warning, Neutral-error,
}

-- Whether a block of the list is entered.
abbrev pub hits : Text → Loop → List Handler → Bool
hits line s hs = any (λ (h : Handler). is_some (h line s)) hs

pub dispatch-skip :
    (hs ks : List Handler) (line : Text) (s : Loop)
    → All Neutral hs
    → view (dispatch (hs ++ ks) line s)
      ≡ (if hits line s hs then view s else view (dispatch ks line s))
unfolding dispatch
dispatch-skip [] ks line s n = refl
dispatch-skip (h ∷ hs) ks line s n = elim (Option-cases (h line s)) [
  | inl miss ↦ rw (miss, dispatch) (dispatch-skip hs ks line s n.1)
  | inr hit ↦ rw (hit.1, dispatch) (n.0 line s hit.0 hit.1)
]

abbrev pub connection_blocks : List Handler
connection_blocks =
    on_version ∷ on_channel ∷ on_resolving ∷ on_connecting ∷ on_tls ∷ on_auth_sasl ∷ on_auth_login
    ∷ on_logging_in ∷ []

abbrev pub folder_blocks : List Handler
folder_blocks =
    on_far_count ∷ on_near_count ∷ on_synchronizing ∷ on_progress_f ∷ on_progress_n ∷ on_pulling
    ∷ []

is_some-when : (m : Option (List Text)) (f : List Text → Loop) → is_some (when m f) ≡ is_some m
is_some-when none f = refl
is_some-when (some gs) f = refl

is_some-when_in :
    (m : Option (List Text)) (folder : Option Text) (f : List Text → Text → Loop)
    → is_some (when_in m folder f) ≡ (is_some m && is_some folder)
is_some-when_in none folder f = refl
is_some-when_in (some gs) none f = refl
is_some-when_in (some gs) (some name) f = refl

is_some-logging_in :
    (line : Text) (s : Loop) → is_some (on_logging_in line s) ≡ text_eq line (codes "Logging in...")
unfolding on_logging_in
is_some-logging_in line s = ground arith

pub hits-connection : (line : Text) (s : Loop) → hits line s connection_blocks ≡ is_connection line
unfolding is_connection on_version on_channel on_resolving on_connecting on_tls on_auth_sasl
    on_auth_login
hits-connection line s = simp (is_some-when, is_some-logging_in) refl

pub hits-folder :
    (line : Text) (s : Loop)
    → hits line s folder_blocks ≡ is_folder_report (is_some s.current_folder) line
unfolding is_folder_report on_far_count on_near_count on_synchronizing on_progress_f on_progress_n
    on_pulling
hits-folder line s = simp (is_some-when, is_some-when_in) refl

pub connection-Neutral : All Neutral connection_blocks
connection-Neutral = (
  Neutral-version,
  (
    Neutral-channel,
    (
      Neutral-resolving,
      (
        Neutral-connecting,
        (Neutral-tls, (Neutral-auth_sasl, (Neutral-auth_login, (Neutral-logging_in, tt)))),
      ),
    ),
  ),
)

pub folder-Neutral : All Neutral folder_blocks
folder-Neutral = (
  Neutral-far_count,
  (
    Neutral-near_count,
    (Neutral-synchronizing, (Neutral-progress_f, (Neutral-progress_n, (Neutral-pulling, tt)))),
  ),
)

pub closing-Neutral : (i : ℕ) → All Neutral (on_warning ∷ on_error i ∷ [])
closing-Neutral i = (Neutral-warning, (Neutral-error i, tt))
