-- ===== src/SyncProgress/Parse.antt =====
-- The loop of parse_mbsync_lines in sync_progress.py.
use mailfallback.Prelude.{ℕ, false, Option, none, some, List, [], ◌∷◌, last, ◌+◌}
use mailfallback.Prelude.Text.{Text, strip}
use mailfallback.SyncProgress.Snapshot.{
  starting, previous_sync, ProgressSnapshot, new_snapshot, Loop,
}
use mailfallback.SyncProgress.Reports.{on_summary, on_warning, on_error}
use mailfallback.SyncProgress.Lines.{
  Handler, on_version, on_channel, on_resolving, on_connecting, on_tls, on_auth_sasl, on_auth_login,
  on_logging_in, on_folder_open, on_far_count, on_near_count, on_synchronizing, on_progress_f,
  on_progress_n, on_pulling,
}

-- The blocks, in the order of the code.
abbrev pub handlers : ℕ → List Handler
handlers i =
    on_version
    ∷ on_channel
    ∷ on_resolving
    ∷ on_connecting
    ∷ on_tls
    ∷ on_auth_sasl
    ∷ on_auth_login
    ∷ on_logging_in
    ∷ on_folder_open
    ∷ on_far_count
    ∷ on_near_count
    ∷ on_synchronizing
    ∷ on_progress_f
    ∷ on_progress_n
    ∷ on_pulling
    ∷ on_summary
    ∷ on_warning
    ∷ on_error i
    ∷ []

-- `continue` ends the line at the first block that is entered; a line that enters none is skipped.
unfoldable pub dispatch : List Handler → Text → Loop → Loop
dispatch [] line s = s
dispatch (h ∷ hs) line s = elim (h line s) [ some s' ↦ s' | none ↦ dispatch hs line s ]

-- `if not line: continue`.
abbrev pub read_line : ℕ → Text → Loop → Loop
read_line i [] s = s
read_line i (c ∷ line) s = dispatch (handlers i) (c ∷ line) s

unfoldable pub parse_line : ℕ → Text → Loop → Loop
parse_line i raw_line s = read_line i (strip raw_line) s

-- `for i, raw_line in enumerate(lines)`.
unfoldable pub parse_lines : ℕ → List Text → Loop → Loop
parse_lines i [] s = s
parse_lines i (raw_line ∷ lines) s = parse_lines (i + 1) lines (parse_line i raw_line s)

abbrev with_estimate : Option ℕ → ProgressSnapshot → ProgressSnapshot
with_estimate none snap = snap
with_estimate (some n) snap = record snap {
  folder_total_estimate = some n;
  folder_total_estimate_source = some previous_sync;
}

unfoldable pub start : List Text → Option ℕ → Loop
unfolding new_snapshot
start lines prior_folder_count = record {
  snap =
      with_estimate prior_folder_count
        (record new_snapshot { raw_tail = last 20 lines; phase = starting });
  current_folder = none;
  seen_synchronizing = false;
}

unfoldable pub parse_mbsync_lines : List Text → Option ℕ → ProgressSnapshot
unfolding start new_snapshot
parse_mbsync_lines [] prior_folder_count = new_snapshot
parse_mbsync_lines (line ∷ lines) prior_folder_count =
    (parse_lines 0 (line ∷ lines) (start (line ∷ lines) prior_folder_count)).snap
