-- ===== src/SyncProgress/Reports.antt =====
-- The handlers of parse_mbsync_lines for the summary line, the warnings and the errors.
use mailfallback.Prelude.{ℕ, Bool, true, false, some, List, [], ◌∷◌, ◌++◌}
use mailfallback.Prelude.Text.{Text}
use mailfallback.SyncProgress.Patterns.{re_summary, re_warning, re_error_line}
use mailfallback.Regex.{match_first, search_first}
use mailfallback.SyncProgress.Errors.{Action, no_action, classify_error}
use mailfallback.SyncProgress.Snapshot.{ParsedError, Phase, error, EstimateSource, Summary}
use mailfallback.SyncProgress.Lines.{Handler, group, number, when}

unfoldable pub summary_of : List Text → Summary
summary_of m = record {
  channels = number 0 m;
  boxes = number 1 m;
  far_added = number 2 m;
  far_flagged = number 3 m;
  far_expunged = number 4 m;
  far_deleted = number 5 m;
  near_added = number 6 m;
  near_flagged = number 7 m;
  near_expunged = number 8 m;
  near_deleted = number 9 m;
}

unfoldable pub on_summary : Handler
unfolding summary_of
on_summary line s = when (search_first re_summary line) (λ m. record s {
  snap = record s.snap {
    summary = some (summary_of m);
    folder_total_estimate = some (number 1 m);
    folder_total_estimate_source = some EstimateSource.summary;
    phase = Phase.done;
  };
})

unfoldable pub on_warning : Handler
on_warning line s =
    when (match_first re_warning line)
      (λ m. record s { snap = record s.snap { warnings = s.snap.warnings ++ group 0 m ∷ [] } })

abbrev pub is_actionable : Action → Bool
is_actionable no_action = false
is_actionable _ = true

-- `if snap.phase != "done": snap.phase = "error"`.
abbrev pub failed_phase : Phase → Phase
failed_phase Phase.done = Phase.done
failed_phase _ = error

unfoldable pub parsed_error : ℕ → Text → Text → ParsedError
parsed_error i line text =
    let row = classify_error text in
    record {
      at_line = i;
      category = row.category;
      user_message = row.user_message;
      technical_detail = line;
      actionable = is_actionable row.action;
      action = row.action;
    }

unfoldable pub on_error : ℕ → Handler
on_error i line s = when (match_first re_error_line line) (λ m. record s {
  snap = record s.snap {
    errors = s.snap.errors ++ parsed_error i line (group 0 m) ∷ [];
    phase = failed_phase s.snap.phase;
  };
})
