-- ===== src/SyncFailures/Tests.antt =====
-- Runs of the failure classifier on log tails, and the theorems at concrete inputs.
use mailfallback.Prelude.{◌≡◌, ◌≤◌, ◌++◌, refl, none, some}
use mailfallback.SyncFailures.Precedence.{rank, classify_failure-context}
use mailfallback.Prelude.Text.{codes, text_eq}
use mailfallback.SyncFailures.{throttled, transient, throttle_signatures, classify_failure, matches}

overquota :
    classify_failure
      (codes
        "IMAP error: unexpected BYE response: [OVERQUOTA] Account exceeded command or bandwidth limits.")
      (codes "google")
    ≡ some throttled
unfolding classify_failure matches throttle_signatures text_eq
overquota = refl

reset :
    classify_failure (codes "Socket error: CONNECTION RESET by peer") (codes "x") ≡ some transient
unfolding classify_failure matches throttle_signatures text_eq
reset = refl

timeouts_folder :
    classify_failure (codes "Opening far side box Timeouts...") (codes "google") ≡ none
unfolding classify_failure matches throttle_signatures text_eq
timeouts_folder = refl

classify_failure-context_example :
    rank (classify_failure (codes "timed out") (codes "other"))
    ≤ rank
        (classify_failure (codes "a" ++ (codes "timed out" ++ codes "[THROTTLED]")) (codes "other"))
classify_failure-context_example =
    classify_failure-context (codes "a") (codes "timed out") (codes "[THROTTLED]") (codes "other")
