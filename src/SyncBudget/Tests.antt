-- ===== src/SyncBudget/Tests.antt =====
-- Runs of the budget arithmetic, and the theorems at concrete inputs.
use Prim.Native.Nat.{min, max}
use mailfallback.Prelude.{◌+◌, ◌-◌, ◌*◌, ◌^◌, ◌≡◌, refl, none, some}
use mailfallback.Prelude.Text.{codes, text_eq}
use mailfallback.Clock.{hour}
use mailfallback.SyncBudget.{Ratio, daily_budget_bytes, label, hours, next_throttle_resume}
use mailfallback.SyncBudget.Backoff.{next_throttle_resume_exact}

google_default : daily_budget_bytes none (codes "google") ≡ some 2097152000
unfolding daily_budget_bytes text_eq
google_default = refl

other_default : daily_budget_bytes none (codes "fastmail") ≡ none
unfolding daily_budget_bytes text_eq
other_default = refl

label_rounds_up : label 5400 ≡ hours 2
unfolding label
label_rounds_up = refl

abbrev slow : Ratio
slow = record { num = 1; den = 2 }

next_throttle_resume_exact_example :
    next_throttle_resume 0 3 5 ≡ 0 + min (4 * hour * 2 ^ (max 1 3 - 1)) (24 * hour) + 5
next_throttle_resume_exact_example = next_throttle_resume_exact 0 3 5
