-- ===== src/SyncBudget.antt =====
-- src/mailfallback/services/sync_budget.py: the daily byte budget, the initial-sync ETA and the
-- resume times of the self-recovering pauses. The code's floats are exact fractions here, and
-- `random.uniform` is an argument, the jitter in microseconds.
pub mod Backoff
pub mod Estimate
mod Tests
use Prim.Native.Nat.{min, max}
use mailfallback.Prelude.{
  ℕ, zero, suc, ◌+◌, ◌-◌, ◌*◌, ◌/◌, ◌^◌, Bool, true, false, Option, none, some, ◌==◌, ltb, leb,
  if◌then◌else◌,
}
use mailfallback.Prelude.Text.{Text, codes, text_eq}
use mailfallback.Clock.{hour, minute, day}

abbrev mib : ℕ
mib = 1024 * 1024

abbrev google : Text
google = codes "google"

-- `PROVIDER_DAILY_BUDGET_MB.get(provider)`.
provider_daily_budget_mb : Text → Option ℕ
provider_daily_budget_mb provider = if text_eq provider google then some 2000 else none

-- The arguments are the account's `daily_sync_budget_mb` and `provider`.
unfoldable pub daily_budget_bytes : Option ℕ → Text → Option ℕ
unfolding provider_daily_budget_mb
daily_budget_bytes (some zero) provider = none
daily_budget_bytes (some (suc n)) provider = some (suc n * mib)
daily_budget_bytes none provider = elim (provider_daily_budget_mb provider) [
  | none ↦ none
  | some mb ↦ some (mb * mib)
]

-- A non-negative fraction, for the code's floats.
pub record Ratio : Type 0 where
  pub num : ℕ
  pub den : ℕ

-- `0..100`: `done / total * 100`, clamped.
unfoldable pub compute_progress : ℕ → Option ℕ → Option Ratio
compute_progress done_msgs none = none
compute_progress done_msgs (some zero) = none
compute_progress done_msgs (some (suc t)) =
    some (record { num = min (100 * suc t) (done_msgs * 100); den = suc t })

-- "<1h", "≈ Nh" and "≈ Nd".
pub data Label : Type 0 where
  under_an_hour : Label
  hours : ℕ → Label
  days : ℕ → Label

-- `math.floor(seconds / unit + 0.5)`.
round_half_up : ℕ → ℕ → ℕ
round_half_up seconds unit = (2 * seconds + unit) / (2 * unit)

unfoldable pub label : ℕ → Label
unfolding round_half_up
label seconds =
    if ltb seconds 3600
    then under_an_hour
    else if ltb seconds 86400
    then hours (max 1 (round_half_up seconds 3600))
    else days (max 1 (round_half_up seconds 86400))

-- `{"seconds": None, "days": None, "label": None}` is `none`.
pub record Eta : Type 0 where
  pub seconds : ℕ
  pub full_days : Ratio
  pub text : Label

-- `math.ceil(num / den)`.
abbrev pub ceil_div : ℕ → ℕ → ℕ
ceil_div n d = (n + d - 1) / d

-- The tail beyond today's headroom, in whole budget-days; `remaining_bytes` is
-- `remaining_msgs * done_bytes / done_msgs`, so every quantity is scaled by `done_msgs`.
unfoldable pub budget_bound : ℕ → ℕ → ℕ → ℕ → Eta
budget_bound remaining_scaled headroom_scaled done_msgs budget =
    let over = remaining_scaled - headroom_scaled in
    let per_day = budget * done_msgs in
    record {
      seconds = over * 86400 / per_day;
      full_days = record { num = over; den = per_day };
      text = days (max 1 (ceil_div over per_day));
    }

-- The run rate is messages per second.
unfoldable pub rate_bound : ℕ → Ratio → Option Eta
rate_bound remaining_msgs rate =
    if rate.num == 0
    then none
    else let seconds = remaining_msgs * rate.den / rate.num in
      some (record {
        seconds = seconds;
        full_days = record { num = seconds; den = 86400 };
        text = label seconds;
      })

-- `if budget_bytes:` is false of `None` and of 0.
abbrev pub positive : Option ℕ → Option ℕ
positive none = none
positive (some zero) = none
positive (some (suc n)) = some (suc n)

abbrev pub finished : Eta
finished = record { seconds = 0; full_days = record { num = 0; den = 1 }; text = under_an_hour }

unfoldable pub remaining_eta : ℕ → ℕ → ℕ → ℕ → Option ℕ → Ratio → Option Eta
unfolding budget_bound rate_bound
remaining_eta remaining_msgs done_msgs done_bytes bytes_today none rate =
    rate_bound remaining_msgs rate
remaining_eta remaining_msgs done_msgs done_bytes bytes_today (some budget) rate =
    let headroom_today = budget - bytes_today in
    if ltb (headroom_today * done_msgs) (remaining_msgs * done_bytes)
    then some
        (budget_bound (remaining_msgs * done_bytes) (headroom_today * done_msgs) done_msgs budget)
    else rate_bound remaining_msgs rate

unfoldable pub estimate_eta : ℕ → Option ℕ → ℕ → ℕ → Option ℕ → Ratio → Option Eta
unfolding remaining_eta
estimate_eta done_msgs none done_bytes bytes_today budget_bytes rate = none
estimate_eta done_msgs (some total) done_bytes bytes_today budget_bytes rate =
    if total == 0
    then none
    else if done_msgs == 0
    then none
    else if total - done_msgs == 0
    then some finished
    else remaining_eta (total - done_msgs) done_msgs done_bytes bytes_today (positive budget_bytes)
        rate

-- Next UTC midnight after `now`, and the jitter.
unfoldable pub next_budget_resume : ℕ → ℕ → ℕ
next_budget_resume now jitter = (now / day + 1) * day + jitter

-- `unit * 2 ** min(max(1, attempt) - 1, 12)`, capped.
abbrev pub backoff : ℕ → ℕ → ℕ → ℕ
backoff unit cap attempt = min (unit * 2 ^ min (max 1 attempt - 1) 12) cap

unfoldable pub next_throttle_resume : ℕ → ℕ → ℕ → ℕ
next_throttle_resume now attempt jitter = now + backoff (4 * hour) (24 * hour) attempt + jitter

unfoldable pub next_transient_resume : ℕ → ℕ → ℕ → ℕ
next_transient_resume now attempt jitter = now + backoff (2 * minute) (30 * minute) attempt + jitter
