-- ===== src/SyncWorker/Sampler.antt =====
-- The ledger of _sampler_tick in sync_worker.py, for an account that is in the table. The walk of the
-- disk is an argument, the bytes that this run has written; the rate and the published progress are
-- read by no modelled part.
pub mod Ledger
use mailfallback.Prelude.{
  ℕ, ◌+◌, ◌-◌, Bool, true, false, not, ◌&&◌, ◌||◌, Option, none, some, List, [], ◌∷◌, leb,
  if◌then◌else◌, ◌==◌,
}
use mailfallback.Clock.{date}
use mailfallback.Models.{Account}
use mailfallback.SyncBudget.{daily_budget_bytes}

-- The account's row, the watermark, and whether the job is in `_budget_stops`.
pub record Sampler : Type 0 where
  pub account : Account
  pub last_run_bytes : ℕ
  pub budget_stop : Bool

-- The ledger of another day starts again at zero.
abbrev pub spent_before : Option ℕ → ℕ → ℕ → ℕ
spent_before none spent today = 0
spent_before (some d) spent today = if d == today then spent else 0

-- `budget is not None and account.bytes_synced_today >= budget`.
abbrev pub over_budget : Option ℕ → ℕ → Bool
over_budget none spent = false
over_budget (some budget) spent = leb budget spent

-- `max(0, run_bytes - state["last_run_bytes"])` is booked, and the watermark follows `run_bytes`.
unfoldable pub sampler_tick : ℕ → ℕ → Sampler → Sampler
unfolding daily_budget_bytes
sampler_tick now run_bytes s =
    let a = s.account in
    let booked =
      spent_before a.traffic_date a.bytes_synced_today (date now)
      + (run_bytes - s.last_run_bytes) in
    record {
      account = record a { traffic_date = some (date now); bytes_synced_today = booked };
      last_run_bytes = run_bytes;
      budget_stop =
          s.budget_stop
          || over_budget (daily_budget_bytes a.daily_sync_budget_mb a.provider) booked;
    }

-- The ticks of a run: the time and the bytes of each.
unfoldable pub sampler_ticks : List (ℕ × ℕ) → Sampler → Sampler
unfolding sampler_tick
sampler_ticks [] s = s
sampler_ticks (t ∷ ticks) s = sampler_ticks ticks (sampler_tick t.0 t.1 s)
