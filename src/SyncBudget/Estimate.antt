-- ===== src/SyncBudget/Estimate.antt =====
-- What the ETA of sync_budget.py promises.
use Prim.Native.Nat.{min}
use native.Mathlib.Nat.{div-add-mod', mod-lt, mul-pos}
use mailfallback.Prelude.{
  ℕ, zero, suc, ◌+◌, ◌-◌, ◌*◌, ◌/◌, ◌%◌, ◌≤◌, ◌<◌, ◌≡◌, arith, refl, ap, Option, some,
}
use mailfallback.SyncBudget.{
  Ratio, Eta, days, ceil_div, budget_bound, finished, estimate_eta, compute_progress,
}

quotient_least :
    (q n d r : ℕ)
    → q * d + r ≡ n + d - 1
    → r < d
    → 0 < n
    → (n ≤ q * d) × ((q - 1) * d < n) × (0 < q)
quotient_least zero n d r e h p = absurd (omega arith)
quotient_least (suc q) n d r e h p = (grind arith, less (suc q - 1) refl, omega arith)
  where
    less : (k : ℕ) → suc q - 1 ≡ k → k * d < n
    less k f = let g : k ≡ q = omega arith in rw g (omega arith)

-- `ceil_div n d` is the least number of `d` that cover `n`.
ceil_div_least :
    (n d : ℕ)
    → 0 < n
    → 0 < d
    → (n ≤ ceil_div n d * d) × ((ceil_div n d - 1) * d < n) × (0 < ceil_div n d)
ceil_div_least n d hn hd =
    quotient_least ((n + d - 1) / d) n d ((n + d - 1) % d) (div-add-mod' (n + d - 1) d)
      (mod-lt (n + d - 1) hd) hn

budget_bound_days :
    (left room done budget : ℕ)
    → 0 < ceil_div (left - room) (budget * done)
    → (budget_bound left room done budget).text ≡ days (ceil_div (left - room) (budget * done))
unfolding budget_bound
budget_bound_days left room done budget h = ap days (omega arith)

-- With a budget, work left beyond today's headroom is shown as a number of days `d` such that `d`
-- further daily budgets cover the remaining bytes and `d - 1` do not. (The remaining bytes are
-- `(total - done) * done_bytes / done`; both sides are scaled by `done`.)
pub estimate_eta_budget_days :
    (done total done_bytes today budget : ℕ) (rate : Ratio)
    → 0 < done
    → done < total
    → 0 < budget
    → (budget - today) * done < (total - done) * done_bytes
    → (e : Eta) × (d : ℕ) × (estimate_eta done (some total) done_bytes today (some budget) rate
        ≡ some e)
      × (e.text ≡ days d)
      × ((total - done) * done_bytes ≤ (budget - today) * done + d * (budget * done))
      × ((budget - today) * done + (d - 1) * (budget * done) < (total - done) * done_bytes)
unfolding estimate_eta
estimate_eta_budget_days done total done_bytes today zero rate hd ht hb h = elim hb [ ]
estimate_eta_budget_days done total done_bytes today (suc b) rate hd ht hb h =
    let left = (total - done) * done_bytes in
    let room = (suc b - today) * done in
    let per_day = suc b * done in
    let least = ceil_div_least (left - room) per_day (omega arith) (mul-pos hb hd) in
    (
      budget_bound left room done (suc b),
      ceil_div (left - room) per_day,
      ground arith,
      budget_bound_days left room done (suc b) least.2,
      omega arith,
      omega arith,
    )

-- Once the total is reached, or passed, the estimate is no time at all, whatever the budget and rate.
pub estimate_eta_reached :
    (done total done_bytes today : ℕ) (budget : Option ℕ) (rate : Ratio)
    → 0 < total
    → total ≤ done
    → estimate_eta done (some total) done_bytes today budget rate ≡ some finished
unfolding estimate_eta
estimate_eta_reached done total done_bytes today budget rate ht hd = ground arith

-- The percentage never passes 100, and is exactly `done / total` while `done` is below `total`.
pub compute_progress_clamped :
    (done total : ℕ)
    → 0 < total
    → (p : Ratio) × (compute_progress done (some total) ≡ some p)
      × (p.num ≤ 100 * p.den)
      × (done ≤ total → p.num * total ≡ 100 * done * p.den)
unfolding compute_progress
compute_progress_clamped done zero h = elim h [ ]
compute_progress_clamped done (suc t) h = (
  record { num = min (100 * suc t) (done * 100); den = suc t },
  refl,
  omega arith,
  λ le. let e : min (100 * suc t) (done * 100) ≡ 100 * done = omega arith in rw e,
)
