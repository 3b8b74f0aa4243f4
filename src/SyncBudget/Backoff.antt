-- ===== src/SyncBudget/Backoff.antt =====
-- The resume times of sync_budget.py.
use Prim.Native.Nat.{min, max}
use native.Mathlib.Nat.{pow-le-pow_right, mul-le-mul_left, min-eq_left, min-eq_right}
use native.Mathlib.Decide.{dec_le}
use mailfallback.Prelude.{ℕ, ◌+◌, ◌-◌, ◌*◌, ◌^◌, ◌≤◌, ◌<◌, ◌≡◌, arith}
use mailfallback.Clock.{minute, hour, date}
use mailfallback.SyncBudget.{
  backoff, next_budget_resume, next_throttle_resume, next_transient_resume,
}

pow_mono : (m n : ℕ) → m ≤ n → 2 ^ m ≤ 2 ^ n
pow_mono m n h = pow-le-pow_right (omega arith) h

scaled_mono : (unit m n : ℕ) → m ≤ n → unit * 2 ^ m ≤ unit * 2 ^ n
scaled_mono unit m n h = mul-le-mul_left unit (pow_mono m n h)

-- Capping the exponent at 12 changes nothing when the cap is at most 4096 units.
uncapped :
    (unit cap e : ℕ) → cap ≤ unit * 4096 → min (unit * 2 ^ min e 12) cap ≡ min (unit * 2 ^ e) cap
uncapped unit cap e h = elim (dec_le e 12) [
  | yes small ↦ rw (min-eq_left small)
  | no large ↦
      let far : 12 ≤ e = omega arith in
      rw (min-eq_right far) (omega (arith, scaled_mono unit 12 e far))
]

backoff_mono : (unit cap m n : ℕ) → m ≤ n → backoff unit cap m ≤ backoff unit cap n
backoff_mono unit cap m n h =
    omega (arith, scaled_mono unit (min (max 1 m - 1) 12) (min (max 1 n - 1) 12) (omega arith))

backoff_bounds :
    (unit cap n : ℕ) → unit ≤ cap → (unit ≤ backoff unit cap n) × (backoff unit cap n ≤ cap)
backoff_bounds unit cap n h =
    (omega (arith, scaled_mono unit 0 (min (max 1 n - 1) 12) (omega arith)), omega arith)

-- The throttle pause is 4 hours doubled with each attempt after the first, at most 24 hours, plus
-- the jitter: the code's cap of the exponent at 12 never shows, for any number of attempts.
pub next_throttle_resume_exact :
    (now attempt jitter : ℕ)
    → next_throttle_resume now attempt jitter
      ≡ now + min (4 * hour * 2 ^ (max 1 attempt - 1)) (24 * hour) + jitter
unfolding next_throttle_resume
next_throttle_resume_exact now attempt jitter =
    rw (uncapped (4 * hour) (24 * hour) (max 1 attempt - 1) (omega arith))

-- The transient pause is 2 minutes doubled with each attempt after the first, at most 30 minutes,
-- plus the jitter: the code's cap of the exponent at 12 never shows, for any number of attempts.
pub next_transient_resume_exact :
    (now attempt jitter : ℕ)
    → next_transient_resume now attempt jitter
      ≡ now + min (2 * minute * 2 ^ (max 1 attempt - 1)) (30 * minute) + jitter
unfolding next_transient_resume
next_transient_resume_exact now attempt jitter =
    rw (uncapped (2 * minute) (30 * minute) (max 1 attempt - 1) (omega arith))

-- A throttled account waits at least 4 hours and at most 24 hours and the jitter, and at least as
-- long after more attempts at the same jitter.
pub next_throttle_resume_bounds :
    (now m n jitter : ℕ)
    → m ≤ n
    → (now + 4 * hour ≤ next_throttle_resume now m jitter)
      × (next_throttle_resume now m jitter ≤ next_throttle_resume now n jitter)
      × (next_throttle_resume now n jitter ≤ now + 24 * hour + jitter)
unfolding next_throttle_resume
next_throttle_resume_bounds now m n jitter h =
    let low = backoff_bounds (4 * hour) (24 * hour) m (omega arith) in
    let high = backoff_bounds (4 * hour) (24 * hour) n (omega arith) in
    let grows = backoff_mono (4 * hour) (24 * hour) m n h in (omega arith, omega arith, omega arith)

-- With a jitter of at most 30 minutes a budget pause ends after `now`, on the next UTC day.
pub next_budget_resume_day :
    (now jitter : ℕ)
    → jitter ≤ 30 * minute
    → (now < next_budget_resume now jitter) × (date (next_budget_resume now jitter) ≡ date now + 1)
unfolding next_budget_resume
next_budget_resume_day now jitter h = omega arith
