-- ===== src/SyncWorker/Sampler/Ledger.antt =====
-- What the ledger of a run records, and when the sampler stops the run.
use mailfallback.Prelude.{
  ℕ, ◌+◌, Bool, true, not, ◌||◌, some, List, [], ◌∷◌, all, ◌≡◌, refl, ap, sym, ◌∙◌, arith, ◌==◌,
  ◌-◌, Option, none, ==_iff,
}
use mailfallback.Clock.{date}
use mailfallback.SyncWorker.Pause.{budget_headroom_today}
use mailfallback.SyncWorker.Sampler.{Sampler, over_budget, sampler_tick, sampler_ticks}
use mailfallback.SyncBudget.{daily_budget_bytes}

-- A tick marks the run for a budget stop exactly when it was marked before, or when the worker,
-- looking at the ledger that the tick leaves, sees no headroom left for the day.
pub sampler_tick_stop :
    (now run_bytes : ℕ) (s : Sampler)
    → (sampler_tick now run_bytes s).budget_stop
      ≡ (s.budget_stop || not (budget_headroom_today (sampler_tick now run_bytes s).account now))
unfolding sampler_tick budget_headroom_today
sampler_tick_stop now run_bytes s = ground arith

tick_date :
    (now run_bytes : ℕ) (s : Sampler)
    → (sampler_tick now run_bytes s).account.traffic_date ≡ some (date now)
unfolding sampler_tick
tick_date now run_bytes s = refl

tick_mark :
    (now run_bytes : ℕ) (s : Sampler) → (sampler_tick now run_bytes s).last_run_bytes ≡ run_bytes
unfolding sampler_tick
tick_mark now run_bytes s = refl

tick_books :
    (now run_bytes : ℕ) (s : Sampler)
    → s.account.traffic_date ≡ some (date now)
    → (sampler_tick now run_bytes s).account.bytes_synced_today
      ≡ s.account.bytes_synced_today + (run_bytes - s.last_run_bytes)
unfolding sampler_tick
tick_books now run_bytes s h = ground (arith, h)

-- The budget of the account's mailbox, which no tick changes.
abbrev pub budget_of : Sampler → Option ℕ
budget_of s = daily_budget_bytes s.account.daily_sync_budget_mb s.account.provider

tick_budget :
    (now run_bytes : ℕ) (s : Sampler) → budget_of (sampler_tick now run_bytes s) ≡ budget_of s
unfolding sampler_tick
tick_budget now run_bytes s = refl

tick_stop :
    (now run_bytes : ℕ) (s : Sampler)
    → (sampler_tick now run_bytes s).budget_stop ≡ (
        s.budget_stop
        || over_budget (budget_of s) (sampler_tick now run_bytes s).account.bytes_synced_today)
unfolding sampler_tick
tick_stop now run_bytes s = refl

over_budget_mono :
    (budget : Option ℕ) (spent more : ℕ)
    → (over_budget budget spent || over_budget budget (spent + more))
      ≡ over_budget budget (spent + more)
over_budget_mono none spent more = refl
over_budget_mono (some b) spent more = ground arith

-- The sum of the rises from one sample of the run's bytes to the next, after a first one.
unfoldable pub rises : ℕ → List (ℕ × ℕ) → ℕ
rises before [] = 0
rises before (t ∷ ticks) = (t.1 - before) + rises t.1 ticks

ticks_cons :
    (t : ℕ × ℕ) (ticks : List (ℕ × ℕ)) (s : Sampler)
    → sampler_ticks (t ∷ ticks) s ≡ sampler_ticks ticks (sampler_tick t.0 t.1 s)
unfolding sampler_ticks
ticks_cons t ticks s = refl

abbrev pub on_day : ℕ → List (ℕ × ℕ) → Bool
on_day d ticks = all (λ (u : ℕ × ℕ). date u.0 == d) ticks

day_of :
    (d : ℕ) (t : ℕ × ℕ) (ticks : List (ℕ × ℕ))
    → on_day d (t ∷ ticks) ≡ true
    → (date t.0 ≡ d) × (on_day d ticks ≡ true)
day_of d t ticks h = ground (arith, h, ==_iff (date t.0) d)

ledger_rises :
    (d : ℕ) (ticks : List (ℕ × ℕ)) (s : Sampler)
    → s.account.traffic_date ≡ some d
    → on_day d ticks ≡ true
    → (sampler_ticks ticks s).account.bytes_synced_today
      ≡ s.account.bytes_synced_today + rises s.last_run_bytes ticks
unfolding sampler_ticks rises
ledger_rises d [] s day h = omega arith
ledger_rises d (t ∷ ticks) s day h =
    let here = day_of d t ticks h in
    let rest =
      ledger_rises d ticks (sampler_tick t.0 t.1 s) (tick_date t.0 t.1 s ∙ ap some here.0) here.1 in
    let booked = tick_books t.0 t.1 s (day ∙ ap some (sym here.0)) in rest ∙ omega (arith, booked)

stop_cases :
    (d : ℕ) (t : ℕ × ℕ) (ticks : List (ℕ × ℕ)) (s : Sampler)
    → s.account.traffic_date ≡ some d
    → on_day d (t ∷ ticks) ≡ true
    → (sampler_ticks (t ∷ ticks) s).budget_stop ≡ (
        s.budget_stop
        || over_budget (budget_of s) (sampler_ticks (t ∷ ticks) s).account.bytes_synced_today)
unfolding sampler_ticks sampler_tick
stop_cases d t [] s day h = tick_stop t.0 t.1 s
stop_cases d t (u ∷ ticks) s day h =
    let s' = sampler_tick t.0 t.1 s in
    let here = day_of d t (u ∷ ticks) h in
    let day' : s'.account.traffic_date ≡ some d = tick_date t.0 t.1 s ∙ ap some here.0 in
    let total = rises s'.last_run_bytes (u ∷ ticks) in
    ground (
      arith,
      ticks_cons t (u ∷ ticks) s,
      stop_cases d u ticks s' day' here.1,
      tick_stop t.0 t.1 s,
      tick_budget t.0 t.1 s,
      ledger_rises d (u ∷ ticks) s' day' here.1,
      over_budget_mono (budget_of s) s'.account.bytes_synced_today total,
    )

-- For an account whose ledger is of one UTC day, over one or more ticks on that day: the ledger grows
-- by exactly the sum of the rises of the run's bytes from each sample to the next, a first rise from
-- the watermark included, so that a fall books nothing and what comes after it is booked from the
-- fallen level on. The run is marked for a budget stop exactly when it was marked before, or when
-- the mailbox has a daily budget and the ledger has reached it.
pub sampler_ticks_booked :
    (d : ℕ) (t : ℕ × ℕ) (ticks : List (ℕ × ℕ)) (s : Sampler)
    → s.account.traffic_date ≡ some d
    → on_day d (t ∷ ticks) ≡ true
    → ((sampler_ticks (t ∷ ticks) s).account.bytes_synced_today
        ≡ s.account.bytes_synced_today + rises s.last_run_bytes (t ∷ ticks))
      × ((sampler_ticks (t ∷ ticks) s).budget_stop ≡ (
          s.budget_stop
          || over_budget
              (budget_of s)
              (s.account.bytes_synced_today + rises s.last_run_bytes (t ∷ ticks))))
sampler_ticks_booked d t ticks s day h =
    let ledger = ledger_rises d (t ∷ ticks) s day h in
    (ledger, rw (sym ledger) (stop_cases d t ticks s day h))
