-- ===== src/SyncWorker/Swept.antt =====
-- What the two sweeps of SyncWorker.Recovery leave behind.
use mailfallback.Prelude.{
  ℕ, suc, Bool, true, false, List, [], ◌∷◌, any, if◌then◌else◌, ◌≡◌, refl, arith, is_some,
}
use mailfallback.Prelude.Text.{Text}
use mailfallback.Models.{Account, SyncJob}
use mailfallback.SyncService.{create_sync_job, is_live_of}
use mailfallback.SyncWorker.Recovery.{
  Tables, sweep, close_interrupted, update_account, release, is_zombie, recover_zombie_sync_jobs,
  is_stalled, Watch, recover_stalled_sync_jobs, recovered_marker, reaped_marker,
}

-- A test that fails for every row that the sweep has closed.
module _ (closes : SyncJob → Bool) (marker : Text) (now : ℕ) where
  abbrev pub Closing : Type 0
  Closing = (job : SyncJob) → closes (close_interrupted marker now job) ≡ false

  none_left :
      Closing
      → (jobs : List SyncJob) (accounts : List Account)
      → any closes (sweep closes marker now jobs accounts).0.jobs ≡ false
  unfolding sweep
  none_left c [] accounts = refl
  none_left c (job ∷ jobs) accounts = ground (
    arith,
    c job,
    none_left c jobs accounts,
    none_left c jobs (update_account job.account_id (release now) accounts),
  )

  -- Nothing to close, nothing is touched.
  untouched :
      (jobs : List SyncJob) (accounts : List Account)
      → any closes jobs ≡ false
      → sweep closes marker now jobs accounts ≡ (record { jobs = jobs; accounts = accounts }, 0)
  unfolding sweep
  untouched [] accounts h = refl
  untouched (job ∷ jobs) accounts h = ground (arith, untouched jobs accounts)

zombie_closing :
    (procs : List Text) (marker : Text) (now : ℕ) → Closing (is_zombie procs) marker now
unfolding close_interrupted
zombie_closing procs marker now job = ground arith

stalled_closing : (w : Watch) (marker : Text) (now : ℕ) → Closing (is_stalled w now) marker now
unfolding close_interrupted
stalled_closing w marker now job = ground arith

-- A second boot sweep, with the same processes and at any time, changes nothing and counts
-- nothing.
pub recover_zombie_sync_jobs_idempotent :
    (procs : List Text) (now later : ℕ) (t : Tables)
    → recover_zombie_sync_jobs procs later (recover_zombie_sync_jobs procs now t).0
      ≡ ((recover_zombie_sync_jobs procs now t).0, 0)
unfolding recover_zombie_sync_jobs
recover_zombie_sync_jobs_idempotent procs now later t =
    let swept = (recover_zombie_sync_jobs procs now t).0 in
    untouched (is_zombie procs) recovered_marker later swept.jobs swept.accounts (
      none_left (is_zombie procs) recovered_marker now (zombie_closing procs recovered_marker now)
        t.jobs t.accounts)

no_live :
    (a : Text) (jobs : List SyncJob)
    → any (is_zombie []) jobs ≡ false
    → any (is_live_of a) jobs ≡ false
no_live a [] h = refl
no_live a (job ∷ jobs) h = ground (arith, no_live a jobs)

-- After a restart, when no process of this container is left, the sweep leaves no live row.
pub recover_zombie_sync_jobs_free :
    (now : ℕ) (t : Tables) (a : Text)
    → any (is_live_of a) (recover_zombie_sync_jobs [] now t).0.jobs ≡ false
unfolding recover_zombie_sync_jobs
recover_zombie_sync_jobs_free now t a =
    no_live a (sweep (is_zombie []) recovered_marker now t.jobs t.accounts).0.jobs (
      none_left (is_zombie []) recovered_marker now (zombie_closing [] recovered_marker now) t.jobs
        t.accounts)

-- After a restart, when no process of this container is left, the sweep leaves every account free:
-- the guard of create_sync_job passes for it.
pub recover_zombie_sync_jobs-create_sync_job :
    (now : ℕ) (t : Tables) (id a source : Text) (later : ℕ)
    → is_some (create_sync_job id a source later (recover_zombie_sync_jobs [] now t).0.jobs).1
      ≡ true
unfolding create_sync_job
recover_zombie_sync_jobs-create_sync_job now t id a source later =
    rw (recover_zombie_sync_jobs_free now t a) refl

-- Row by row: the rows that a sweep closes, and no other.
abbrev pub swept_jobs : (SyncJob → Bool) → Text → ℕ → List SyncJob → List SyncJob
swept_jobs closes marker now [] = []
swept_jobs closes marker now (job ∷ jobs) =
    (if closes job then close_interrupted marker now job else job)
    ∷ swept_jobs closes marker now jobs

abbrev pub count_of : (SyncJob → Bool) → List SyncJob → ℕ
count_of p [] = 0
count_of p (job ∷ jobs) = if p job then suc (count_of p jobs) else count_of p jobs

swept :
    (closes : SyncJob → Bool) (marker : Text) (now : ℕ) (jobs : List SyncJob)
    (accounts : List Account)
    → ((sweep closes marker now jobs accounts).0.jobs ≡ swept_jobs closes marker now jobs)
      × ((sweep closes marker now jobs accounts).1 ≡ count_of closes jobs)
unfolding sweep
swept closes marker now [] accounts = (refl, refl)
swept closes marker now (job ∷ jobs) accounts = ground (
  arith,
  swept closes marker now jobs accounts,
  swept closes marker now jobs (update_account job.account_id (release now) accounts),
)

-- The watchdog rewrites exactly the running rows past the grace time with neither a fresh tick nor
-- a process, in place, and counts them; a row that is alive, pending or closed stays as it is, and
-- no stalled row is left.
pub recover_stalled_sync_jobs_rows :
    (w : Watch) (now : ℕ) (t : Tables)
    → ((recover_stalled_sync_jobs w now t).0.jobs
        ≡ swept_jobs (is_stalled w now) reaped_marker now t.jobs)
      × ((recover_stalled_sync_jobs w now t).1 ≡ count_of (is_stalled w now) t.jobs)
      × (any (is_stalled w now) (recover_stalled_sync_jobs w now t).0.jobs ≡ false)
unfolding recover_stalled_sync_jobs
recover_stalled_sync_jobs_rows w now t =
    let rows = swept (is_stalled w now) reaped_marker now t.jobs t.accounts in
    (
      rows.0,
      rows.1,
      none_left (is_stalled w now) reaped_marker now (stalled_closing w reaped_marker now) t.jobs
          t.accounts,
    )
