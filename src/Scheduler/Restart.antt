-- ===== src/Scheduler/Restart.antt =====
-- A restart in the middle of a first sync: the boot sweep of SyncWorker.Recovery, then one tick.
use mailfallback.Prelude.{
  ℕ, ◌-◌, ◌≤◌, true, false, none, some, List, [], ◌∷◌, any, ◌≡◌, refl, arith, inl, inr, Bool-cases,
}
use mailfallback.Prelude.Text.{Text, text_eq, text_eq_refl, text_eq_sound}
use mailfallback.Clock.{second}
use mailfallback.Models.{Account, SyncJob}
use mailfallback.SyncService.{create_sync_job, new_job, is_live_of}
use mailfallback.SyncWorker.Pause.{redrive_or_keep_pause, budget_headroom_today}
use mailfallback.SyncWorker.Recovery.{
  sweep, release, update_account, is_zombie, recover_zombie_sync_jobs, recovered_marker,
}
use mailfallback.SyncWorker.Swept.{recover_zombie_sync_jobs_free}
use mailfallback.Scheduler.{start_job, run_pause_expiry_tick, expire_pause, eligible}

-- An account in its first sync, with budget left, that the scheduler may start.
record IsWaiting (now : ℕ) (id : Text) (a : Account) : Type 0 where
  same : a.id ≡ id
  initial : a.initial_sync_completed_at ≡ none
  headroom : budget_headroom_today a now ≡ true
  startable : eligible a ≡ true

record IsRedriven (now : ℕ) (id : Text) (a : Account) : Type 0 where
  waiting : IsWaiting now id a
  expiring : a.sync_paused_until ≡ some (now - second)

settled :
    (now : ℕ) (id : Text) (a : Account) → IsWaiting now id a → IsRedriven now id (release now a)
unfolding release redrive_or_keep_pause eligible budget_headroom_today
settled now id a w = record {
  waiting = record {
    same = ground (arith, w.same);
    initial = ground (arith, w.initial);
    headroom = ground (arith, w.headroom);
    startable = ground (arith, w.startable);
  };
  expiring = ground (arith, w.initial, w.headroom);
}

of_another : (a id x : Text) → a ≡ id → text_eq a x ≡ false → text_eq x id ≡ false
of_another a id x same other = elim (Bool-cases (text_eq x id)) [
  | inl e ↦
      let own : text_eq a x ≡ true = rw (same, text_eq_sound x id e) (text_eq_refl id) in
      cc (own, other)
  | inr e ↦ e
]

-- The one account of the table, after a sweep.
abbrev One : (Account → Type 0) → List Account → Type 0
One P accounts = (a : Account) × (accounts ≡ a ∷ []) × P a

module _ (marker : Text) (now : ℕ) (id : Text) where
  stays :
      (jobs : List SyncJob) (a : Account)
      → IsRedriven now id a
      → One (IsRedriven now id) (sweep (is_zombie []) marker now jobs (a ∷ [])).0.accounts
  unfolding sweep update_account
  stays [] a r = (a, refl, r)
  stays (job ∷ jobs) a r = elim (Bool-cases (is_zombie [] job)) [
    | inl zombie ↦ elim (Bool-cases (text_eq a.id job.account_id)) [
      | inl own ↦ rw (zombie, own) (stays jobs (release now a) (settled now id a r.waiting))
      | inr other ↦ rw (zombie, other) (stays jobs a r)
    ]
    | inr alive ↦ rw alive (stays jobs a r)
  ]

  redriven :
      (jobs : List SyncJob) (a : Account)
      → IsWaiting now id a
      → any (is_live_of id) jobs ≡ true
      → One (IsRedriven now id) (sweep (is_zombie []) marker now jobs (a ∷ [])).0.accounts
  unfolding sweep update_account
  redriven [] a w h = absurd cc
  redriven (job ∷ jobs) a w h = elim (Bool-cases (is_zombie [] job)) [
    | inl zombie ↦ elim (Bool-cases (text_eq a.id job.account_id)) [
      | inl own ↦ rw (zombie, own) (stays jobs (release now a) (settled now id a w))
      | inr other ↦
          rw (zombie, other)
            (redriven jobs a w (ground (arith, of_another a.id id job.account_id w.same other)))
    ]
    | inr alive ↦ rw alive (redriven jobs a w (ground arith))
  ]

tick_one :
    (new_id : Text → Text) (now later : ℕ) (id : Text) (a : Account) (jobs : List SyncJob)
    → IsRedriven now id a
    → now ≤ later
    → any (is_live_of id) jobs ≡ false
    → (run_pause_expiry_tick new_id later (a ∷ []) (record { jobs = jobs; queue = [] })).1.queue
      ≡ new_id id ∷ []
unfolding run_pause_expiry_tick expire_pause start_job create_sync_job new_job
tick_one new_id now later id a jobs r h free =
    ground (arith, r.expiring, r.waiting.same, r.waiting.initial, r.waiting.startable, free)

-- A container that restarts while its only mailbox, in its first sync, has a pending or running
-- job in the table (beside any other rows) resumes it on its own: with budget left, and nothing
-- that forbids a scheduled run, the boot sweep and one tick of the pause expiry at the same or any
-- later time submit exactly one job, for that mailbox.
pub restart_resumes :
    (new_id : Text → Text) (now later : ℕ) (jobs : List SyncJob) (a : Account)
    → any (is_live_of a.id) jobs ≡ true
    → a.initial_sync_completed_at ≡ none
    → budget_headroom_today a now ≡ true
    → eligible a ≡ true
    → now ≤ later
    → (run_pause_expiry_tick new_id later
        (recover_zombie_sync_jobs [] now (record { jobs = jobs; accounts = a ∷ [] })).0.accounts
        (record {
          jobs =
              (recover_zombie_sync_jobs [] now (record { jobs = jobs; accounts = a ∷ [] })).0.jobs;
          queue = [];
        })).1.queue
      ≡ new_id a.id ∷ []
unfolding recover_zombie_sync_jobs
restart_resumes new_id now later jobs a live initial headroom ok h =
    let waiting : IsWaiting now a.id a = record {
      same = refl;
      initial = initial;
      headroom = headroom;
      startable = ok;
    } in
    let one = redriven recovered_marker now a.id jobs a waiting live in
    let free = recover_zombie_sync_jobs_free now (record { jobs = jobs; accounts = a ∷ [] }) a.id in
    rw one.1 (tick_one new_id now later a.id one.0 _ one.2 h free)
