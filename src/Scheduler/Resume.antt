-- ===== src/Scheduler/Resume.antt =====
-- The pause-expiry tick: what it lifts, what it starts, and what it does after a restart.
use mailfallback.Prelude.{
  ℕ, ◌+◌, Bool, true, false, not, ◌&&◌, none, some, List, [], ◌∷◌, any, all, is_none, if◌then◌else◌,
  ◌≡◌, refl, arith, get_elem?, any-append, length, length-append, subst, sym, some-injective, zero,
  suc, ◌+◌,
}
use mailfallback.Prelude.Text.{Text, codes, text_eq_refl}
use mailfallback.Models.{Account, User}
use mailfallback.SyncService.{create_sync_job, new_job, is_live_of}
use mailfallback.Scheduler.{
  Jobs, start_job, run_pause_expiry_tick, expire_pause, eligible, expired, gated, may_schedule,
  run_scheduled_sync,
}

abbrev pub is_expired : ℕ → Account → Bool
is_expired now a = expired now a.sync_paused_until

module _ (new_id : Text → Text) (now : ℕ) where
  none_expired :
      (accounts : List Account) (s : Jobs)
      → any (is_expired now) (run_pause_expiry_tick new_id now accounts s).0 ≡ false
  unfolding run_pause_expiry_tick
  none_expired [] s = refl
  none_expired (a ∷ accounts) s =
      ground (arith, none_expired accounts (expire_pause new_id now a s).1)

  idle :
      (accounts : List Account) (s : Jobs)
      → any (is_expired now) accounts ≡ false
      → run_pause_expiry_tick new_id now accounts s ≡ (accounts, s)
  unfolding run_pause_expiry_tick
  idle [] s h = refl
  idle (a ∷ accounts) s h = ground (arith, idle accounts s)

-- One tick leaves no pause that is over, and the same tick again, at the same time, changes no
-- account, creates no job and submits none.
pub run_pause_expiry_tick_idempotent :
    (new_id : Text → Text) (now : ℕ) (accounts : List Account) (s : Jobs)
    → (any (is_expired now) (run_pause_expiry_tick new_id now accounts s).0 ≡ false)
      × (run_pause_expiry_tick new_id now
            (run_pause_expiry_tick new_id now accounts s).0
            (run_pause_expiry_tick new_id now accounts s).1
          ≡ run_pause_expiry_tick new_id now accounts s)
run_pause_expiry_tick_idempotent new_id now accounts s =
    let left = none_expired new_id now accounts s in
    let after = run_pause_expiry_tick new_id now accounts s in
    (left, idle new_id now after.0 after.1 left)

-- Starting a job keeps the live ones, and leaves the account with one.
start_keeps :
    (id a : Text) (now : ℕ) (s : Jobs) (b : Text)
    → any (is_live_of b) s.jobs ≡ true
    → any (is_live_of b) (start_job id a now s).jobs ≡ true
unfolding start_job create_sync_job
start_keeps id a now s b h =
    ground (arith, any-append (is_live_of b) s.jobs (new_job id a (codes "scheduler") now ∷ []))

starts : (id a : Text) (now : ℕ) (s : Jobs) → any (is_live_of a) (start_job id a now s).jobs ≡ true
unfolding start_job create_sync_job new_job
starts id a now s = ground (
  arith,
  any-append (is_live_of a) s.jobs (new_job id a (codes "scheduler") now ∷ []),
  text_eq_refl a,
)

-- The accounts whose initial sync the tick resumes.
abbrev pub to_resume : ℕ → Account → Bool
to_resume now a = is_expired now a && is_none a.initial_sync_completed_at && eligible a

module _ (new_id : Text → Text) (now : ℕ) where
  tick_keeps :
      (accounts : List Account) (s : Jobs) (b : Text)
      → any (is_live_of b) s.jobs ≡ true
      → any (is_live_of b) (run_pause_expiry_tick new_id now accounts s).1.jobs ≡ true
  unfolding run_pause_expiry_tick
  tick_keeps [] s b h = h
  tick_keeps (a ∷ accounts) s b h = ground (
    arith,
    tick_keeps accounts s b,
    tick_keeps accounts (start_job (new_id a.id) a.id now s) b,
    start_keeps (new_id a.id) a.id now s b,
  )

  head_resumed :
      (a : Account) (accounts : List Account) (s : Jobs)
      → to_resume now a ≡ true
      → any (is_live_of a.id) (run_pause_expiry_tick new_id now (a ∷ accounts) s).1.jobs ≡ true
  unfolding run_pause_expiry_tick
  head_resumed a accounts s h = ground (
    arith,
    tick_keeps accounts (start_job (new_id a.id) a.id now s) a.id,
    starts (new_id a.id) a.id now s,
  )

  resumed :
      (accounts : List Account) (s : Jobs) (k : ℕ) (a : Account)
      → get_elem? accounts k ≡ some a
      → to_resume now a ≡ true
      → any (is_live_of a.id) (run_pause_expiry_tick new_id now accounts s).1.jobs ≡ true
  unfolding run_pause_expiry_tick
  resumed [] s k a e h = ground arith
  resumed (b ∷ accounts) s zero a e h =
      let same = some-injective b a e in
      subst
        (λ x.
          any (is_live_of x.id) (run_pause_expiry_tick new_id now (b ∷ accounts) s).1.jobs ≡ true)
        same (head_resumed b accounts s (subst (λ x. to_resume now x ≡ true) (sym same) h))
  resumed (b ∷ accounts) s (suc k) a e h = resumed accounts (expire_pause new_id now b s).1 k a e h

-- Wherever an account stands in the table: if its pause is over, its first sync is not complete,
-- and it is eligible (not suspended, signed in, in no need of a new sign-in, neither it nor an
-- owner migrating), then after one tick it has a pending or running job, whatever the tick does
-- with the other accounts.
pub run_pause_expiry_tick_resumes :
    (new_id : Text → Text) (now : ℕ) (accounts : List Account) (s : Jobs) (k : ℕ) (a : Account)
    → get_elem? accounts k ≡ some a
    → expired now a.sync_paused_until ≡ true
    → a.initial_sync_completed_at ≡ none
    → eligible a ≡ true
    → any (is_live_of a.id) (run_pause_expiry_tick new_id now accounts s).1.jobs ≡ true
run_pause_expiry_tick_resumes new_id now accounts s k a e pause initial ok =
    resumed new_id now accounts s k a e (ground (arith, pause, initial, ok))

all-not :
    (owners : List User)
    → all (λ (o : User). not o.migrating) owners ≡ not (any (λ (o : User). o.migrating) owners)
all-not [] = refl
all-not (o ∷ owners) = ground (arith, all-not owners)

may_schedule-eligible :
    (a : Account) (now : ℕ)
    → may_schedule a now ≡ (eligible a && not (gated now a.sync_paused_until))
unfolding may_schedule eligible
may_schedule-eligible a now = ground (arith, all-not a.owners)

started_queue :
    (id a : Text) (now : ℕ) (s : Jobs)
    → length (start_job id a now s).queue
      ≡ (if any (is_live_of a) s.jobs then 0 else 1) + length s.queue
unfolding start_job create_sync_job
started_queue id a now s = ground (arith, length-append s.queue (id ∷ []))

-- The cron tick submits one job, and none but one, exactly when the account is eligible, has no
-- pause that is still ahead and has no live job; otherwise the queue stays as it is.
pub run_scheduled_sync_submits :
    (id : Text) (a : Account) (now : ℕ) (s : Jobs)
    → length (run_scheduled_sync id (some a) now s).queue
      ≡ (if eligible a && not (gated now a.sync_paused_until) && not (any (is_live_of a.id) s.jobs)
          then 1
          else 0)
        + length s.queue
unfolding run_scheduled_sync
run_scheduled_sync_submits id a now s =
    ground (arith, may_schedule-eligible a now, started_queue id a.id now s)
