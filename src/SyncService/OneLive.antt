-- ===== src/SyncService/OneLive.antt =====
-- The guard of create_sync_job: an account has at most one pending or running job.
use mailfallback.Prelude.{
  ℕ, suc, ◌+◌, ◌≤◌, true, false, none, List, [], ◌∷◌, ◌++◌, any, ◌≡◌, ◌↔◌, refl, arith,
  if◌then◌else◌, inl, inr, Bool-cases, is_some, not, subst,
}
use mailfallback.Prelude.Text.{Text, text_eq, text_eq_sound, text_eq_refl}
use mailfallback.Models.{SyncJob}
use mailfallback.SyncService.{new_job, is_live_of, create_sync_job}

abbrev pub live_count : Text → List SyncJob → ℕ
live_count account_id [] = 0
live_count account_id (job ∷ jobs) =
    if is_live_of account_id job
    then suc (live_count account_id jobs)
    else live_count account_id jobs

pub live_count-append :
    (a : Text) (xs ys : List SyncJob) → live_count a (xs ++ ys) ≡ live_count a xs + live_count a ys
live_count-append a [] ys = omega arith
live_count-append a (x ∷ xs) ys = ground (arith, live_count-append a xs ys)

pub live_count-zero :
    (a : Text) (jobs : List SyncJob) → any (is_live_of a) jobs ≡ false → live_count a jobs ≡ 0
live_count-zero a [] h = refl
live_count-zero a (x ∷ xs) h = ground (arith, live_count-zero a xs)

pub any_of_live_count :
    (a : Text) (jobs : List SyncJob) → live_count a jobs ≡ 0 → any (is_live_of a) jobs ≡ false
any_of_live_count a [] h = refl
any_of_live_count a (x ∷ xs) h = ground (arith, any_of_live_count a xs)

pub record AtMostOneLive (jobs : List SyncJob) : Type 0 where
  pub one : (a : Text) → live_count a jobs ≤ 1

created_count :
    (id a source : Text) (now : ℕ) (b : Text)
    → live_count b (new_job id a source now ∷ []) ≡ (if text_eq a b then 1 else 0)
unfolding new_job
created_count id a source now b = ground arith

-- The table with the created row.
appended_count :
    (id a source : Text) (now : ℕ) (jobs : List SyncJob) (b : Text)
    → any (is_live_of a) jobs ≡ false
    → live_count b (create_sync_job id a source now jobs).0
      ≡ live_count b jobs + (if text_eq a b then 1 else 0)
unfolding create_sync_job
appended_count id a source now jobs b idle =
    rw
      (
        idle,
        live_count-append b jobs (new_job id a source now ∷ []),
        created_count id a source now b,
      )
      refl

kept_count :
    (id a source : Text) (now : ℕ) (jobs : List SyncJob)
    → any (is_live_of a) jobs ≡ true
    → create_sync_job id a source now jobs ≡ (jobs, none)
unfolding create_sync_job
kept_count id a source now jobs live = rw live refl

created :
    (id a source : Text) (now : ℕ) (jobs : List SyncJob)
    → is_some (create_sync_job id a source now jobs).1 ≡ not (any (is_live_of a) jobs)
unfolding create_sync_job
created id a source now jobs = ground arith

idle_count :
    (a b : Text) (jobs : List SyncJob)
    → any (is_live_of a) jobs ≡ false
    → text_eq a b ≡ true
    → live_count b jobs ≡ 0
idle_count a b jobs idle same =
    subst (λ c. live_count c jobs ≡ 0) (text_eq_sound a b same) (live_count-zero a jobs idle)

-- Over a table with at most one pending or running job for each account, creating a job, whether
-- it succeeds or not, leaves at most one for each.
pub create_sync_job-AtMostOneLive :
    (id a source : Text) (now : ℕ) (jobs : List SyncJob)
    → AtMostOneLive jobs
    → AtMostOneLive (create_sync_job id a source now jobs).0
create_sync_job-AtMostOneLive id a source now jobs h = record {
  one = λ b. elim (Bool-cases (any (is_live_of a) jobs)) [
    | inl live ↦ rw (kept_count id a source now jobs live) (h.one b)
    | inr idle ↦
        rw (appended_count id a source now jobs b idle)
          (ground (arith, idle_count a b jobs idle, h.one b))
  ];
}

-- Over a table with at most one live job for each account, a job is created exactly when the account
-- has no live one, and after the call it has exactly one.
pub create_sync_job_iff :
    (id a source : Text) (now : ℕ) (jobs : List SyncJob)
    → AtMostOneLive jobs
    → ((is_some (create_sync_job id a source now jobs).1 ≡ true) ↔ (live_count a jobs ≡ 0))
      × (live_count a (create_sync_job id a source now jobs).0 ≡ 1)
create_sync_job_iff id a source now jobs h = elim (Bool-cases (any (is_live_of a) jobs)) [
  | inl live ↦ ground (
    arith,
    created id a source now jobs,
    any_of_live_count a jobs,
    h.one a,
    kept_count id a source now jobs live,
  )
  | inr idle ↦ ground (
    arith,
    created id a source now jobs,
    live_count-zero a jobs,
    appended_count id a source now jobs a idle,
    text_eq_refl a,
  )
]
