-- ===== src/Scheduler/Crons/Kept.antt =====
-- Which cron jobs sync_scheduler_jobs leaves in the scheduler.
use mailfallback.Prelude.{
  Bool, true, false, not, ◌&&◌, Option, none, some, List, [], ◌∷◌, any, keep, if◌then◌else◌, ◌≡◌,
  refl, arith, inl, inr, Bool-cases, ap,
}
use mailfallback.Prelude.Text.{Text, codes, text_eq, text_eq_sound, starts_with}
use mailfallback.Models.{Account, truthy}
use mailfallback.Scheduler.Crons.{
  CronJob, get_cron, put_cron, schedule_account, schedule_accounts, sync_scheduler_jobs, cron_id,
  set_cron, split_from, schedule_of, is_active, stays_scheduled,
}

-- A row that would put a cron job for the id.
abbrev pub reschedules : Text → Account → Bool
reschedules id a = text_eq a.id id && truthy a.sync_schedule

module _ {Trigger : Type 0} where
  get_cron-put_cron :
      (id account_id : Text) (t : Trigger) (crons : List (CronJob Trigger)) (other : Text)
      → text_eq id other ≡ false
      → get_cron other (put_cron id account_id t crons) ≡ get_cron other crons
  unfolding get_cron put_cron
  get_cron-put_cron id account_id t [] other h = rw h refl
  get_cron-put_cron id account_id t (c ∷ crons) other h = elim (Bool-cases (text_eq c.id id)) [
    | inl same ↦
        let apart : text_eq c.id other ≡ false = rw (text_eq_sound c.id id same) h in
        rw (same, apart) refl
    | inr differ ↦ ground (arith, differ, get_cron-put_cron id account_id t crons other)
  ]

  get_cron-keep :
      (q : Text → Bool) (crons : List (CronJob Trigger)) (id : Text)
      → get_cron id (keep (λ (c : CronJob Trigger). q c.id) crons)
        ≡ (if q id then get_cron id crons else none)
  unfolding get_cron
  get_cron-keep q [] id = ground arith
  get_cron-keep q (c ∷ crons) id = elim (Bool-cases (text_eq c.id id)) [
    | inl same ↦ ground (arith, same, ap q (text_eq_sound c.id id same), get_cron-keep q crons id)
    | inr differ ↦ ground (arith, differ, get_cron-keep q crons id)
  ]

  set_other :
      (account_id : Text) (t : Option Trigger) (crons : List (CronJob Trigger)) (id : Text)
      → text_eq account_id id ≡ false
      → get_cron (cron_id id) (set_cron account_id t crons).0 ≡ get_cron (cron_id id) crons
  unfolding text_eq
  set_other account_id none crons id h = refl
  set_other account_id (some t) crons id h =
      get_cron-put_cron (cron_id account_id) account_id t crons (cron_id id) h

  other_account :
      (cron_trigger : List Text → Option Trigger) (a : Account) (crons : List (CronJob Trigger))
      (id : Text)
      → reschedules id a ≡ false
      → get_cron (cron_id id) (schedule_account cron_trigger a crons).0
        ≡ get_cron (cron_id id) crons
  unfolding schedule_account
  other_account cron_trigger a crons id h =
      ground (
        arith,
        set_other a.id (cron_trigger (split_from [] (schedule_of a.sync_schedule))) crons id,
      )

  other_accounts :
      (cron_trigger : List Text → Option Trigger) (accounts : List Account)
      (crons : List (CronJob Trigger)) (id : Text)
      → any (reschedules id) accounts ≡ false
      → get_cron (cron_id id) (schedule_accounts cron_trigger accounts crons).0
        ≡ get_cron (cron_id id) crons
  unfolding schedule_accounts
  other_accounts cron_trigger [] crons id h = refl
  other_accounts cron_trigger (a ∷ accounts) crons id h = ground (
    arith,
    other_account cron_trigger a crons id,
    other_accounts cron_trigger accounts (schedule_account cron_trigger a crons).0 id,
  )

-- A row of the id that is not suspended.
abbrev pub runs : Text → Account → Bool
runs id a = text_eq a.id id && not a.suspended

abbrev unsuspended : List Account → List Account
unsuspended accounts = keep (λ (a : Account). not a.suspended) accounts

active-runs :
    (accounts : List Account) (id : Text)
    → is_active (unsuspended accounts) (cron_id id) ≡ any (runs id) accounts
unfolding text_eq
active-runs [] id = refl
active-runs (a ∷ accounts) id = ground (arith, active-runs accounts id)

none_reschedules :
    (accounts : List Account) (id : Text)
    → any (reschedules id) accounts ≡ false
    → any (reschedules id) (unsuspended accounts) ≡ false
none_reschedules [] id h = refl
none_reschedules (a ∷ accounts) id h = ground (arith, none_reschedules accounts id)

none_runs :
    (accounts : List Account) (id : Text)
    → any (runs id) accounts ≡ false
    → any (reschedules id) (unsuspended accounts) ≡ false
none_runs [] id h = refl
none_runs (a ∷ accounts) id h = ground (arith, none_runs accounts id)

sync_prefix : (id : Text) → starts_with (cron_id id) (codes "sync_") ≡ true
unfolding starts_with
sync_prefix id = refl

module _ {Trigger : Type 0} (cron_trigger : List Text → Option Trigger) (accounts : List Account)
    (crons : List (CronJob Trigger)) (id : Text) where
  after_crons :
      (sync_scheduler_jobs cron_trigger accounts crons).1 ≡ true
      → get_cron (cron_id id) (sync_scheduler_jobs cron_trigger accounts crons).0 ≡ (
          if stays_scheduled (unsuspended accounts) crons (cron_id id)
          then get_cron (cron_id id) (schedule_accounts cron_trigger (unsuspended accounts) crons).0
          else none)
  unfolding sync_scheduler_jobs
  after_crons h = ground (
    arith,
    get_cron-keep (stays_scheduled (unsuspended accounts) crons)
        (schedule_accounts cron_trigger (unsuspended accounts) crons).0 (cron_id id),
  )

  -- After a call that does not raise, an account that is suspended, or that is no longer in the table,
  -- has no cron job.
  pub sync_scheduler_jobs_suspended :
      (sync_scheduler_jobs cron_trigger accounts crons).1 ≡ true
      → any (runs id) accounts ≡ false
      → get_cron (cron_id id) (sync_scheduler_jobs cron_trigger accounts crons).0 ≡ none
  sync_scheduler_jobs_suspended ok h = ground (
    arith,
    after_crons ok,
    active-runs accounts id,
    sync_prefix id,
    other_accounts cron_trigger (unsuspended accounts) crons id (none_runs accounts id h),
  )

  -- After a call that does not raise, an account in the table that is not suspended and whose
  -- schedule has been cleared has the cron job that it had before the call, with its old trigger.
  pub sync_scheduler_jobs_cleared :
      (sync_scheduler_jobs cron_trigger accounts crons).1 ≡ true
      → any (runs id) accounts ≡ true
      → any (reschedules id) accounts ≡ false
      → get_cron (cron_id id) (sync_scheduler_jobs cron_trigger accounts crons).0
        ≡ get_cron (cron_id id) crons
  sync_scheduler_jobs_cleared ok there cleared = ground (
    arith,
    after_crons ok,
    active-runs accounts id,
    other_accounts cron_trigger (unsuspended accounts) crons id
        (none_reschedules accounts id cleared),
  )
