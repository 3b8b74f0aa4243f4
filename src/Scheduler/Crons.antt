-- ===== src/Scheduler/Crons.antt =====
-- sync_scheduler_jobs of scheduler.py: the cron jobs of the mailboxes in the process's scheduler.
-- `CronTrigger` is a parameter: the trigger of five fields, `none` if it raises.
pub mod Kept
use mailfallback.Prelude.{
  ℕ, Bool, true, false, not, ◌&&◌, ◌||◌, Option, none, some, List, [], ◌∷◌, ◌++◌, any, keep, length,
  ◌==◌, is_some, if◌then◌else◌,
}
use mailfallback.Prelude.Text.{Text, codes, text_eq, starts_with, is_space}
use mailfallback.Models.{Account, is_authenticated, truthy}

abbrev flush : Text → List Text → List Text
flush [] words = words
flush (c ∷ w) words = (c ∷ w) ∷ words

-- `str.split()`, with the word that has been read so far.
unfoldable pub split_from : Text → Text → List Text
split_from word [] = flush word []
split_from word (c ∷ s) =
    if is_space c then flush word (split_from [] s) else split_from (word ++ c ∷ []) s

abbrev pub cron_id : Text → Text
cron_id account_id = codes "sync_" ++ account_id

module _ (Trigger : Type 0) where
  -- A job of APScheduler that runs `_run_scheduled_sync(account_id)`, or another function.
  pub record CronJob : Type 0 where
    pub id : Text
    pub account_id : Text
    pub trigger : Trigger

-- The table, and whether the loop goes on: an exception of `CronTrigger` ends the call.
abbrev pub Step : Type 0 → Type 0
Step Trigger = List (CronJob Trigger) × Bool

abbrev pub schedule_of : Option Text → Text
schedule_of none = []
schedule_of (some s) = s

abbrev pub is_active : List Account → Text → Bool
is_active accounts id = any (λ (a : Account). text_eq (cron_id a.id) id) accounts

module _ {Trigger : Type 0} where
  unfoldable pub get_cron : Text → List (CronJob Trigger) → Option (CronJob Trigger)
  get_cron id [] = none
  get_cron id (c ∷ crons) = if text_eq c.id id then some c else get_cron id crons

  -- `reschedule_job` of a job that is there, and `add_job` of one that is not.
  unfoldable pub put_cron : Text → Text → Trigger → List (CronJob Trigger) → List (CronJob Trigger)
  put_cron id account_id trigger [] =
      record { id = id; account_id = account_id; trigger = trigger } ∷ []
  put_cron id account_id trigger (c ∷ crons) =
      if text_eq c.id id
      then record c { trigger = trigger } ∷ crons
      else c ∷ put_cron id account_id trigger crons

  abbrev pub set_cron : Text → Option Trigger → List (CronJob Trigger) → Step Trigger
  set_cron account_id none crons = (crons, false)
  set_cron account_id (some trigger) crons =
      (put_cron (cron_id account_id) account_id trigger crons, true)

  -- The body of the first loop.
  unfoldable pub schedule_account :
      (List Text → Option Trigger) → Account → List (CronJob Trigger) → Step Trigger
  unfolding put_cron split_from is_authenticated
  schedule_account cron_trigger a crons =
      let parts = split_from [] (schedule_of a.sync_schedule) in
      if not (is_authenticated a) || not (truthy a.sync_schedule)
      then (crons, true)
      else if not (length parts == 5)
      then (crons, true)
      else set_cron a.id (cron_trigger parts) crons

  unfoldable pub schedule_accounts :
      (List Text → Option Trigger) → List Account → List (CronJob Trigger) → Step Trigger
  unfolding schedule_account
  schedule_accounts cron_trigger [] crons = (crons, true)
  schedule_accounts cron_trigger (a ∷ accounts) crons =
      let here = schedule_account cron_trigger a crons in
      let rest = schedule_accounts cron_trigger accounts here.0 in if here.1 then rest else here

  -- The jobs that the second loop leaves.
  abbrev pub stays_scheduled : List Account → List (CronJob Trigger) → Text → Bool
  stays_scheduled accounts before id =
      is_active accounts id
      || not (is_some (get_cron id before))
      || not (starts_with id (codes "sync_"))

  unfoldable pub sync_scheduler_jobs :
      (List Text → Option Trigger) → List Account → List (CronJob Trigger) → Step Trigger
  unfolding schedule_accounts get_cron
  sync_scheduler_jobs cron_trigger all_accounts crons =
      let accounts = keep (λ (a : Account). not a.suspended) all_accounts in
      let scheduled = schedule_accounts cron_trigger accounts crons in
      if scheduled.1
      then (keep (λ (c : CronJob Trigger). stays_scheduled accounts crons c.id) scheduled.0, true)
      else scheduled
