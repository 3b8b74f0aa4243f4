-- ===== src/BackupWorker/Alerts.antt =====
-- What a run says of its failure, and how often the owners are told.
use mailfallback.Prelude.{
  ℕ, suc, Bool, true, false, Option, some, List, [], ◌∷◌, ◌++◌, length, length-append,
  if◌then◌else◌, ◌≡◌, refl, arith, Bool-cases, inl, inr,
}
use mailfallback.Prelude.Text.{Text, codes, option_text_eq, option_text_eq_refl}
use mailfallback.Models.{Account, BackupPolicy, is_live}
use mailfallback.NotificationService.{notify_account_problem}
use mailfallback.BackupWorker.{
  Restic, alert, backup_failed, execute_backup, fail_rows, is_policy_running, new_backup_job, reap,
  stalled, stalled_marker, start_policy, succeed,
}

-- However restic ends, the run leaves neither its job nor its policy on running. A run that fails
-- after the watchdog has closed it keeps the watchdog's verdict on the job and the policy; any
-- other failure is recorded with its own message.
pub execute_backup_verdict :
    (id source : Text) (now later : ℕ) (restic : Restic) (policy : BackupPolicy) (account : Account)
    (reaped : Bool) (message : Text)
    → ((is_live (execute_backup id source now later restic policy account).job.status ≡ false)
        × (is_policy_running
              (execute_backup id source now later restic policy account).policy.last_status
            ≡ false))
      × (((execute_backup id source now later
              (Restic.raises reaped message)
              policy
              account).job.failure_kind
            ≡ some (if reaped then stalled else codes "error"))
          × ((execute_backup id source now later
                (Restic.raises reaped message)
                policy
                account).policy.last_error
              ≡ some (if reaped then stalled_marker else message)))
unfolding execute_backup alert succeed fail_rows reap new_backup_job start_policy
execute_backup_verdict id source now later (Restic.snapshot snapshot_id p a) policy account true
      message =
    ((refl, refl), (refl, refl))
execute_backup_verdict id source now later (Restic.snapshot snapshot_id p a) policy account false
      message =
    ((refl, refl), (refl, refl))
execute_backup_verdict id source now later (Restic.raises r m) policy account true message =
    ((refl, refl), (refl, refl))
execute_backup_verdict id source now later (Restic.raises r m) policy account false message =
    ((refl, refl), (refl, refl))

-- Runs one after another, each on the rows that the one before has left; all that they send.
unfoldable pub run_backups : Text → Text → ℕ → List Restic → BackupPolicy → Account → List Text
unfolding execute_backup
run_backups id source now [] policy account = []
run_backups id source now (r ∷ rs) policy account =
    let w = execute_backup id source now now r policy account in
    w.sent ++ run_backups id source now rs w.policy w.account

-- A run that fails after one that did not.
unfoldable pub entries : Bool → List Restic → ℕ
entries failing [] = 0
entries failing (Restic.snapshot id p a ∷ rs) = entries false rs
entries failing (Restic.raises reaped message ∷ rs) =
    let later = entries true rs in if failing then later else suc later

abbrev pub is_told : Account → Bool
is_told a = option_text_eq a.last_notified_state (some backup_failed)

told_after_snapshot :
    (id source : Text) (now : ℕ) (s : Option Text) (p a : ℕ) (policy : BackupPolicy)
    (account : Account)
    → ((execute_backup id source now now (Restic.snapshot s p a) policy account).sent ≡ [])
      × (is_told (execute_backup id source now now (Restic.snapshot s p a) policy account).account
          ≡ false)
unfolding execute_backup succeed option_text_eq
told_after_snapshot id source now s p a policy account = (refl, ground arith)

told_of_notified :
    (a : Account)
    → (length (notify_account_problem backup_failed a).1 ≡ (if is_told a then 0 else 1))
      × (is_told (notify_account_problem backup_failed a).0 ≡ true)
unfolding notify_account_problem
told_of_notified a = elim (Bool-cases (is_told a)) [
  | inl e ↦ rw e (refl, e)
  | inr e ↦ rw e (refl, option_text_eq_refl (some backup_failed))
]

told_after_failure :
    (id source : Text) (now : ℕ) (reaped : Bool) (m : Text) (policy : BackupPolicy)
    (account : Account)
    → (length (execute_backup id source now now (Restic.raises reaped m) policy account).sent
        ≡ (if is_told account then 0 else 1))
      × (is_told (execute_backup id source now now (Restic.raises reaped m) policy account).account
          ≡ true)
unfolding execute_backup alert fail_rows reap
told_after_failure id source now true m policy account = told_of_notified account
told_after_failure id source now false m policy account = told_of_notified account

-- Over any sequence of runs of a policy the owners get one alert for each run that fails after one
-- that did not: not one for each failure, and again after each success.
pub run_backups-entries :
    (id source : Text) (now : ℕ) (rs : List Restic) (policy : BackupPolicy) (account : Account)
    → length (run_backups id source now rs policy account) ≡ entries (is_told account) rs
unfolding run_backups entries
run_backups-entries id source now [] policy account = refl
run_backups-entries id source now (Restic.snapshot s p a ∷ rs) policy account =
    let w = execute_backup id source now now (Restic.snapshot s p a) policy account in
    let told = told_after_snapshot id source now s p a policy account in
    let rest = run_backups-entries id source now rs w.policy w.account in
    ground
      (arith, told, rest, length-append w.sent (run_backups id source now rs w.policy w.account))
run_backups-entries id source now (Restic.raises reaped m ∷ rs) policy account =
    let w = execute_backup id source now now (Restic.raises reaped m) policy account in
    let told = told_after_failure id source now reaped m policy account in
    let rest = run_backups-entries id source now rs w.policy w.account in
    ground
      (arith, told, rest, length-append w.sent (run_backups id source now rs w.policy w.account))
