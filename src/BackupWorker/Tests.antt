-- ===== src/BackupWorker/Tests.antt =====
-- Backups that fail and recover.
use mailfallback.Prelude.{
  true, false, not, ◌&&◌, none, some, List, [], ◌∷◌, ◌≡◌, any, length, if◌then◌else◌,
}
use mailfallback.Prelude.Text.{codes}
use mailfallback.Models.{BackupPolicy, BackupStatus, is_live}
use mailfallback.Models.Examples.{mailbox}
use mailfallback.BackupWorker.{
  BackupTables, Restic, execute_backup, is_backup_zombie, is_policy_running, new_backup_job,
  recover_zombie_backup_jobs, stalled, stalled_marker,
}
use mailfallback.BackupWorker.Alerts.{
  entries, execute_backup_verdict, is_told, run_backups, run_backups-entries,
}
use mailfallback.BackupWorker.Recovered.{of_policy, recover_zombie_backup_jobs_heals, shows_running}

abbrev policy : BackupPolicy
policy = record {
  id = codes "p";
  account_id = codes "a";
  last_status = BackupStatus.running;
  last_error = none;
  last_run_at = none;
  last_backup_at = none;
  last_successful_run_at = none;
}

abbrev wedged : Restic
wedged = Restic.raises true (codes "killed")

abbrev runs : List Restic
runs = wedged ∷ wedged ∷ Restic.snapshot none 1 1 ∷ wedged ∷ []

execute_backup_verdict_example :
    ((is_live (execute_backup (codes "j") (codes "manual") 3 9 wedged policy mailbox).job.status
        ≡ false)
      × (is_policy_running
            (execute_backup
              (codes "j")
              (codes "manual")
              3
              9
              wedged
              policy
              mailbox).policy.last_status
          ≡ false))
    × (((execute_backup
            (codes "j")
            (codes "manual")
            3
            9
            (Restic.raises true (codes "killed"))
            policy
            mailbox).job.failure_kind
          ≡ some (if true then stalled else codes "error"))
        × ((execute_backup
              (codes "j")
              (codes "manual")
              3
              9
              (Restic.raises true (codes "killed"))
              policy
              mailbox).policy.last_error
            ≡ some (if true then stalled_marker else codes "killed")))
execute_backup_verdict_example =
    execute_backup_verdict (codes "j") (codes "manual") 3 9 wedged policy mailbox true
      (codes "killed")

run_backups-entries_example :
    length (run_backups (codes "j") (codes "manual") 3 runs policy mailbox)
    ≡ entries (is_told mailbox) runs
run_backups-entries_example = run_backups-entries (codes "j") (codes "manual") 3 runs policy mailbox

abbrev tables : BackupTables
tables = record {
  jobs = new_backup_job (codes "j") policy mailbox (codes "schedule") 3 ∷ [];
  policies = policy ∷ [];
}

recover_zombie_backup_jobs_heals_example :
    (any (is_backup_zombie []) (recover_zombie_backup_jobs [] 5 tables).0.jobs ≡ false)
    × (shows_running (codes "p") (recover_zombie_backup_jobs [] 5 tables).0.policies ≡ (
        shows_running (codes "p") tables.policies
        && not (any (of_policy (is_backup_zombie []) (codes "p")) tables.jobs)))
recover_zombie_backup_jobs_heals_example = recover_zombie_backup_jobs_heals [] 5 tables (codes "p")
