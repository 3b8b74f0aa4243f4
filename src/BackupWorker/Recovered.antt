-- ===== src/BackupWorker/Recovered.antt =====
-- What the two sweeps leave behind.
use mailfallback.Prelude.{
  ℕ, Bool, false, not, ◌&&◌, List, [], ◌∷◌, any, if◌then◌else◌, ◌≡◌, refl, arith,
}
use mailfallback.Prelude.Text.{Text, text_eq, text_eq_refl, text_eq_sound}
use mailfallback.Models.{BackupJob, BackupPolicy}
use mailfallback.BackupWorker.{
  BackupTables, close_row, heal_policy, interrupted, recovered_marker, is_backup_zombie,
  is_policy_running, recover_zombie_backup_jobs, sweep_backups, update_policy,
}

-- The policy of the id is shown as running.
unfoldable pub shows_running : Text → List BackupPolicy → Bool
shows_running id [] = false
shows_running id (p ∷ policies) =
    if text_eq p.id id then is_policy_running p.last_status else shows_running id policies

healed :
    (id other marker : Text) (policies : List BackupPolicy)
    → shows_running other (update_policy id (heal_policy marker) policies)
      ≡ (shows_running other policies && not (text_eq id other))
unfolding shows_running update_policy heal_policy
healed id other marker [] = refl
healed id other marker (p ∷ policies) = ground (
  arith,
  healed id other marker policies,
  text_eq_sound p.id id,
  text_eq_sound p.id other,
  text_eq_sound id other,
  text_eq_refl other,
  text_eq_refl id,
)

-- A row that the sweep closes, of the policy.
abbrev pub of_policy : (BackupJob → Bool) → Text → BackupJob → Bool
of_policy closes id job = closes job && text_eq job.policy_id id

module _ (closes : BackupJob → Bool) (failure_kind marker : Text) (now : ℕ) where
  sweep_heals :
      (jobs : List BackupJob) (policies : List BackupPolicy) (id : Text)
      → shows_running id (sweep_backups closes failure_kind marker now jobs policies).0.policies
        ≡ (shows_running id policies && not (any (of_policy closes id) jobs))
  unfolding sweep_backups
  sweep_heals [] policies id = ground arith
  sweep_heals (job ∷ jobs) policies id = ground (
    arith,
    healed job.policy_id id marker policies,
    sweep_heals jobs policies id,
    sweep_heals jobs (update_policy job.policy_id (heal_policy marker) policies) id,
  )

  none_left :
      ((job : BackupJob) → closes (close_row failure_kind marker now job) ≡ false)
      → (jobs : List BackupJob) (policies : List BackupPolicy)
      → any closes (sweep_backups closes failure_kind marker now jobs policies).0.jobs ≡ false
  unfolding sweep_backups
  none_left c [] policies = refl
  none_left c (job ∷ jobs) policies = ground (
    arith,
    c job,
    none_left c jobs policies,
    none_left c jobs (update_policy job.policy_id (heal_policy marker) policies),
  )

zombie_closed :
    (procs : List Text) (kind marker : Text) (now : ℕ) (job : BackupJob)
    → is_backup_zombie procs (close_row kind marker now job) ≡ false
unfolding close_row
zombie_closed procs kind marker now job = ground arith

-- After the boot sweep no row is pending or running without a process, and a policy is shown as
-- running only if it was, and none of the rows that the sweep closed is of it.
pub recover_zombie_backup_jobs_heals :
    (procs : List Text) (now : ℕ) (t : BackupTables) (id : Text)
    → (any (is_backup_zombie procs) (recover_zombie_backup_jobs procs now t).0.jobs ≡ false)
      × (shows_running id (recover_zombie_backup_jobs procs now t).0.policies ≡ (
          shows_running id t.policies && not (any (of_policy (is_backup_zombie procs) id) t.jobs)))
unfolding recover_zombie_backup_jobs
recover_zombie_backup_jobs_heals procs now t id = (
  none_left (is_backup_zombie procs) interrupted recovered_marker now
      (zombie_closed procs interrupted recovered_marker now) t.jobs t.policies,
  sweep_heals (is_backup_zombie procs) interrupted recovered_marker now t.jobs t.policies id,
)
