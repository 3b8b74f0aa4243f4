-- ===== src/SyncWorker/Invocations/Tests.antt =====
-- A job whose first round fails on a folder that is gone from the Source, and whose retry works.
use mailfallback.Prelude.{
  ℕ, zero, suc, ◌+◌, ◌≤◌, Bool, true, false, none, some, List, [], ◌∷◌, last, ◌≡◌, ◌≢◌, ◌⊎◌, refl,
  arith,
}
use mailfallback.Prelude.Int.{pos, is_zero}
use mailfallback.Prelude.Text.{Text, codes, text_eq}
use mailfallback.Models.{SyncJob, JobStatus, is_running}
use mailfallback.Models.Examples.{mailbox}
use mailfallback.SyncService.{new_job}
use mailfallback.SyncFailures.{classify_failure, throttle_signatures, matches}
use mailfallback.SyncWorker.Preflight.{World}
use mailfallback.SyncWorker.Finish.{Run, finish}
use mailfallback.SyncWorker.Invocations.{
  Session, Exit, Launcher, Survey, Ran, must_stop, result_output, run_invocations,
  reconcile_removed_folders, run_sync, run_of,
}
use mailfallback.SyncWorker.Invocations.Rounds.{run_sync_bound, run_sync_retried}
use mailfallback.SyncWorker.Invocations.Completed.{run_sync_completed}

abbrev literal : Text → Text → Bool
literal name pattern = false

abbrev exit_with : ℕ → Text → Bool → Exit
exit_with n line stop = record {
  lines = line ∷ [];
  returncode = pos n;
  tripped = false;
  stopped = stop;
}

-- The first process fails, and the later ones end well.
abbrev launch : Launcher
launch zero cmd = record {
  tripped = false;
  stopped = false;
  exit = exit_with 1 (codes "Error: mailbox Old does not exist");
}
launch (suc n) cmd = record { tripped = false; stopped = false; exit = exit_with 0 (codes "done") }

abbrev survey : Survey
survey = record {
  remote = some (codes "INBOX" ∷ []);
  local_folders = codes "INBOX" ∷ codes "Old" ∷ [];
  patterns = [];
  quarantine_folder = λ (folder : Text). some true;
  tripped = false;
  stopped = false;
}

abbrev invocations : List (List Text)
invocations = (codes "mbsync" ∷ codes "inbox" ∷ []) ∷ (codes "mbsync" ∷ codes "all" ∷ []) ∷ []

abbrev fresh : Session
fresh = record { log = []; budget_stopped = false; killed = false; started = 0 }

abbrev synced : Ran
synced = run_sync literal launch survey [] invocations fresh

abbrev first_round : Ran
first_round = run_invocations launch invocations fresh

run_sync_bound_example : synced.session.started ≤ 4
run_sync_bound_example = run_sync_bound literal launch survey [] invocations fresh

synced_started : synced.session.started ≡ 3
unfolding run_sync throttle_signatures text_eq matches
synced_started = refl

first_started : first_round.session.started ≡ 1
unfolding run_invocations
first_started = refl

more_started : synced.session.started ≢ first_round.session.started
more_started h = ground (arith, h, synced_started, first_started)

run_sync_retried_example :
    (is_zero first_round.result_code ≡ false)
    × (must_stop first_round.session ≡ false)
    × (classify_failure (last 4096 (result_output first_round.session)) [] ≡ none)
    × ((reconcile_removed_folders literal survey).0 ≢ [])
    × (survey.stopped ≡ false)
run_sync_retried_example = run_sync_retried literal launch survey [] invocations fresh more_started

abbrev job : SyncJob
job = record (new_job (codes "j") (codes "a") (codes "manual") 10) {
  status = JobStatus.running;
  started_at = some 11;
}

abbrev world : World
world = record { job = job; account = mailbox; sent = [] }

abbrev run : Run
run = record {
  result_code = pos 1;
  result_output = [];
  budget_stopped = false;
  job_signal = none;
  deadline_cap = none;
  history = [];
  jitter = 0;
  now = 50;
}

job_is_running : is_running world.job.status ≡ true
job_is_running = refl

synced_completed : (finish (run_of false synced run) world).job.status ≡ JobStatus.completed
unfolding finish run_of run_sync throttle_signatures text_eq matches
synced_completed = refl

run_sync_completed_example :
    (synced.session.started ≡ 2) ⊎ (synced.session.started ≡ first_round.session.started + 2)
run_sync_completed_example =
    run_sync_completed literal launch survey [] invocations fresh false run world job_is_running
      synced_completed
