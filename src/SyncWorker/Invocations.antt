-- ===== src/SyncWorker/Invocations.antt =====
-- The mbsync processes of one job in sync_worker.py: `_run_invocations`,
-- `_reconcile_removed_folders`, and the part of execute_sync_job between them that decides on a
-- retry. A process is what it prints and how it ends, and what other threads mark meanwhile; the
-- log file gets the same lines as the log kept here.
pub mod Rounds
pub mod Completed
mod Tests
use mailfallback.Prelude.{
  ℕ, zero, suc, Bool, true, false, not, ◌&&◌, ◌||◌, Option, none, some, List, [], ◌∷◌, ◌++◌, length,
  last, map, is_none, if◌then◌else◌,
}
use mailfallback.Prelude.Int.{ℤ, pos, is_zero}
use mailfallback.Prelude.Text.{Text, codes, join_lines, rstrip, decimal}
use mailfallback.FolderReconcile.{
  Quarantine, provider_anomaly, missing, folders_to_quarantine, removed_container,
}
use mailfallback.SyncFailures.{classify_failure}
use mailfallback.SyncWorker.Finish.{Run}

-- `_running_logs`, `_budget_stops` and `_killed_signals` at the job, and the processes started.
pub record Session : Type 0 where
  pub log : List Text
  pub budget_stopped : Bool
  pub killed : Bool
  pub started : ℕ

-- How a process ends: its lines and code, and the markers set while it ran.
pub record Exit : Type 0 where
  pub lines : List Text
  pub returncode : ℤ
  pub tripped : Bool
  pub stopped : Bool

-- A started process: the markers set until it is registered, and its end, given whether
-- stop_sync_job was called on it at once.
pub record Process : Type 0 where
  pub tripped : Bool
  pub stopped : Bool
  pub exit : Bool → Exit

-- `subprocess.Popen`, by the number of processes that the job has started before.
abbrev pub Launcher : Type 0
Launcher = ℕ → List Text → Process

pub record Ran : Type 0 where
  pub result_code : ℤ
  pub session : Session

unfoldable pub invocation_marker : ℕ → ℕ → Text
unfolding decimal
invocation_marker idx total =
    codes "--- mbsync invocation "
    ++ (decimal (suc idx) ++ (codes "/" ++ (decimal total ++ codes ": full pass ---")))

-- `if idx: … _running_logs[job_id].append(marker)`.
unfoldable pub mark_pass : ℕ → ℕ → Session → Session
unfolding invocation_marker
mark_pass zero total s = s
mark_pass (suc idx) total s = record s { log = s.log ++ invocation_marker (suc idx) total ∷ [] }

-- The start of a process, with the markers that the check after its registration reads.
unfoldable pub register : Process → Session → Session
register p s = record s {
  budget_stopped = s.budget_stopped || p.tripped;
  killed = s.killed || p.stopped;
  started = suc s.started;
}

-- `job_id in _budget_stops or job_id in _killed_signals`.
abbrev pub must_stop : Session → Bool
must_stop s = s.budget_stopped || s.killed

-- The process has ended; stop_sync_job had marked the job as killed if it was called.
unfoldable pub collect : Exit → Session → Session
unfolding rstrip
collect e s = record s {
  log = s.log ++ map rstrip e.lines;
  budget_stopped = s.budget_stopped || e.tripped;
  killed = must_stop s || e.stopped;
}

-- The body of the loop for one process.
unfoldable pub watch_process : Process → Session → Ran
unfolding register collect
watch_process p s =
    let registered = register p s in
    let e = p.exit (must_stop registered) in
    record { result_code = e.returncode; session = collect e registered }

unfoldable pub run_pass : Launcher → ℕ → ℕ → List Text → Session → Ran
unfolding mark_pass watch_process
run_pass launch total idx cmd s = watch_process (launch s.started cmd) (mark_pass idx total s)

-- `if idx and job_id in _budget_stops`.
abbrev pub is_barred : ℕ → Session → Bool
is_barred zero s = false
is_barred (suc idx) s = s.budget_stopped

-- The loop from one index on, with the last result so far.
unfoldable pub run_from : Launcher → ℕ → ℕ → List (List Text) → Ran → Ran
unfolding run_pass
run_from launch total idx [] r = r
run_from launch total idx (cmd ∷ cmds) r =
    let ran = run_pass launch total idx cmd r.session in
    let rest = run_from launch total (suc idx) cmds ran in
    if is_barred idx r.session then r else if is_zero ran.result_code then rest else ran

unfoldable pub run_invocations : Launcher → List (List Text) → Session → Ran
unfolding run_from
run_invocations launch invocations s =
    run_from launch (length invocations) 0 invocations (record { result_code = pos 1; session = s })

-- What the reconciliation meets outside: the folder list of the Source (none: it could not be
-- fetched), the folders on disk and those that the patterns exclude, the outcome of each
-- `quarantine_folder` (none: OSError), and the markers set while all that took its time.
pub record Survey : Type 0 where
  pub remote : Option (List Text)
  pub local_folders : List Text
  pub patterns : List Text
  pub quarantine_folder : Text → Option Bool
  pub tripped : Bool
  pub stopped : Bool

abbrev refusal_line : ℕ → ℕ → Text
refusal_line count total =
    codes "--- No folder was moved to \""
    ++ (removed_container
        ++ (codes "\": "
            ++ (decimal count
                ++ (codes " of "
                    ++ (decimal total
                        ++ codes
                            " folders missing from the Source. Losing that many at once points to a problem at the Source rather than deliberate deletions. Check the Source, then sync again. ---")))))

abbrev was_moved : Option Bool → Bool
was_moved none = false
was_moved (some moved) = moved

unfoldable pub quarantine_all : (Text → Option Bool) → List Text → List Text
quarantine_all quarantine_folder [] = []
quarantine_all quarantine_folder (folder ∷ folders) =
    let rest = quarantine_all quarantine_folder folders in
    if was_moved (quarantine_folder folder) then folder ∷ rest else rest

abbrev quarantine_or_refuse : (Text → Option Bool) → Quarantine → List Text × List Text
quarantine_or_refuse quarantine_folder (provider_anomaly count total) =
    ([], refusal_line count total ∷ [])
quarantine_or_refuse quarantine_folder (missing folders) =
    (quarantine_all quarantine_folder folders, [])

abbrev reconcile_listed : (Text → Text → Bool) → Survey → Option (List Text) → List Text × List Text
reconcile_listed matches v none = ([], [])
reconcile_listed matches v (some remote) =
    quarantine_or_refuse v.quarantine_folder
      (folders_to_quarantine matches v.local_folders remote v.patterns)

-- The quarantined folders, and the lines added to the log.
unfoldable pub reconcile_removed_folders : (Text → Text → Bool) → Survey → List Text × List Text
unfolding folders_to_quarantine quarantine_all decimal
reconcile_removed_folders matches v = reconcile_listed matches v v.remote

-- The session when the reconciliation returns.
unfoldable pub after_survey : (Text → Text → Bool) → Survey → Session → Session
after_survey matches v s = record s {
  log = s.log ++ (reconcile_removed_folders matches v).1;
  budget_stopped = s.budget_stopped || v.tripped;
  killed = s.killed || v.stopped;
}

abbrev pub retry_marker : Text
retry_marker = codes "--- retry after quarantining folders removed from the Source ---"

abbrev pub result_output : Session → Text
result_output s = join_lines s.log

-- The guard of the reconciliation.
unfoldable pub may_reconcile : Text → Ran → Bool
unfolding join_lines classify_failure
may_reconcile provider r =
    not (is_zero r.result_code)
    && not r.session.budget_stopped
    && not r.session.killed
    && is_none (classify_failure (last 4096 (result_output r.session)) provider)

-- `if quarantined and job_id not in _killed_signals`.
abbrev pub may_retry : List Text → Session → Bool
may_retry [] s = false
may_retry (folder ∷ folders) s = not s.killed

unfoldable pub retry : Launcher → List (List Text) → Session → Ran
unfolding run_invocations
retry launch invocations s =
    run_invocations launch invocations (record s { log = s.log ++ retry_marker ∷ [] })

-- From the first `_run_invocations` to the last `result_output`.
unfoldable pub run_sync :
    (Text → Text → Bool) → Launcher → Survey → Text → List (List Text) → Session → Ran
unfolding run_invocations may_reconcile reconcile_removed_folders after_survey retry
run_sync matches launch v provider invocations s =
    let r = run_invocations launch invocations s in
    let surveyed = after_survey matches v r.session in
    let retried = retry launch invocations surveyed in
    if not (may_reconcile provider r)
    then r
    else if may_retry (reconcile_removed_folders matches v).0 surveyed
    then retried
    else record r { session = surveyed }

-- The run that the ending reads: the result and output that the rounds left, and the budget marker,
-- which the last flush of the sampler may still set.
unfoldable pub run_of : Bool → Ran → Run → Run
unfolding join_lines
run_of flush_tripped ran r = record r {
  result_code = ran.result_code;
  result_output = result_output ran.session;
  budget_stopped = ran.session.budget_stopped || flush_tripped;
}
