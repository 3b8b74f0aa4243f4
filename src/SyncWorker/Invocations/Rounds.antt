-- ===== src/SyncWorker/Invocations/Rounds.antt =====
-- How many mbsync processes one job starts, and when it starts its invocations again.
use mailfallback.Prelude.{
  ℕ, zero, suc, ◌+◌, ◌*◌, ◌≤◌, Bool, true, false, none, List, [], ◌∷◌, length, last, ◌≡◌, ◌≢◌, ◌⊎◌,
  refl, ap, arith,
}
use mailfallback.Prelude.Int.{pos, is_zero}
use mailfallback.Prelude.Text.{Text}
use mailfallback.SyncFailures.{classify_failure}
use mailfallback.SyncWorker.Invocations.{
  Session, Launcher, Survey, Ran, register, collect, mark_pass, watch_process, run_pass, run_from,
  run_invocations, after_survey, retry, may_reconcile, may_retry, must_stop, is_barred,
  result_output, reconcile_removed_folders, run_sync,
}

mark_pass_started : (idx total : ℕ) (s : Session) → (mark_pass idx total s).started ≡ s.started
unfolding mark_pass
mark_pass_started idx total s = ground arith

run_pass_started :
    (launch : Launcher) (total idx : ℕ) (cmd : List Text) (s : Session)
    → (run_pass launch total idx cmd s).session.started ≡ suc s.started
unfolding run_pass watch_process register collect
run_pass_started launch total idx cmd s = ap suc (mark_pass_started idx total s)

run_from_bound :
    (launch : Launcher) (total idx : ℕ) (cmds : List (List Text)) (r : Ran)
    → (run_from launch total idx cmds r).session.started ≤ r.session.started + length cmds
unfolding run_from
run_from_bound launch total idx [] r = ground arith
run_from_bound launch total idx (cmd ∷ cmds) r = ground (
  arith,
  run_pass_started launch total idx cmd r.session,
  run_from_bound launch total (suc idx) cmds (run_pass launch total idx cmd r.session),
)

run_invocations_bound :
    (launch : Launcher) (invocations : List (List Text)) (s : Session)
    → (run_invocations launch invocations s).session.started ≤ s.started + length invocations
unfolding run_invocations
run_invocations_bound launch invocations s =
    run_from_bound launch (length invocations) 0 invocations
      (record { result_code = pos 1; session = s })

barred_stop : (idx : ℕ) (s : Session) → is_barred idx s ≡ true → s.budget_stopped ≡ true
barred_stop zero s h = ground (arith, h)
barred_stop (suc idx) s h = h

run_from_all :
    (launch : Launcher) (total idx : ℕ) (cmds : List (List Text)) (r : Ran)
    → is_zero (run_from launch total idx cmds r).result_code ≡ true
    → (run_from launch total idx cmds r).session.budget_stopped ≡ false
    → (run_from launch total idx cmds r).session.started ≡ r.session.started + length cmds
unfolding run_from
run_from_all launch total idx [] r zero_code unstopped = ground arith
run_from_all launch total idx (cmd ∷ cmds) r zero_code unstopped = ground (
  arith,
  zero_code,
  unstopped,
  barred_stop idx r.session,
  run_pass_started launch total idx cmd r.session,
  run_from_all launch total (suc idx) cmds (run_pass launch total idx cmd r.session),
)

-- A round that returns 0 without a budget stop has started every invocation of its list.
run_invocations_all :
    (launch : Launcher) (invocations : List (List Text)) (s : Session)
    → is_zero (run_invocations launch invocations s).result_code ≡ true
    → (run_invocations launch invocations s).session.budget_stopped ≡ false
    → (run_invocations launch invocations s).session.started ≡ s.started + length invocations
unfolding run_invocations
run_invocations_all launch invocations s =
    run_from_all launch (length invocations) 0 invocations
      (record { result_code = pos 1; session = s })

surveyed_started :
    (matches : Text → Text → Bool) (v : Survey) (s : Session)
    → (after_survey matches v s).started ≡ s.started
unfolding after_survey
surveyed_started matches v s = refl

retry_bound :
    (launch : Launcher) (invocations : List (List Text)) (s : Session)
    → (retry launch invocations s).session.started ≤ s.started + length invocations
unfolding retry
retry_bound launch invocations s = run_invocations_bound launch invocations (record s { log = _ })

retry_all :
    (launch : Launcher) (invocations : List (List Text)) (s : Session)
    → is_zero (retry launch invocations s).result_code ≡ true
    → (retry launch invocations s).session.budget_stopped ≡ false
    → (retry launch invocations s).session.started ≡ s.started + length invocations
unfolding retry
retry_all launch invocations s = run_invocations_all launch invocations (record s { log = _ })

reconcile_guard :
    (provider : Text) (r : Ran)
    → may_reconcile provider r ≡ true
    → (is_zero r.result_code ≡ false)
      × (must_stop r.session ≡ false)
      × (classify_failure (last 4096 (result_output r.session)) provider ≡ none)
unfolding may_reconcile
reconcile_guard provider r h = ground (arith, h)

retry_guard :
    (quarantined : List Text) (s : Session)
    → may_retry quarantined s ≡ true
    → (quarantined ≢ []) × (s.killed ≡ false)
retry_guard [] s h = ground (arith, h)
retry_guard (folder ∷ folders) s h = ground (arith, h)

surveyed_stopped :
    (matches : Text → Text → Bool) (v : Survey) (s : Session)
    → (after_survey matches v s).killed ≡ false
    → v.stopped ≡ false
unfolding after_survey
surveyed_stopped matches v s h = ground (arith, h)

surveyed_budget :
    (matches : Text → Text → Bool) (v : Survey) (s : Session)
    → (after_survey matches v s).budget_stopped ≡ false
    → s.budget_stopped ≡ false
unfolding after_survey
surveyed_budget matches v s h = ground (arith, h)

-- Whatever the processes print and however they end, one sync job starts at most twice as many
-- processes as it has invocations: the retry after a quarantine is not followed by another.
pub run_sync_bound :
    (matches : Text → Text → Bool) (launch : Launcher) (v : Survey) (provider : Text)
    (invocations : List (List Text)) (s : Session)
    → (run_sync matches launch v provider invocations s).session.started
      ≤ s.started + 2 * length invocations
unfolding run_sync
run_sync_bound matches launch v provider invocations s =
    let r = run_invocations launch invocations s in
    let surveyed = after_survey matches v r.session in
    ground (
      arith,
      run_invocations_bound launch invocations s,
      surveyed_started matches v r.session,
      retry_bound launch invocations surveyed,
    )

-- A job whose result is 0 and that no budget stop marked has run its whole list of invocations in
-- its last round: the processes started are those of one full round, or those of the first round
-- and a full second one.
pub run_sync_all :
    (matches : Text → Text → Bool) (launch : Launcher) (v : Survey) (provider : Text)
    (invocations : List (List Text)) (s : Session)
    → is_zero (run_sync matches launch v provider invocations s).result_code ≡ true
    → (run_sync matches launch v provider invocations s).session.budget_stopped ≡ false
    → ((run_sync matches launch v provider invocations s).session.started
        ≡ s.started + length invocations)
      ⊎ ((run_sync matches launch v provider invocations s).session.started
          ≡ (run_invocations launch invocations s).session.started + length invocations)
unfolding run_sync
run_sync_all matches launch v provider invocations s zero_code unstopped =
    let r = run_invocations launch invocations s in
    let surveyed = after_survey matches v r.session in
    ground (
      arith,
      zero_code,
      unstopped,
      run_invocations_all launch invocations s,
      surveyed_started matches v r.session,
      surveyed_budget matches v r.session,
      retry_all launch invocations surveyed,
    )

-- A job starts more processes than its first round only when that round failed with no stop of
-- either kind and with an output that classify_failure gives no verdict on, some folder was
-- quarantined, and no stop arrived while the folders were reconciled.
pub run_sync_retried :
    (matches : Text → Text → Bool) (launch : Launcher) (v : Survey) (provider : Text)
    (invocations : List (List Text)) (s : Session)
    → (run_sync matches launch v provider invocations s).session.started
      ≢ (run_invocations launch invocations s).session.started
    → (is_zero (run_invocations launch invocations s).result_code ≡ false)
      × (must_stop (run_invocations launch invocations s).session ≡ false)
      × (classify_failure
            (last 4096 (result_output (run_invocations launch invocations s).session))
            provider
          ≡ none)
      × ((reconcile_removed_folders matches v).0 ≢ [])
      × (v.stopped ≡ false)
unfolding run_sync
run_sync_retried matches launch v provider invocations s again =
    let r = run_invocations launch invocations s in
    let surveyed = after_survey matches v r.session in
    ground (
      arith,
      again,
      reconcile_guard provider r,
      retry_guard (reconcile_removed_folders matches v).0 surveyed,
      surveyed_started matches v r.session,
      surveyed_stopped matches v r.session,
    )
