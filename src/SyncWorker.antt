-- ===== src/SyncWorker.antt =====
-- src/mailfallback/services/sync_worker.py: the life of a sync job. `Preflight` is the guards and
-- the start of execute_sync_job, `Finish` the end of a run, `Pause` the self-recovering pauses,
-- `Sampler` the daily ledger, `Invocations` the mbsync processes of one job, and `Recovery` the boot
-- sweep and the watchdog.
pub mod Pause
pub mod Preflight
pub mod Finish
pub mod Closing
pub mod Agreement
pub mod Pauses
pub mod Recovery
pub mod Swept
pub mod Guards
pub mod Sampler
pub mod Invocations
mod Tests
