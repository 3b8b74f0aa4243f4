-- ===== src/SyncProgress.antt =====
-- src/mailfallback/services/sync_progress.py: the mbsync output parser (`Snapshot` is its data,
-- `Lines` and `Reports` its handlers, `Parse` its loop) and the classification of error texts (`Errors`).
pub mod Errors
pub mod Cause
pub mod Snapshot
pub mod Patterns
pub mod Lines
pub mod Reports
pub mod Parse
pub mod Sightings
pub mod Invariant
mod Tests
