-- ===== src/Lib.antt =====
-- MailFallBack keeps local copies of IMAP mailboxes: a scheduler creates sync jobs, a worker runs
-- mbsync for each job and records how it ended, and the web surfaces show the state of each mailbox.
-- This library models that core, the stores that the mail lies on and the access to it, and proves
-- what its parts promise to each other.
--
-- The parts, with the code under src/mailfallback/ that each file models:
--   Models                 models.py: the rows of users, accounts, jobs, stores, migrations and tokens,
--                          with the columns used (Queries: the look-up of a row by its id)
--   Constants              constants.py: the token text that the worker writes and the status reads
--   SyncBudget             services/sync_budget.py: daily budgets, progress, ETA, resume times
--   SyncFailures           services/sync_failures.py: throttled, transient, or a real error
--   SyncProgress           services/sync_progress.py: the parser of the mbsync log (Lines, Reports,
--                          Parse, Snapshot, Patterns), what the lines say on their own
--                          (Sightings) and the texts for errors (Errors)
--   SyncService            services/sync_service.py: the table of sync jobs
--   SyncWorker             services/sync_worker.py: execute_sync_job (Preflight, Finish), the pauses
--                          (Pause), the ledger of _sampler_tick (Sampler),
--                          the rounds of mbsync processes with _reconcile_removed_folders
--                          (Invocations), recover_zombie_sync_jobs and recover_stalled_sync_jobs
--                          (Recovery)
--   NotificationService    services/notification_service.py: a problem is announced once
--   MailboxStatus          services/mailbox_status.py: resolve_mailbox_status (Facts, Resolve),
--                          resolve_job_outcome (Outcome), the sign-in texts (SignIn)
--   Scheduler              services/scheduler.py: _run_scheduled_sync, _run_pause_expiry_tick,
--                          sync_scheduler_jobs (Crons)
--   FolderReconcile        services/folder_reconcile.py: the quarantine of removed folders
--   RateLimit              middleware/rate_limit.py: the limits on POST requests
--   MailTree               the part of a file system that the copies below walk
--   MigrationWorker        services/migration_worker.py: prescan, copy_tree, verify_copy
--   MigrationService       services/migration_service.py: the run of a migration, of an account
--                          (Account) and of a home (Home); the requests and the drain (Drain)
--   BackupWorker           services/backup_worker.py: the run of a backup, its alerts, the two sweeps
--   MbsyncConfig           services/mbsync_config.py: the configuration that mbsync is run with
--   StoreService           services/store_service.py: the table of stores, the stores of a user, the
--                          paths (Paths) and the Dovecot homes, with where a path leads (Places)
--   AppCredentialService   services/app_credential_service.py: access tokens
--   Dependencies           dependencies.py: the principal of a request; passdb_verify of
--                          routers/dovecot.py
--   GroupService           services/group_service.py: the groups and their members (Sso: the
--                          memberships that a sign-in through the directory leaves)
--   Regex                  the part of Python's re that the patterns above use
--   Prelude, Clock         shared names, texts and the units of time
--
-- How they interact: the scheduler and the users create a job by create_sync_job; the worker's guards
-- (preflight) pass or close it; a run ends by finish, which reads SyncFailures, SyncBudget and
-- SyncProgress and writes the job and the account; MailboxStatus reads those two rows alone; after a
-- restart the boot sweep closes what was running, and the pause-expiry tick starts it again. A
-- migration copies an account's directory to the path that its new store derives, checks the copy,
-- and only then changes the account's path and removes the old directory. A token is verified by one
-- ladder of checks, which the passdb, the bearer requests and the scope checks all go through.
--
-- How the code is read. An operation takes the rows that the Python code loads and returns the rows
-- that it leaves committed; set_default_store with an unknown id alone returns rows that stay
-- uncommitted. A text is the list of its code points, a datetime a number of
-- microseconds since the epoch in UTC, a date a number of days; all calls of datetime.now in one
-- operation give one instant, and a difference of times stops at 0. Random jitter, new ids, the
-- cron library, the token refresh, the host check, fnmatch and the sampler's view of the process are
-- arguments. A floating-point result is an exact fraction, written with its denominator. In patterns
-- \d and \w are the ASCII ones, and lower is exact for texts that meet ASCII. The only fuel is in
-- decimal, which prints a number n with n + 1 steps, more than its digits; all other recursion is on
-- the data.
--
-- A tree of files is the list of its entries in the order of the directory scan; a disk is the
-- directories at whole paths, and two different paths are neither aliases nor nested; the Dovecot homes,
-- whose names users choose, stand on a volume instead, where paths are resolved (Places). What a write, a
-- request to cancel, an rmtree or the end of the process does in a migration is an argument (a
-- MigrationRun), so that the theorems hold for every one of them; rows that were not committed are
-- lost with the process. What an mbsync process prints, its code and the stop markers that other
-- threads set meanwhile are arguments too (a Launcher), and so are the folder lists that a
-- reconciliation meets (a Survey). A backup that the watchdog closes ends with an exception, as restic is
-- killed. The extra options of a mailbox are the items that json.loads gives. HMAC-SHA256 and what secrets.token_hex draws are arguments.
--
-- Not modelled: the database session and its commits, threads, the processes and their signals, the
-- reading of the output and its deadline, the sampler's walk of the disk, the delivery of
-- notifications, and the parts of the program other than those above (restore, staging, restic
-- and its repositories, search, the service of users and of accounts, Dovecot's configuration, the web routes).
pub mod Prelude
pub mod Regex
pub mod Clock
pub mod SyncBudget
pub mod SyncFailures
pub mod Constants
pub mod SyncProgress
pub mod Models
pub mod NotificationService
pub mod SyncService
pub mod SyncWorker
pub mod MailboxStatus
pub mod Scheduler
pub mod FolderReconcile
pub mod RateLimit
pub mod MailTree
pub mod MigrationWorker
pub mod MigrationService
pub mod StoreService
pub mod AppCredentialService
pub mod Dependencies
pub mod GroupService
pub mod BackupWorker
pub mod MbsyncConfig
