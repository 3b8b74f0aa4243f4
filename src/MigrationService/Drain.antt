-- ===== src/MigrationService/Drain.antt =====
-- initiate_account_migration, initiate_home_migration, initiate_store_drain and get_drain_status,
-- over the tables. The new row's id is an argument, for `uuid.uuid4`.
pub mod OneLive
use mailfallback.Prelude.{
  ℕ, zero, suc, ◌+◌, ◌-◌, leb, ltb, Bool, true, false, not, Option, none, some, List, [], ◌∷◌, ◌++◌,
  ◌||◌, ◌&&◌, any, keep, length, map, if◌then◌else◌, is_some, is_none,
}
use mailfallback.Prelude.Text.{Text, codes, text_eq, option_text_eq}
use mailfallback.Models.Queries.{get_account, get_user, get_store}
use mailfallback.Models.{Account, StoreMigration, MigrationStatus, MailStore, User}

pub record Tables : Type 0 where
  pub accounts : List Account
  pub users : List User
  pub stores : List MailStore
  pub migrations : List StoreMigration

-- A row that is returned, beside the tables after the commit, or a `ValueError`.
pub data Initiated : Type 0 where
  value_error : Text → Initiated
  created : Tables → StoreMigration → Initiated

-- The tables after the call.
abbrev pub tables_of : Tables → Initiated → Tables
tables_of t (Initiated.value_error message) = t
tables_of t (Initiated.created t' row) = t'

-- `migrating = True` on the row of the id.
unfoldable pub mark_account : Text → List Account → List Account
mark_account id [] = []
mark_account id (a ∷ accounts) =
    let others = mark_account id accounts in
    if text_eq a.id id then (record a { migrating = true }) ∷ accounts else a ∷ others

unfoldable pub mark_user : Text → List User → List User
mark_user id [] = []
mark_user id (u ∷ users) =
    let others = mark_user id users in
    if text_eq u.id id then (record u { migrating = true }) ∷ users else u ∷ others

-- `StoreMigration(…)`, with the defaults of its columns.
unfoldable pub new_migration : Text → Option Text → Option Text → Text → Text → StoreMigration
new_migration id user_id account_id source_store_id target_store_id = record {
  id = id;
  user_id = user_id;
  account_id = account_id;
  source_store_id = source_store_id;
  target_store_id = target_store_id;
  status = MigrationStatus.pending;
  total_files = 0;
  copied_files = 0;
  total_bytes = 0;
  copied_bytes = 0;
  error = none;
  started_at = none;
  completed_at = none;
  last_resumed_at = none;
}

-- The insertion for an account that was found.
unfoldable pub start_account : Text → Text → Account → Tables → Initiated
unfolding new_migration mark_account
start_account id target_store_id account t =
    let row = new_migration id none (some account.id) account.store_id target_store_id in
    if is_none (get_store target_store_id t.stores)
    then Initiated.value_error (codes "Target store not found")
    else if text_eq account.store_id target_store_id
    then Initiated.value_error (codes "Account is already on the target store")
    else if account.migrating
    then Initiated.value_error (codes "Account is already migrating")
    else Initiated.created
        (record t {
          accounts = mark_account account.id t.accounts;
          migrations = t.migrations ++ row ∷ [];
        })
        row

unfoldable pub initiate_account_migration : Text → Text → Text → Tables → Initiated
unfolding get_account start_account
initiate_account_migration id account_id target_store_id t =
    elim (get_account account_id t.accounts) [
      | none ↦ Initiated.value_error (codes "Account not found")
      | some account ↦ start_account id target_store_id account t
    ]

-- The insertion for a user that was found, whose checks come in another order.
unfoldable pub start_home : Text → Text → User → Tables → Initiated
unfolding new_migration mark_user
start_home id target_store_id user t =
    let row = new_migration id (some user.id) none user.store_id target_store_id in
    if user.migrating
    then Initiated.value_error (codes "User is already migrating")
    else if is_none (get_store target_store_id t.stores)
    then Initiated.value_error (codes "Target store not found")
    else if text_eq user.store_id target_store_id
    then Initiated.value_error (codes "User is already on the target store")
    else Initiated.created
        (record t { users = mark_user user.id t.users; migrations = t.migrations ++ row ∷ [] }) row

unfoldable pub initiate_home_migration : Text → Text → Text → Tables → Initiated
unfolding get_user start_home
initiate_home_migration id user_id target_store_id t = elim (get_user user_id t.users) [
  | none ↦ Initiated.value_error (codes "User not found")
  | some user ↦ start_home id target_store_id user t
]

-- `notin_([completed, failed])`.
abbrev pub is_live : MigrationStatus → Bool
is_live MigrationStatus.completed = false
is_live MigrationStatus.failed = false
is_live _ = true

abbrev pub is_completed : MigrationStatus → Bool
is_completed MigrationStatus.completed = true
is_completed _ = false

abbrev pub is_failed : MigrationStatus → Bool
is_failed MigrationStatus.failed = true
is_failed _ = false

abbrev pub is_from : Text → StoreMigration → Bool
is_from store_id m = text_eq m.source_store_id store_id

pub record DrainStatus : Type 0 where
  pub active : ℕ
  pub completed : ℕ
  pub failed : ℕ
  pub total_bytes : ℕ
  pub copied_bytes : ℕ
  pub draining : Bool
  pub just_finished : Bool

abbrev total_of : List StoreMigration → ℕ
total_of [] = 0
total_of (m ∷ ms) = m.total_bytes + total_of ms

abbrev copied_of : List StoreMigration → ℕ
copied_of [] = 0
copied_of (m ∷ ms) = m.copied_bytes + copied_of ms

-- `completed_at >= cutoff`, with the cutoff 60 seconds before now.
abbrev is_recent : ℕ → StoreMigration → Bool
is_recent now m = elim m.completed_at [ none ↦ false | some at ↦ leb now (at + 60000000) ]

-- The labels of the items are left out.
unfoldable pub get_drain_status : ℕ → Text → List StoreMigration → DrainStatus
get_drain_status now store_id migrations =
    let mine = keep (is_from store_id) migrations in
    let active = keep (λ (m : StoreMigration). is_live m.status) mine in
    let completed = length (keep (λ (m : StoreMigration). is_completed m.status) mine) in
    let failed = length (keep (λ (m : StoreMigration). is_failed m.status) mine) in
    record {
      active = length active;
      completed = completed;
      failed = failed;
      total_bytes = total_of active;
      copied_bytes = copied_of active;
      draining = ltb 0 (length active);
      just_finished =
          not (ltb 0 (length active))
          && (ltb 0 completed || ltb 0 failed)
          && any (is_recent now) mine;
    }
