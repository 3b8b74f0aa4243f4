-- ===== src/Models/Examples.antt =====
-- A mailbox for the tests: signed in with a password, idle, and synced once.
use mailfallback.Prelude.{false, some, none, []}
use mailfallback.Prelude.Text.{codes}
use mailfallback.Models.{Account, AuthType, SyncState}

abbrev pub mailbox : Account
mailbox = record {
  id = codes "a";
  name = codes "Mail";
  email_address = codes "a@example.org";
  provider = codes "gmail";
  auth_type = AuthType.app_password;
  credentials = some (codes "secret");
  maildir_path = codes "/old/a";
  store_id = codes "s1";
  sync_schedule = none;
  sync_state = SyncState.idle;
  last_sync_at = some 5;
  last_error = none;
  traffic_date = none;
  bytes_synced_today = 0;
  daily_sync_budget_mb = none;
  sync_paused_until = none;
  pause_reason = none;
  initial_sync_completed_at = some 5;
  initial_sync_total_messages = none;
  last_notified_state = none;
  suspended = false;
  migrating = false;
  created_at = some 1;
  owners = [];
}
