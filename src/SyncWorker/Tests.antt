-- ===== src/SyncWorker/Tests.antt =====
-- The theorems on the end of a run, at a run that is throttled, a paused mailbox and a crash.
use mailfallback.Prelude.{List, ◌||◌}
use mailfallback.SyncWorker.Sampler.{Sampler, over_budget, sampler_tick, sampler_ticks}
use mailfallback.SyncWorker.Sampler.Ledger.{budget_of, on_day, rises, sampler_ticks_booked}
use mailfallback.Prelude.{
  ℕ, ◌+◌, true, false, Option, none, some, [], ◌∷◌, ◌≡◌, ◌≢◌, ◌↔◌, refl, arith, ◌≤◌, All,
}
use mailfallback.Prelude.Int.{pos}
use mailfallback.Prelude.Text.{Text, codes, text_eq, is_space}
use mailfallback.Constants.{token_refresh_failed}
use mailfallback.Models.{AuthType, Account, SyncJob, SyncState, JobStatus, is_authenticated}
use mailfallback.Models.Examples.{mailbox}
use mailfallback.SyncService.{new_job}
use mailfallback.MailboxStatus.Kinds.{MailboxState}
use mailfallback.MailboxStatus.Facts.{Cron, facts}
use mailfallback.MailboxStatus.Resolve.{resolve_mailbox_status}
use mailfallback.MailboxStatus.Outcome.{resolve_job_outcome}
use mailfallback.SyncWorker.Pause.{throttled, pause_account}
use mailfallback.SyncWorker.Preflight.{World, Refresh, preflight, authenticate}
use mailfallback.SyncWorker.Finish.{Run, finish, crash, timeout_message}
use mailfallback.SyncWorker.Closing.{IsFresh, is_red}
use mailfallback.SyncWorker.Agreement.{after, finish_surfaces_agree}
use mailfallback.SyncWorker.Recovery.{Tables, Watch}
use mailfallback.SyncWorker.Pauses.{crash_hides_error}
use mailfallback.Regex.{non_space}
use mailfallback.SyncBudget.{next_budget_resume}

abbrev daily : Cron
daily s = some (λ (previous : Option ℕ) (now : ℕ). some (now + 86400000000))

abbrev job : SyncJob
job = record (new_job (codes "j") (codes "a") (codes "manual") 10) {
  status = JobStatus.running;
  started_at = some 11;
}

abbrev world : World
world = record { job = job; account = record mailbox { sync_state = SyncState.syncing }; sent = [] }

abbrev run : Run
run = record {
  result_code = pos 1;
  result_output = codes "NO [OVERQUOTA] bandwidth";
  budget_stopped = false;
  job_signal = none;
  deadline_cap = none;
  history = [];
  jitter = 0;
  now = 50;
}

world-IsFresh : IsFresh world
unfolding new_job
world-IsFresh = record { running = refl; unclassified = refl }

output_lem : text_eq run.result_output token_refresh_failed ≡ false
unfolding text_eq
output_lem = refl

signed_in : is_authenticated mailbox ≡ true
unfolding is_authenticated
signed_in = refl

syncing_signed_in : is_authenticated world.account ≡ true
unfolding is_authenticated
syncing_signed_in = refl

finish_surfaces_agree_example :
    ((resolve_mailbox_status daily
        (finish run world).account
        (after (finish run world) false 60)).state
      ≡ MailboxState.error)
    ↔ (is_red (resolve_job_outcome (finish run world).job).tone ≡ true)
finish_surfaces_agree_example =
    finish_surfaces_agree daily run world false 60 world-IsFresh output_lem syncing_signed_in refl
      refl

recent :
    (facts daily (pause_account throttled 500 mailbox) (after world false 60)).long_unsynced ≡ false
unfolding facts pause_account
recent = ground arith

abbrev still_paused : World
still_paused = record world {
  account = record world.account { pause_reason = some (codes "budget") };
}

crash_hides_error_example :
    (is_red (resolve_job_outcome (crash timeout_message 60 still_paused).job).tone ≡ true)
    × ((crash timeout_message 60 still_paused).account.sync_state ≡ SyncState.error)
    × ((crash timeout_message 60 still_paused).account.pause_reason
        ≡ still_paused.account.pause_reason)
    × ((crash timeout_message 60 still_paused).account.sync_paused_until
        ≡ still_paused.account.sync_paused_until)
    × ((resolve_mailbox_status daily
          (crash timeout_message 60 still_paused).account
          (after (crash timeout_message 60 still_paused) false 70)).state
        ≢ MailboxState.error)
crash_hides_error_example = crash_hides_error daily timeout_message 60 still_paused false 70 refl

abbrev tables : Tables
tables = record { jobs = job ∷ []; accounts = world.account ∷ [] }

abbrev watch : Watch
watch = record { grace = 20; threshold = 30; tick_age = λ id. some 40; alive = λ id. false }

abbrev ledger_mailbox : Account
ledger_mailbox = record mailbox { traffic_date = some 0; bytes_synced_today = 999999999999 }

resumed_lem : next_budget_resume 100 0 ≤ 90000000000
unfolding next_budget_resume
resumed_lem = omega arith

no_space : All (λ x. non_space x ≡ true) (codes "3600")
unfolding is_space
no_space = (refl, (refl, (refl, (refl, tt))))

abbrev pending_world : World
pending_world = record {
  job = new_job (codes "j") (codes "a") (codes "manual") 10;
  account = mailbox;
  sent = [];
}

abbrev no_error : Option Text
no_error = none

abbrev suspended_world : World
suspended_world = record pending_world { account = record mailbox { suspended = true } }

refused : (preflight none 11 suspended_world).1 ≡ false
unfolding preflight
refused = refl

no_kind : suspended_world.job.failure_kind ≡ none
unfolding new_job
no_kind = refl

no_signal : suspended_world.job.signal ≡ none
unfolding new_job
no_signal = refl

abbrev oauth_world : World
oauth_world = record world {
  account = record world.account {
    auth_type = AuthType.oauth2;
    pause_reason = some (codes "budget");
  };
}

abbrev no_token : Refresh
no_token = record { access_token = none; terminal = false }

refresh_refused : (authenticate no_token 12 oauth_world).1 ≡ false
unfolding authenticate
refresh_refused = refl

abbrev sampler : Sampler
sampler = record {
  account = record mailbox { traffic_date = some 0; daily_sync_budget_mb = some 1 };
  last_run_bytes = 0;
  budget_stop = false;
}

abbrev ticks : List (ℕ × ℕ)
ticks = (20, 500) ∷ (30, 900) ∷ []

one_day : on_day 0 ((10, 700) ∷ ticks) ≡ true
one_day = refl

sampler_ticks_booked_example :
    ((sampler_ticks ((10, 700) ∷ ticks) sampler).account.bytes_synced_today
      ≡ sampler.account.bytes_synced_today + rises sampler.last_run_bytes ((10, 700) ∷ ticks))
    × ((sampler_ticks ((10, 700) ∷ ticks) sampler).budget_stop ≡ (
        sampler.budget_stop
        || over_budget (budget_of sampler) (
            sampler.account.bytes_synced_today + rises sampler.last_run_bytes ((10, 700) ∷ ticks))))
sampler_ticks_booked_example = sampler_ticks_booked 0 (10, 700) ticks sampler refl one_day

-- The dip is booked again when the bytes are back: 700 and 400.
booked_again : (sampler_ticks ((10, 700) ∷ ticks) sampler).account.bytes_synced_today ≡ 1100
unfolding sampler_ticks sampler_tick
booked_again = refl
