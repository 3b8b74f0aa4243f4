-- ===== src/SyncService/Tests.antt =====
-- The theorems on the table of jobs, at a table with one closed job.

use mailfallback.Prelude.{not, ◌||◌, all, drop, keep, ◌≤◌, true, List, [], ◌∷◌, ◌≡◌, refl, arith}
use mailfallback.Prelude.Text.{Text, codes, text_eq}
use mailfallback.Models.{SyncJob, JobStatus}
use mailfallback.SyncService.Locks.{Call, answers, answers-lock_answers, lock_answers, locks_of}
use mailfallback.SyncService.{newest_first, insert_desc, has_id, is_of, new_job, create_sync_job}
use mailfallback.SyncService.OneLive.{live_count, AtMostOneLive, create_sync_job-AtMostOneLive}

abbrev closed : SyncJob
closed = record (new_job (codes "j1") (codes "a") (codes "manual") 3) { status = JobStatus.failed }

abbrev table : List SyncJob
table = closed ∷ []

closed_count : (b : Text) → live_count b table ≤ 1
unfolding new_job
closed_count b = ground arith

table-AtMostOneLive : AtMostOneLive table
table-AtMostOneLive = record { one = closed_count }

create_sync_job-AtMostOneLive_example :
    AtMostOneLive (create_sync_job (codes "j2") (codes "a") (codes "scheduled") 9 table).0
create_sync_job-AtMostOneLive_example =
    create_sync_job-AtMostOneLive (codes "j2") (codes "a") (codes "scheduled") 9 table
      table-AtMostOneLive

unrelated :
    all
      (λ (job : SyncJob).
        is_of (codes "a") job
        || not (has_id (drop 1 (newest_first (keep (is_of (codes "a")) table))) job.id))
      table
    ≡ true
unfolding new_job newest_first insert_desc has_id text_eq
unrelated = refl

abbrev call : Call
call = record { id = codes "j"; account_id = codes "b"; source = codes "manual"; now = 3 }

answers-lock_answers_example :
    answers (call ∷ call ∷ []) table ≡ lock_answers (call ∷ call ∷ []) (locks_of table)
answers-lock_answers_example = answers-lock_answers (call ∷ call ∷ []) table
