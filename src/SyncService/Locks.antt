-- ===== src/SyncService/Locks.antt =====
-- create_sync_job against a lock for each account.
use mailfallback.Prelude.{
  ℕ, Bool, not, ◌||◌, List, [], ◌∷◌, any, any-append, is_some, ◌≡◌, refl, ap, arith,
}
use mailfallback.Prelude.Text.{Text, text_eq, text_eq_sound}
use mailfallback.Models.{SyncJob}
use mailfallback.SyncService.{create_sync_job, is_live_of, new_job}

-- The arguments of a call of create_sync_job.
pub record Call : Type 0 where
  pub id : Text
  pub account_id : Text
  pub source : Text
  pub now : ℕ

-- Whether each call of a sequence gets a job.
unfoldable pub answers : List Call → List SyncJob → List Bool
unfolding create_sync_job
answers [] jobs = []
answers (c ∷ calls) jobs =
    let (jobs', job) = create_sync_job c.id c.account_id c.source c.now jobs in
    is_some job ∷ answers calls jobs'

-- The specification: a set of locked accounts, of which a call takes its own if it is free.
abbrev pub Locks : Type 0
Locks = Text → Bool

abbrev pub take_lock : Text → Locks → Locks
take_lock a locks b = text_eq a b || locks b

unfoldable pub lock_answers : List Call → Locks → List Bool
lock_answers [] locks = []
lock_answers (c ∷ calls) locks =
    not (locks c.account_id) ∷ lock_answers calls (take_lock c.account_id locks)

-- The abstract view of the table: it forgets the rows that are over, and the order.
abbrev pub locks_of : List SyncJob → Locks
locks_of jobs a = any (is_live_of a) jobs

new_job-live :
    (id a source : Text) (now : ℕ) (b : Text)
    → any (is_live_of b) (new_job id a source now ∷ []) ≡ text_eq a b
unfolding new_job
new_job-live id a source now b = ground arith

create_sync_job-take_lock :
    (c : Call) (jobs : List SyncJob) (b : Text)
    → locks_of (create_sync_job c.id c.account_id c.source c.now jobs).0 b
      ≡ take_lock c.account_id (locks_of jobs) b
unfolding create_sync_job
create_sync_job-take_lock c jobs b = ground (
  arith,
  any-append (is_live_of b) jobs (new_job c.id c.account_id c.source c.now ∷ []),
  new_job-live c.id c.account_id c.source c.now b,
  text_eq_sound c.account_id b,
)

lock_answers-ext :
    (calls : List Call) (l l' : Locks)
    → ((b : Text) → l b ≡ l' b)
    → lock_answers calls l ≡ lock_answers calls l'
unfolding lock_answers
lock_answers-ext [] l l' h = refl
lock_answers-ext (c ∷ calls) l l' h = ground (
  arith,
  h c.account_id,
  lock_answers-ext calls (take_lock c.account_id l) (take_lock c.account_id l')
      (λ b. ap (λ (x : Bool). text_eq c.account_id b || x) (h b)),
)

-- Over every sequence of calls, create_sync_job answers as one lock for each account does, where
-- the table's live rows are the locks that are taken: the table refines the locks.
pub answers-lock_answers :
    (calls : List Call) (jobs : List SyncJob)
    → answers calls jobs ≡ lock_answers calls (locks_of jobs)
unfolding answers lock_answers create_sync_job
answers-lock_answers [] jobs = refl
answers-lock_answers (c ∷ calls) jobs =
    let jobs' = (create_sync_job c.id c.account_id c.source c.now jobs).0 in
    let given : is_some (create_sync_job c.id c.account_id c.source c.now jobs).1
        ≡ not (locks_of jobs c.account_id) =
      ground arith in
    let later = answers-lock_answers calls jobs' in
    let same =
      lock_answers-ext calls (locks_of jobs') (take_lock c.account_id (locks_of jobs))
        (create_sync_job-take_lock c jobs) in
    ground (arith, given, later, same)
