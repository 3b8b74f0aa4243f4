-- ===== src/SyncService/Cleanup.antt =====
-- What cleanup_old_jobs leaves.
use mailfallback.Prelude.{
  ℕ, zero, suc, ◌+◌, ◌≤◌, Bool, true, not, ◌||◌, List, [], ◌∷◌, all, keep, length, drop,
  if◌then◌else◌, ◌≡◌, refl, arith,
}
use mailfallback.Prelude.Text.{Text, text_eq_refl}
use mailfallback.Models.{SyncJob}
use mailfallback.SyncService.{is_of, insert_desc, newest_first, has_id, cleanup_old_jobs}

abbrev count : (SyncJob → Bool) → List SyncJob → ℕ
count p [] = 0
count p (job ∷ jobs) = if p job then suc (count p jobs) else count p jobs

count-insert_desc :
    (p : SyncJob → Bool) (job : SyncJob) (jobs : List SyncJob)
    → count p (insert_desc job jobs) ≡ count p (job ∷ jobs)
unfolding insert_desc
count-insert_desc p job [] = refl
count-insert_desc p job (k ∷ ks) = ground (arith, count-insert_desc p job ks)

count-newest_first :
    (p : SyncJob → Bool) (jobs : List SyncJob) → count p (newest_first jobs) ≡ count p jobs
unfolding newest_first
count-newest_first p [] = refl
count-newest_first p (job ∷ jobs) =
    ground (arith, count-insert_desc p job (newest_first jobs), count-newest_first p jobs)

count-take :
    (p : SyncJob → Bool) (n : ℕ) (jobs : List SyncJob) → count p jobs ≤ n + count p (drop n jobs)
count-take p zero jobs = omega arith
count-take p (suc n) [] = omega arith
count-take p (suc n) (job ∷ jobs) = ground (arith, count-take p n jobs)

count_mono :
    (p q : SyncJob → Bool) (jobs : List SyncJob)
    → ((job : SyncJob) → p job ≡ true → q job ≡ true)
    → count p jobs ≤ count q jobs
count_mono p q [] h = omega arith
count_mono p q (job ∷ jobs) h = ground (arith, h job, count_mono p q jobs h)

-- A row that the clean-up leaves.
abbrev spared : List SyncJob → SyncJob → Bool
spared old job = not (has_id old job.id)

spared-tail :
    (j : SyncJob) (old : List SyncJob) (job : SyncJob)
    → spared (j ∷ old) job ≡ true
    → spared old job ≡ true
unfolding has_id
spared-tail j old job h = ground arith

none_spared : (old : List SyncJob) → count (spared old) old ≡ 0
unfolding has_id
none_spared [] = refl
none_spared (job ∷ old) = ground (
  arith,
  text_eq_refl job.id,
  count_mono (spared (job ∷ old)) (spared old) old (spared-tail job old),
  none_spared old,
)

length-keep :
    (p q : SyncJob → Bool) (jobs : List SyncJob)
    → length (keep p (keep q jobs)) ≡ count q (keep p jobs)
length-keep p q [] = refl
length-keep p q (job ∷ jobs) = ground (arith, length-keep p q jobs)

kept_others :
    (p q : SyncJob → Bool) (jobs : List SyncJob)
    → all (λ (job : SyncJob). p job || q job) jobs ≡ true
    → keep (λ (job : SyncJob). not (p job)) (keep q jobs)
      ≡ keep (λ (job : SyncJob). not (p job)) jobs
kept_others p q [] h = refl
kept_others p q (job ∷ jobs) h = ground (arith, kept_others p q jobs)

-- Where no row of another account has the id of a row that is deleted (ids are primary keys), the
-- clean-up leaves an account at most `limit` rows, and the rows of the others as they are.
pub cleanup_old_jobs_bound :
    (account_id : Text) (limit : ℕ) (jobs : List SyncJob)
    → all
        (λ (job : SyncJob).
          is_of account_id job
          || not (has_id (drop limit (newest_first (keep (is_of account_id) jobs))) job.id))
        jobs
      ≡ true
    → (length (keep (is_of account_id) (cleanup_old_jobs account_id limit jobs).0) ≤ limit)
      × (keep
            (λ (job : SyncJob). not (is_of account_id job))
            (cleanup_old_jobs account_id limit jobs).0
          ≡ keep (λ (job : SyncJob). not (is_of account_id job)) jobs)
unfolding cleanup_old_jobs
cleanup_old_jobs_bound account_id limit jobs h =
    let mine = keep (is_of account_id) jobs in
    let old = drop limit (newest_first mine) in
    (
      omega (
        arith,
        length-keep (is_of account_id) (spared old) jobs,
        count-newest_first (spared old) mine,
        count-take (spared old) limit (newest_first mine),
        none_spared old,
      ),
      kept_others (is_of account_id) (spared old) jobs h,
    )
