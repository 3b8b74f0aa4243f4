-- ===== src/MigrationService/Drain/OneLive.antt =====
-- An account has at most one migration that is not over, and is marked while it has one.
use mailfallback.Prelude.{
  ℕ, suc, ◌+◌, ◌≤◌, Bool, true, false, none, some, List, [], ◌∷◌, ◌++◌, ◌⊎◌, ◌||◌, ◌&&◌, any, keep,
  length, if◌then◌else◌, is_some, ◌≡◌, refl, ap, ◌∙◌, arith, inl, inr, Option-cases,
}
use mailfallback.Prelude.Text.{Text, text_eq, option_text_eq, text_eq_refl, text_eq_sound}
use mailfallback.Models.{Account, StoreMigration, MigrationStatus}
use mailfallback.Models.Queries.{get_account}
use mailfallback.MigrationService.Drain.{
  Tables, tables_of, mark_account, new_migration, start_account, initiate_account_migration,
  is_live, is_completed, is_failed, is_from, get_drain_status,
}

abbrev is_of : Text → StoreMigration → Bool
is_of account_id m = option_text_eq m.account_id (some account_id)

-- The migrations of the account that are not over.
unfoldable pub live_of : Text → List StoreMigration → ℕ
live_of account_id [] = 0
live_of account_id (m ∷ ms) =
    if is_of account_id m && is_live m.status
    then suc (live_of account_id ms)
    else live_of account_id ms

unfoldable pub is_marked : Text → List Account → Bool
unfolding get_account
is_marked account_id accounts = elim (get_account account_id accounts) [
  | none ↦ false
  | some a ↦ a.migrating
]

-- Each account has at most one live migration, and none unless its row is marked.
unfoldable pub Marked : Tables → Type 0
unfolding live_of is_marked
Marked t = (id : Text) → live_of id t.migrations ≤ (if is_marked id t.accounts then 1 else 0)

live_of-append :
    (id : Text) (ms : List StoreMigration) (m : StoreMigration)
    → live_of id (ms ++ m ∷ []) ≡ live_of id ms + (if is_of id m && is_live m.status then 1 else 0)
unfolding live_of
live_of-append id [] m = ground arith
live_of-append id (x ∷ ms) m = ground (arith, live_of-append id ms m)

is_marked-mark_account :
    (id other : Text) (accounts : List Account)
    → is_some (get_account id accounts) ≡ true
    → is_marked other (mark_account id accounts) ≡ (text_eq id other || is_marked other accounts)
unfolding is_marked mark_account get_account
is_marked-mark_account id other [] h = ground arith
is_marked-mark_account id other (a ∷ accounts) h = ground (
  arith,
  is_marked-mark_account id other accounts,
  text_eq_sound a.id id,
  text_eq_refl other,
  text_eq_refl id,
  text_eq_sound a.id other,
  text_eq_sound id other,
)

get_account-id :
    (id : Text) (accounts : List Account) (a : Account)
    → get_account id accounts ≡ some a
    → a.id ≡ id
unfolding get_account
get_account-id id [] a h = ground arith
get_account-id id (x ∷ accounts) a h =
    ground (arith, get_account-id id accounts a, text_eq_sound x.id id)

is_marked-some :
    (a : Account) (other : Text) (accounts : List Account)
    → get_account a.id accounts ≡ some a
    → text_eq a.id other ≡ true
    → is_marked other accounts ≡ a.migrating
unfolding is_marked
is_marked-some a other accounts h same = ground (arith, text_eq_sound a.id other)

is_of-row :
    (id target_store_id : Text) (a : Account) (other : Text)
    → is_of other (new_migration id none (some a.id) a.store_id target_store_id)
      ≡ text_eq a.id other
unfolding new_migration option_text_eq
is_of-row id target_store_id a other = refl

-- The row that an insertion adds.
abbrev row_of : Text → Text → Account → StoreMigration
row_of id target_store_id a = new_migration id none (some a.id) a.store_id target_store_id

start_account-Marked :
    (id target_store_id : Text) (a : Account) (t : Tables)
    → get_account a.id t.accounts ≡ some a
    → Marked t
    → Marked (tables_of t (start_account id target_store_id a t))
unfolding start_account Marked
start_account-Marked id target_store_id a t there marked other =
    let is_new : is_of other (row_of id target_store_id a) ≡ text_eq a.id other =
      is_of-row id target_store_id a other in
    ground (
      arith,
      marked other,
      live_of-append other t.migrations (row_of id target_store_id a),
      is_marked-mark_account a.id other t.accounts,
      is_marked-some a other t.accounts,
      text_eq_sound a.id other,
    )

initiate-none :
    (id account_id target_store_id : Text) (t : Tables)
    → get_account account_id t.accounts ≡ none
    → tables_of t (initiate_account_migration id account_id target_store_id t) ≡ t
unfolding initiate_account_migration
initiate-none id account_id target_store_id t e = ground arith

initiate-some :
    (id account_id target_store_id : Text) (t : Tables) (a : Account)
    → get_account account_id t.accounts ≡ some a
    → initiate_account_migration id account_id target_store_id t
      ≡ start_account id target_store_id a t
unfolding initiate_account_migration
initiate-some id account_id target_store_id t a e = ground arith

-- A request for an account's migration, refused or not, keeps the rule that an account has at most
-- one migration that is neither completed nor failed, and is marked as migrating while it has one.
pub initiate_account_migration-Marked :
    (id account_id target_store_id : Text) (t : Tables)
    → Marked t
    → Marked (tables_of t (initiate_account_migration id account_id target_store_id t))
initiate_account_migration-Marked id account_id target_store_id t marked =
    elim (Option-cases (get_account account_id t.accounts)) [
      | inl e ↦ rw (initiate-none id account_id target_store_id t e) marked
      | inr (a, e) ↦ rw (initiate-some id account_id target_store_id t a e) (
          start_account-Marked id target_store_id a t
            (ap (λ (i : Text). get_account i t.accounts) (get_account-id account_id t.accounts a e)
              ∙ e)
            marked)
    ]

status_cases :
    (s : MigrationStatus)
    → ((is_live s ≡ true) × ((is_completed s ≡ false) × (is_failed s ≡ false)))
      ⊎ (((is_live s ≡ false) × ((is_completed s ≡ true) × (is_failed s ≡ false)))
          ⊎ ((is_live s ≡ false) × ((is_completed s ≡ false) × (is_failed s ≡ true))))
status_cases MigrationStatus.pending = inl (refl, (refl, refl))
status_cases MigrationStatus.copying = inl (refl, (refl, refl))
status_cases MigrationStatus.verifying = inl (refl, (refl, refl))
status_cases MigrationStatus.cleaning = inl (refl, (refl, refl))
status_cases MigrationStatus.completed = inr (inl (refl, (refl, refl)))
status_cases MigrationStatus.failed = inr (inr (refl, (refl, refl)))

-- The statuses split a store's migrations: those that are running, completed and failed add up to
-- all that leave the store, and a store is draining exactly while one of them is none of the two.
pub get_drain_status_total :
    (now : ℕ) (store_id : Text) (ms : List StoreMigration)
    → ((get_drain_status now store_id ms).active
          + (get_drain_status now store_id ms).completed
          + (get_drain_status now store_id ms).failed
        ≡ length (keep (is_from store_id) ms))
      × ((get_drain_status now store_id ms).draining
          ≡ any (λ (m : StoreMigration). is_from store_id m && is_live m.status) ms)
unfolding get_drain_status
get_drain_status_total now store_id [] = (refl, refl)
get_drain_status_total now store_id (m ∷ ms) = (
  ground (arith, status_cases m.status, (get_drain_status_total now store_id ms).0),
  ground (arith, (get_drain_status_total now store_id ms).1),
)
