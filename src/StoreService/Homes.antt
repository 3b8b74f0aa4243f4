-- ===== src/StoreService/Homes.antt =====
-- What removing a Dovecot home leaves, and which stores a deletion takes.
use mailfallback.Prelude.{
  ℕ, Bool, true, false, ◌&&◌, ◌⊎◌, Option, some, inl, inr, List, [], ◌∷◌, all, any, get_elem?,
  is_some, is_none, ◌≡◌, refl, arith, Bool-cases, zero, suc, sym, subst, ap, ◌++◌,
}
use mailfallback.Prelude.Text.{Text, text_eq, text_eq_refl, text_eq_sound}
use mailfallback.Models.{Account, MailStore, User}
use mailfallback.Models.Queries.{get_store}
use mailfallback.StoreService.{
  delete_store, drop_store, is_home_of, lives_on, remove_dovecot_home, shares_home,
}
use mailfallback.StoreService.Paths.{
  dovecot_home_dir, dovecot_home_dirname, rstrip_slash, sanitize_path_component,
}
use mailfallback.StoreService.Places.{Node, Volume, lies_in, place_of, remove_tree}
use mailfallback.StoreService.Places.Siblings.{
  homes_of, is_plain, place_of-dovecot_home_dir, siblings,
}

any_at :
    {A : Type 0} (p : A → Bool) (xs : List A) (k : ℕ) (x : A)
    → get_elem? xs k ≡ some x
    → p x ≡ true
    → any p xs ≡ true
any_at p [] k x h e = ground arith
any_at p (y ∷ xs) zero x h e = ground arith
any_at p (y ∷ xs) (suc k) x h e = ground (arith, any_at p xs k x h e)

same_home :
    (store_path user other : Text)
    → sanitize_path_component user ≡ sanitize_path_component other
    → dovecot_home_dir store_path other ≡ dovecot_home_dir store_path user
unfolding dovecot_home_dir
same_home store_path user other e =
    ap (λ (name : Text). rstrip_slash store_path ++ b'/' ∷ dovecot_home_dirname ++ b'/' ∷ name)
      (sym e)

-- Two users of a store whose names are those of directories have apart homes, or share one.
homes_apart :
    (store_path : Text) (user other p : Text)
    → is_plain user ≡ true
    → is_plain other ≡ true
    → lies_in (place_of (dovecot_home_dir store_path other)) (place_of p) ≡ true
    → (dovecot_home_dir store_path other ≡ dovecot_home_dir store_path user)
      ⊎ (lies_in (place_of (dovecot_home_dir store_path user)) (place_of p) ≡ false)
homes_apart store_path user other p plain plain' below =
    let name = sanitize_path_component user in
    let name' = sanitize_path_component other in
    elim (Bool-cases (text_eq name name')) [
      | inl e ↦ inl (same_home store_path user other (text_eq_sound name name' e))
      | inr ne ↦ inr (
          subst (λ (q : List Text). lies_in q (place_of p) ≡ false)
            (sym (place_of-dovecot_home_dir store_path user plain))
            (siblings name name' (homes_of store_path) (place_of p) ne (
              subst (λ (q : List Text). lies_in q (place_of p) ≡ true)
                (place_of-dovecot_home_dir store_path other plain') below)))
    ]

-- Removing a user's Dovecot home leaves everything at and below the home of every other user of the
-- store as it was, also where the two usernames fold onto one directory: as long as neither
-- username folds to an empty name, to `.` or to `..`.
pub remove_dovecot_home-dovecot_home_dir :
    (left : Text → Option Node) (store : MailStore) (users : List User) (user other : User) (k : ℕ)
    (volume : Volume) (p : Text)
    → get_elem? users k ≡ some other
    → text_eq other.id user.id ≡ false
    → text_eq other.store_id store.id ≡ true
    → is_plain user.username ≡ true
    → is_plain other.username ≡ true
    → lies_in (place_of (dovecot_home_dir store.path other.username)) (place_of p) ≡ true
    → (remove_dovecot_home left (some store) users user volume).0 p ≡ volume p
unfolding remove_dovecot_home remove_tree
remove_dovecot_home-dovecot_home_dir left store users user other k volume p here ne on plain plain'
      below =
    let home = dovecot_home_dir store.path user.username in
    let shares = any_at (shares_home user.id store home) users k other here in
    elim (homes_apart store.path user.username other.username p plain plain' below) [
      | inl same ↦ ground (arith, ne, on, same, shares, text_eq_refl home)
      | inr apart ↦ ground (arith, apart)
    ]

-- Every account and user is on a store of the table.
abbrev pub all_housed : List Account → List User → List MailStore → Bool
all_housed accounts users stores =
    all (λ (a : Account). is_some (get_store a.store_id stores)) accounts
    && all (λ (u : User). is_some (get_store u.store_id stores)) users

get_store-drop_store :
    (id other : Text) (stores : List MailStore)
    → text_eq other id ≡ false
    → get_store other (drop_store id stores) ≡ get_store other stores
unfolding get_store drop_store
get_store-drop_store id other [] h = refl
get_store-drop_store id other (s ∷ stores) h = ground (
  arith,
  get_store-drop_store id other stores h,
  text_eq_sound s.id id,
  text_eq_sound s.id other,
  text_eq_refl other,
)

accounts_housed :
    (id : Text) (accounts : List Account) (stores : List MailStore)
    → any (lives_on id) accounts ≡ false
    → all (λ (a : Account). is_some (get_store a.store_id (drop_store id stores))) accounts
      ≡ all (λ (a : Account). is_some (get_store a.store_id stores)) accounts
accounts_housed id [] stores h = refl
accounts_housed id (a ∷ accounts) stores h =
    ground (arith, get_store-drop_store id a.store_id stores, accounts_housed id accounts stores)

users_housed :
    (id : Text) (users : List User) (stores : List MailStore)
    → any (is_home_of id) users ≡ false
    → all (λ (u : User). is_some (get_store u.store_id (drop_store id stores))) users
      ≡ all (λ (u : User). is_some (get_store u.store_id stores)) users
users_housed id [] stores h = refl
users_housed id (u ∷ users) stores h =
    ground (arith, get_store-drop_store id u.store_id stores, users_housed id users stores)

delete_cases :
    (store_id : Text) (accounts : List Account) (users : List User) (stores : List MailStore)
    → ((delete_store store_id accounts users stores).0 ≡ stores)
      ⊎ (((delete_store store_id accounts users stores).0 ≡ drop_store store_id stores)
          × ((any (lives_on store_id) accounts ≡ false)
              × (any (is_home_of store_id) users ≡ false)))
unfolding delete_store
delete_cases store_id accounts users stores =
    elim (Bool-cases (is_none (get_store store_id stores))) [
      | inl e ↦ inl (rw e refl)
      | inr e ↦ elim (Bool-cases (any (lives_on store_id) accounts)) [
        | inl l ↦ inl (rw (e, l) refl)
        | inr l ↦ elim (Bool-cases (any (is_home_of store_id) users)) [
          | inl o ↦ inl (rw (e, l, o) refl)
          | inr o ↦ inr (rw (e, l, o) refl, (l, o))
        ]
      ]
    ]

-- Deleting a store, refused or not, leaves every account and every user on a store of the table.
pub delete_store-all_housed :
    (store_id : Text) (accounts : List Account) (users : List User) (stores : List MailStore)
    → all_housed accounts users stores ≡ true
    → all_housed accounts users (delete_store store_id accounts users stores).0 ≡ true
delete_store-all_housed store_id accounts users stores h =
    elim (delete_cases store_id accounts users stores) [
      | inl e ↦ rw e h
      | inr (e, (l, o)) ↦
          rw (e, accounts_housed store_id accounts stores l, users_housed store_id users stores o) h
    ]
