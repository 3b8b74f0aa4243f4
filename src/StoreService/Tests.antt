-- ===== src/StoreService/Tests.antt =====
-- Stores, homes and paths on small tables.
use mailfallback.Prelude.{
  ℕ, true, false, none, some, [], ◌∷◌, ◌≡◌, ◌↔◌, ◌⊎◌, refl, is_some, if◌then◌else◌, get_elem?,
}
use mailfallback.Prelude.Text.{Text, codes, text_eq}
use mailfallback.Models.{MailStore, User, UserRole}
use mailfallback.Models.Examples.{mailbox}
use mailfallback.Models.Queries.{get_store}
use mailfallback.StoreService.{
  delete_store, ensure_default_store, find_path, get_default_store, is_path_available,
  remove_dovecot_home, set_default_store,
}
use mailfallback.StoreService.Homes.{
  all_housed, delete_store-all_housed, remove_dovecot_home-dovecot_home_dir,
}
use mailfallback.StoreService.Nesting.{Within, is_path_available_iff}
use mailfallback.StoreService.Paths.{dovecot_home_dir, rstrip_slash, sanitize_path_component}
use mailfallback.StoreService.Places.{
  Volume, directory, enter, lies_in, remove_tree, same_place, walk,
}
use mailfallback.StoreService.Places.Siblings.{is_plain}
use mailfallback.StoreService.Rows.{
  IsUnique, defaults, ensure_default_store-IsUnique, set_default_store-get_default_store,
}

abbrev store : MailStore
store = record {
  id = codes "s1";
  name = codes "one";
  path = codes "/data/";
  enabled = true;
  is_default = false;
}

abbrev ann : User
ann = record {
  id = codes "u";
  username = codes "a b";
  role = UserRole.user;
  enabled = true;
  store_id = codes "s1";
  migrating = false;
  allowed_stores = [];
}

-- A user whose name folds onto the same home.
abbrev bob : User
bob = record ann { id = codes "v"; username = codes "a_b" }

abbrev volume : Volume
volume p = some directory

store-IsUnique : IsUnique (store ∷ [])
unfolding IsUnique find_path
store-IsUnique = (refl, tt)

set_default_store-get_default_store_example :
    (defaults (set_default_store (codes "s1") (store ∷ [])).0
      ≡ (if is_some (get_store (codes "s1") (store ∷ [])) then 1 else 0))
    × (get_default_store (set_default_store (codes "s1") (store ∷ [])).0
        ≡ (set_default_store (codes "s1") (store ∷ [])).1)
set_default_store-get_default_store_example =
    set_default_store-get_default_store (codes "s1") (store ∷ [])

ensure_default_store-IsUnique_example :
    IsUnique (ensure_default_store (codes "n") (codes "/data") (store ∷ [])).0
    × ((is_some
            (get_default_store (ensure_default_store (codes "n") (codes "/data") (store ∷ [])).0)
          ≡ true)
        × ((ensure_default_store
              (codes "m")
              (codes "/")
              (ensure_default_store (codes "n") (codes "/data") (store ∷ [])).0).0
            ≡ (ensure_default_store (codes "n") (codes "/data") (store ∷ [])).0))
ensure_default_store-IsUnique_example =
    ensure_default_store-IsUnique (codes "n") (codes "/data") (codes "m") (codes "/") (store ∷ [])
      store-IsUnique

-- A mail of bob, below the home that he shares with ann.
abbrev mail : Text
mail = codes "/data/.dovecot-home/a_b/mail"

remove_dovecot_home-dovecot_home_dir_example :
    (remove_dovecot_home (λ p. none) (some store) (ann ∷ bob ∷ []) ann volume).0 mail ≡ volume mail
unfolding text_eq is_plain lies_in same_place walk enter dovecot_home_dir sanitize_path_component
    rstrip_slash
remove_dovecot_home-dovecot_home_dir_example =
    remove_dovecot_home-dovecot_home_dir (λ p. none) store (ann ∷ bob ∷ []) ann bob 1 volume mail
      refl refl refl refl refl refl

abbrev dots : User
dots = record ann { id = codes "w"; username = codes ".." }

-- The home of the username `..` is the store itself: the mail of bob goes with it.
dots_take_mail :
    ((remove_dovecot_home (λ p. none) (some store) (dots ∷ bob ∷ []) dots volume).0 mail ≡ none)
    × (volume mail ≡ some directory)
unfolding remove_dovecot_home remove_tree text_eq lies_in same_place walk enter dovecot_home_dir
    sanitize_path_component rstrip_slash
dots_take_mail = (refl, refl)

delete_store-all_housed_example :
    all_housed
      (mailbox ∷ [])
      (ann ∷ [])
      (delete_store (codes "s1") (mailbox ∷ []) (ann ∷ []) (store ∷ [])).0
    ≡ true
unfolding get_store text_eq
delete_store-all_housed_example =
    delete_store-all_housed (codes "s1") (mailbox ∷ []) (ann ∷ []) (store ∷ []) refl

is_path_available_iff_example :
    (is_some (is_path_available (codes "/data/a") (codes "/data" ∷ [])) ≡ true) ↔ (
      (k : ℕ) × ((path : Text) × ((get_elem? (codes "/data" ∷ []) k ≡ some path)
          × (Within path (codes "/data/a") ⊎ Within (codes "/data/a") path))))
is_path_available_iff_example = is_path_available_iff (codes "/data/a") (codes "/data" ∷ [])
