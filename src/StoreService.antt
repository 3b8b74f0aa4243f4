-- ===== src/StoreService.antt =====
-- src/mailfallback/services/store_service.py: the table of stores, the stores of a user, the paths
-- of mailboxes and the Dovecot homes. A new row's id is an argument, for `uuid.uuid4`.
pub mod Homes
pub mod Nesting
pub mod Paths
pub mod Places
pub mod Rows
mod Tests
use mailfallback.Prelude.{
  ℕ, Bool, true, false, not, ◌&&◌, ◌||◌, Option, none, some, List, [], ◌∷◌, ◌++◌, all, any, keep,
  length, ltb, if◌then◌else◌, is_some, is_none,
}
use mailfallback.Prelude.Text.{Text, codes, text_eq, starts_with}
use mailfallback.Models.{Account, MailStore, User, UserRole}
use mailfallback.Models.Queries.{get_store}
use mailfallback.StoreService.Paths.{dovecot_home_dir, rstrip_slash}
use mailfallback.StoreService.Places.{Node, Volume, is_directory, remove_tree}

abbrev pub default_flag : MailStore → Bool
default_flag s = s.is_default

unfoldable pub get_default_store : List MailStore → Option MailStore
get_default_store [] = none
get_default_store (s ∷ stores) = if s.is_default then some s else get_default_store stores

unfoldable pub clear_defaults : List MailStore → List MailStore
clear_defaults [] = []
clear_defaults (s ∷ stores) = (record s { is_default = false }) ∷ clear_defaults stores

-- `store.is_default = True` on the first row of the id.
unfoldable pub flag_default : Text → List MailStore → List MailStore
flag_default id [] = []
flag_default id (s ∷ stores) =
    let others = flag_default id stores in
    if text_eq s.id id then (record s { is_default = true }) ∷ stores else s ∷ others

-- With no row of the id the flags are cleared in the session, which is not committed.
unfoldable pub set_default_store : Text → List MailStore → List MailStore × Option MailStore
unfolding clear_defaults flag_default get_store
set_default_store store_id stores =
    let flagged = flag_default store_id (clear_defaults stores) in
    (flagged, get_store store_id flagged)

unfoldable pub find_path : Text → List MailStore → Option MailStore
find_path path [] = none
find_path path (s ∷ stores) = if text_eq s.path path then some s else find_path path stores

-- `MailStore(name="default", …)`.
unfoldable pub new_default : Text → Text → MailStore
new_default id path = record {
  id = id;
  name = codes "default";
  path = path;
  enabled = true;
  is_default = true;
}

-- The store at the path, in the canonical spelling first, is flagged, or a new one is added.
unfoldable pub adopt_store : Text → Text → List MailStore → List MailStore × MailStore
unfolding flag_default find_path new_default
adopt_store id path stores = elim (find_path path stores) [
  | some s ↦ (flag_default s.id stores, record s { is_default = true })
  | none ↦ elim (find_path (path ++ b'/' ∷ []) stores) [
    | some s ↦ (flag_default s.id stores, record s { is_default = true })
    | none ↦ (stores ++ new_default id path ∷ [], new_default id path)
  ]
]

unfoldable pub ensure_default_store : Text → Text → List MailStore → List MailStore × MailStore
unfolding get_default_store adopt_store rstrip_slash
ensure_default_store id bootstrap_store_path stores = elim (get_default_store stores) [
  | some s ↦ (stores, s)
  | none ↦ adopt_store id (rstrip_slash bootstrap_store_path) stores
]

-- `MailStore(name=…, path=…)`.
unfoldable pub create_store : Text → Text → Text → List MailStore → List MailStore × MailStore
unfolding rstrip_slash
create_store id name path stores =
    let store : MailStore = record {
      id = id;
      name = name;
      path = rstrip_slash path;
      enabled = true;
      is_default = false;
    } in
    (stores ++ store ∷ [], store)

abbrev pub lives_on : Text → Account → Bool
lives_on store_id a = text_eq a.store_id store_id

abbrev pub is_home_of : Text → User → Bool
is_home_of store_id u = text_eq u.store_id store_id

unfoldable pub drop_store : Text → List MailStore → List MailStore
drop_store id [] = []
drop_store id (s ∷ stores) =
    let others = drop_store id stores in if text_eq s.id id then stores else s ∷ others

-- A store goes when no account and no user is on it; the second component is the refusal.
unfoldable pub delete_store :
    Text → List Account → List User → List MailStore → List MailStore × Option Text
unfolding drop_store get_store
delete_store store_id accounts users stores =
    if is_none (get_store store_id stores)
    then (stores, some (codes "Store not found"))
    else if any (lives_on store_id) accounts || any (is_home_of store_id) users
    then (
      stores,
      some (codes "Store is not empty — migrate all accounts and user homes before deleting"),
    )
    else (drop_store store_id stores, none)

-- `s in xs` on ids.
unfoldable pub has_text : List Text → Text → Bool
has_text xs s = any (text_eq s) xs

unfoldable pub get_allowed_stores : User → List MailStore → List MailStore
unfolding has_text
get_allowed_stores user stores = elim user.role [
  | UserRole.admin ↦ keep (λ (s : MailStore). s.enabled) stores
  | UserRole.user ↦ keep (λ (s : MailStore). has_text user.allowed_stores s.id && s.enabled) stores
]

unfoldable pub get_selectable_stores : User → List MailStore → Option (List MailStore)
unfolding get_allowed_stores
get_selectable_stores user stores =
    let allowed = get_allowed_stores user stores in
    if ltb 1 (length allowed) then some allowed else none

abbrev pub ids_of : List MailStore → List Text
ids_of [] = []
ids_of (s ∷ stores) = s.id ∷ ids_of stores

-- For a user that is found; the second component is the refusal.
unfoldable pub set_allowed_stores : List Text → List MailStore → User → User × Option Text
unfolding has_text
set_allowed_stores store_ids stores user =
    let new_ids = ids_of (keep (λ (s : MailStore). has_text store_ids s.id) stores) in
    if user.migrating
    then (user, some (codes "Cannot change stores while migration is in progress"))
    else elim user.store_id [
      | [] ↦ (record user { allowed_stores = new_ids }, none)
      | c ∷ id ↦
          if has_text new_ids (c ∷ id) then (record user { allowed_stores = new_ids }, none) else (
            user,
            some (codes "Cannot remove the user's current home store — migrate the user first"),
          )
    ]

-- `path.rstrip("/") + "/"`.
unfoldable pub path_norm : Text → Text
unfolding rstrip_slash
path_norm path = rstrip_slash path ++ b'/' ∷ []

-- What keeps a candidate from standing beside a path.
unfoldable pub conflict : Text → Text → Option Text
unfolding path_norm starts_with
conflict candidate path =
    if text_eq (path_norm candidate) (path_norm path)
    then some (codes "Path already in use: " ++ path)
    else if starts_with (path_norm candidate) (path_norm path)
    then some (codes "Path is a subdirectory of existing: " ++ path)
    else if starts_with (path_norm path) (path_norm candidate)
    then some (codes "Path is a parent of existing: " ++ path)
    else none

-- The first conflict with a mailbox's path, if there is one: the path is available without.
unfoldable pub is_path_available : Text → List Text → Option Text
unfolding conflict
is_path_available candidate [] = none
is_path_available candidate (path ∷ existing) =
    let rest = is_path_available candidate existing in
    elim (conflict candidate path) [ some reason ↦ some reason | none ↦ rest ]

-- A user, other than the one of the id, on the store, whose home is the directory.
abbrev pub shares_home : Text → MailStore → Text → User → Bool
shares_home user_id store home u =
    not (text_eq u.id user_id)
    && text_eq u.store_id store.id
    && text_eq (dovecot_home_dir store.path u.username) home

-- The volume and the answer; `left` is what `rmtree` with `ignore_errors` leaves.
unfoldable pub remove_dovecot_home :
    (Text → Option Node) → Option MailStore → List User → User → Volume → Volume × Bool
unfolding remove_tree dovecot_home_dir
remove_dovecot_home left none users user volume = (volume, false)
remove_dovecot_home left (some store) users user volume =
    let home = dovecot_home_dir store.path user.username in
    let removed = remove_tree left home volume in
    if any (shares_home user.id store home) users
    then (volume, false)
    else if not (is_directory (volume home))
    then (volume, false)
    else (removed, not (is_directory (removed home)))
