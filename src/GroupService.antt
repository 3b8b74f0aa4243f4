-- ===== src/GroupService.antt =====
-- src/mailfallback/services/group_service.py: the groups, with their members and accounts by id.
-- The name of a new group is not taken: the column is unique.
pub mod Sso
mod Tests
use mailfallback.Prelude.{
  Bool, true, false, not, ◌&&◌, ◌||◌, Option, none, some, List, [], ◌∷◌, ◌++◌, any, keep, map,
  is_some, if◌then◌else◌,
}
use mailfallback.Prelude.Text.{Text, text_eq}
use mailfallback.Models.{User, UserRole}

pub record Group : Type 0 where
  pub id : Text
  pub name : Text
  pub owner_id : Text
  pub sso_sync : Bool
  pub members : List Text
  pub accounts : List Text

abbrev pub is_in : Text → List Text → Bool
is_in x xs = any (text_eq x) xs

unfoldable pub create_group : Text → Text → Text → Bool → List Group → List Group × Group
create_group id name owner_id sso_sync groups =
    let group : Group = record {
      id = id;
      name = name;
      owner_id = owner_id;
      sso_sync = sso_sync;
      members = [];
      accounts = [];
    } in
    (groups ++ group ∷ [], group)

unfoldable pub get_group : Text → List Group → Option Group
unfolding text_eq
get_group id [] = none
get_group id (g ∷ groups) = if text_eq g.id id then some g else get_group id groups

unfoldable pub change_group : Text → (Group → Group) → List Group → List Group
unfolding text_eq
change_group id change groups = map (λ (g : Group). if text_eq g.id id then change g else g) groups

-- The updatable fields of the keyword arguments; a field that is not passed is none.
pub record GroupChange : Type 0 where
  pub name : Option Text
  pub sso_sync : Option Bool

abbrev or_keep {ℓ} : {A : Type ℓ} → A → Option A → A
or_keep old none = old
or_keep old (some new) = new

unfoldable pub update_group : Text → GroupChange → List Group → List Group × Option Group
unfolding change_group get_group
update_group id c groups =
    let groups' =
      change_group id
        (λ (g : Group). record g {
          name = or_keep g.name c.name;
          sso_sync = or_keep g.sso_sync c.sso_sync;
        })
        groups in
    (groups', get_group id groups')

unfoldable pub delete_group : Text → List Group → List Group × Bool
unfolding get_group
delete_group id groups =
    (keep (λ (g : Group). not (text_eq g.id id)) groups, is_some (get_group id groups))

-- `group.members.append(user)`.
unfoldable pub append_member : Text → Group → Group
append_member user_id g = record g { members = g.members ++ user_id ∷ [] }

unfoldable pub remove_first : Text → List Text → List Text
unfolding text_eq
remove_first x [] = []
remove_first x (y ∷ ys) = let rest = remove_first x ys in if text_eq x y then ys else y ∷ rest

-- `group.members.remove(user)`.
unfoldable pub drop_member : Text → Group → Group
unfolding remove_first
drop_member user_id g = record g { members = remove_first user_id g.members }

-- The users are given by their ids.
unfoldable pub add_member : List Text → Text → Text → List Group → List Group
unfolding change_group append_member
add_member users group_id user_id groups =
    change_group group_id
      (λ (g : Group).
        if is_in user_id users && not (is_in user_id g.members) then append_member user_id g else g)
      groups

unfoldable pub remove_member : List Text → Text → Text → List Group → List Group
unfolding change_group drop_member
remove_member users group_id user_id groups =
    change_group group_id
      (λ (g : Group).
        if is_in user_id users && is_in user_id g.members then drop_member user_id g else g)
      groups

-- `accounts` is the table, by id.
unfoldable pub set_group_accounts : List Text → Text → List Text → List Group → List Group
unfolding change_group
set_group_accounts accounts group_id account_ids groups =
    change_group group_id
      (λ (g : Group). record g { accounts = keep (λ (a : Text). is_in a account_ids) accounts })
      groups

-- `user.groups`.
unfoldable pub get_user_groups : Text → List Group → List Group
unfolding text_eq
get_user_groups user_id groups = keep (λ (g : Group). is_in user_id g.members) groups

unfoldable pub can_manage_group : User → Group → Bool
unfolding text_eq
can_manage_group user group = elim user.role [
  | UserRole.admin ↦ true
  | _ ↦ text_eq user.id group.owner_id
]

-- The body of the loop, for one group of the directory.
unfoldable pub sync_member : Text → List Text → Group → Group
unfolding append_member drop_member
sync_member user_id sso_group_names g =
    let is_member = is_in user_id g.members in
    let should_be_member = is_in g.name sso_group_names in
    if should_be_member && not is_member
    then append_member user_id g
    else if not should_be_member && is_member
    then drop_member user_id g
    else g

unfoldable pub sync_sso_groups : Text → List Text → List Group → List Group
unfolding sync_member
sync_sso_groups user_id sso_group_names groups =
    map (λ (g : Group). if g.sso_sync then sync_member user_id sso_group_names g else g) groups
