-- ===== src/GroupService/Tests.antt =====
-- A sign-in that joins one group of the directory and leaves another.
use mailfallback.Prelude.{true, false, List, [], ◌∷◌, map, All, ◌≡◌, refl}
use mailfallback.Prelude.Text.{codes, text_eq}
use mailfallback.GroupService.{Group, is_in, sync_sso_groups}
use mailfallback.GroupService.Sso.{is_unique, is_granted, IsListed, sync_sso_groups-is_granted}

abbrev staff : Group
staff = record {
  id = codes "1";
  name = codes "staff";
  owner_id = codes "o";
  sso_sync = true;
  members = codes "b" ∷ [];
  accounts = [];
}

abbrev guests : Group
guests = record staff {
  id = codes "2";
  name = codes "guests";
  members = codes "a" ∷ codes "b" ∷ [];
}

abbrev friends : Group
friends = record guests { id = codes "3"; name = codes "friends"; sso_sync = false }

abbrev groups : List Group
groups = staff ∷ guests ∷ friends ∷ []

groups-IsListed : All IsListed groups
unfolding is_unique text_eq
groups-IsListed = (refl, (refl, (refl, tt)))

sync_sso_groups-is_granted_example :
    map
      (λ (g : Group). is_in (codes "a") g.members)
      (sync_sso_groups (codes "a") (codes "staff" ∷ []) groups)
    ≡ map (is_granted (codes "a") (codes "staff" ∷ [])) groups
sync_sso_groups-is_granted_example =
    sync_sso_groups-is_granted (codes "a") (codes "staff" ∷ []) groups groups-IsListed

joined :
    map
      (λ (g : Group). is_in (codes "a") g.members)
      (sync_sso_groups (codes "a") (codes "staff" ∷ []) groups)
    ≡ true ∷ false ∷ true ∷ []
unfolding sync_sso_groups text_eq
joined = refl
