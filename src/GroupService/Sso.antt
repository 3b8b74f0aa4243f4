-- ===== src/GroupService/Sso.antt =====
-- The memberships that a sign-in through the directory leaves.
use mailfallback.Prelude.{
  Bool, true, false, not, ◌&&◌, List, [], ◌∷◌, ◌++◌, All, map, ◌≡◌, sym, refl, arith, if◌then◌else◌,
}
use mailfallback.Prelude.Text.{Text, text_eq, text_eq_refl, text_eq_sound}
use mailfallback.GroupService.{
  Group, is_in, append_member, drop_member, remove_first, sync_member, sync_sso_groups,
}

-- No user is a member of the group twice.
unfoldable pub is_unique : List Text → Bool
is_unique [] = true
is_unique (x ∷ xs) = not (is_in x xs) && is_unique xs

-- Whether the user belongs to the group after the sign-in.
abbrev pub is_granted : Text → List Text → Group → Bool
is_granted user_id names g = if g.sso_sync then is_in g.name names else is_in user_id g.members

is_in-append : (x : Text) (xs : List Text) → is_in x (xs ++ x ∷ []) ≡ true
is_in-append x [] = ground (arith, text_eq_refl x)
is_in-append x (y ∷ ys) = ground (arith, is_in-append x ys)

same_absent :
    (x y : Text) (xs : List Text) → text_eq x y ≡ true → is_in y xs ≡ false → is_in x xs ≡ false
same_absent x y xs same absent = rw (text_eq_sound x y same) absent

is_in-remove_first :
    (x : Text) (xs : List Text) → is_unique xs ≡ true → is_in x (remove_first x xs) ≡ false
unfolding remove_first is_unique
is_in-remove_first x [] h = refl
is_in-remove_first x (y ∷ ys) h = ground (arith, h, same_absent x y ys, is_in-remove_first x ys)

sync_member-granted :
    (user_id : Text) (names : List Text) (g : Group)
    → is_unique g.members ≡ true
    → is_in user_id (sync_member user_id names g).members ≡ is_in g.name names
unfolding sync_member append_member drop_member
sync_member-granted user_id names g h =
    ground (arith, is_in-append user_id g.members, is_in-remove_first user_id g.members h)

text_eq_sym : (s t : Text) → text_eq s t ≡ text_eq t s
unfolding text_eq
text_eq_sym [] [] = refl
text_eq_sym [] (y ∷ t) = refl
text_eq_sym (x ∷ s) [] = refl
text_eq_sym (x ∷ s) (y ∷ t) = ground (arith, text_eq_sym s t)

is_in_other :
    (v x : Text) (xs : List Text) → text_eq v x ≡ false → is_in v (xs ++ x ∷ []) ≡ is_in v xs
is_in_other v x [] other = ground (arith, other)
is_in_other v x (y ∷ ys) other = ground (arith, is_in_other v x ys other)

other_same : (v x y : Text) → text_eq v x ≡ false → text_eq x y ≡ true → text_eq v y ≡ false
other_same v x y other same = rw (sym (text_eq_sound x y same)) other

remove_other :
    (v x : Text) (xs : List Text) → text_eq v x ≡ false → is_in v (remove_first x xs) ≡ is_in v xs
unfolding remove_first
remove_other v x [] other = refl
remove_other v x (y ∷ ys) other =
    ground (arith, other, other_same v x y other, remove_other v x ys other)

is_unique-append :
    (x : Text) (xs : List Text)
    → is_unique xs ≡ true
    → is_in x xs ≡ false
    → is_unique (xs ++ x ∷ []) ≡ true
unfolding is_unique
is_unique-append x [] h absent = refl
is_unique-append x (y ∷ ys) h absent =
    ground (arith, h, absent, text_eq_sym x y, is_in_other y x ys, is_unique-append x ys)

remove_absent :
    (v x : Text) (xs : List Text) → is_in v xs ≡ false → is_in v (remove_first x xs) ≡ false
unfolding remove_first
remove_absent v x [] absent = refl
remove_absent v x (y ∷ ys) absent = ground (arith, absent, remove_absent v x ys)

is_unique-remove_first :
    (x : Text) (xs : List Text) → is_unique xs ≡ true → is_unique (remove_first x xs) ≡ true
unfolding is_unique remove_first
is_unique-remove_first x [] h = refl
is_unique-remove_first x (y ∷ ys) h =
    ground (arith, h, remove_absent y x ys, is_unique-remove_first x ys)

sync_member-is_unique :
    (user_id : Text) (names : List Text) (g : Group)
    → is_unique g.members ≡ true
    → is_unique (sync_member user_id names g).members ≡ true
unfolding sync_member append_member drop_member
sync_member-is_unique user_id names g h =
    ground
      (arith, h, is_unique-append user_id g.members h, is_unique-remove_first user_id g.members h)

sync_member_other :
    (v user_id : Text) (names : List Text) (g : Group)
    → text_eq v user_id ≡ false
    → is_in v (sync_member user_id names g).members ≡ is_in v g.members
unfolding sync_member append_member drop_member
sync_member_other v user_id names g other =
    ground (arith, is_in_other v user_id g.members other, remove_other v user_id g.members other)

abbrev pub IsListed : Group → Type 0
IsListed g = is_unique g.members ≡ true

-- In a table where no user is a member of a group twice, a sign-in leaves the user in exactly those
-- groups of the directory whose names it lists, and in the same local groups as before.
pub sync_sso_groups-is_granted :
    (user_id : Text) (names : List Text) (groups : List Group)
    → All IsListed groups
    → map (λ (g : Group). is_in user_id g.members) (sync_sso_groups user_id names groups)
      ≡ map (is_granted user_id names) groups
unfolding sync_sso_groups
sync_sso_groups-is_granted user_id names [] h = refl
sync_sso_groups-is_granted user_id names (g ∷ groups) h = ground (
  arith,
  sync_member-granted user_id names g h.0,
  sync_sso_groups-is_granted user_id names groups h.1,
)

-- Nobody else's memberships change in a sign-in.
pub sync_sso_groups_other :
    (v user_id : Text) (names : List Text) (groups : List Group)
    → text_eq v user_id ≡ false
    → map (λ (g : Group). is_in v g.members) (sync_sso_groups user_id names groups)
      ≡ map (λ (g : Group). is_in v g.members) groups
unfolding sync_sso_groups
sync_sso_groups_other v user_id names [] other = refl
sync_sso_groups_other v user_id names (g ∷ groups) other = ground (
  arith,
  sync_member_other v user_id names g other,
  sync_sso_groups_other v user_id names groups other,
)

-- If no user is a member of a group twice, that is still so after a sign-in.
pub sync_sso_groups-IsListed :
    (user_id : Text) (names : List Text) (groups : List Group)
    → All IsListed groups
    → All IsListed (sync_sso_groups user_id names groups)
unfolding sync_sso_groups
sync_sso_groups-IsListed user_id names [] h = h
sync_sso_groups-IsListed user_id names (g ∷ groups) h = (
  ground (arith, h.0, sync_member-is_unique user_id names g h.0),
  sync_sso_groups-IsListed user_id names groups h.1,
)
