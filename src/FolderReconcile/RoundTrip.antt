-- ===== src/FolderReconcile/RoundTrip.antt =====
-- The name that a quarantined folder had is read back from the quarantine's own name for it.
use mailfallback.Prelude.{
  ℕ, ◌≤◌, ◌<◌, Bool, true, false, not, ◌||◌, none, some, List, [], ◌∷◌, ◌++◌, all, any, ◌↔◌, length,
  ◌==◌, if◌then◌else◌, ◌≡◌, ◌≢◌, refl, arith,
}
use mailfallback.Prelude.Text.{Text, replace_char, starts_with}
use mailfallback.FolderReconcile.{
  Minute, stamp, leaf_of, quarantine_name, eat, is_stamped, longest_name, original_folder_name,
  prefix, stamp_tests, digit_of, is_digit,
}

-- A match of n tests takes n characters.
length-eat : (tests : List (ℕ → Bool)) (s : Text) → length s < length tests → eat tests s ≡ none
unfolding eat
length-eat [] s h = absurd (omega (arith, h))
length-eat (p ∷ ps) [] h = refl
length-eat (p ∷ ps) (c ∷ s) h = ground (arith, length-eat ps s)

short_unstamped : (s : Text) → length s < 18 → is_stamped s ≡ false
unfolding is_stamped
short_unstamped s h = rw (length-eat stamp_tests s h) refl

-- Nothing that starts after the first character of a stamp is one.
short_unnamed : (s : Text) → length s ≤ 18 → longest_name s ≡ none
unfolding longest_name
short_unnamed [] h = refl
short_unnamed (c ∷ s) h = ground (arith, short_unnamed s, short_unstamped s)

digit_lem : (n : ℕ) → is_digit (digit_of n) ≡ true
unfolding is_digit digit_of
digit_lem n = ground arith

stamp-is_stamped : (when : Minute) → is_stamped (stamp when) ≡ true
unfolding is_stamped eat
stamp-is_stamped when = simp (digit_lem) refl

unfoldable pub one_line : Text → Bool
one_line name = all (λ (c : ℕ). not (c == 10)) name

named :
    (c : ℕ) (name : Text) (when : Minute)
    → one_line (c ∷ name) ≡ true
    → longest_name (c ∷ name ++ stamp when) ≡ some (c ∷ name)
unfolding longest_name one_line
named c [] when h = ground (arith, short_unnamed (stamp when), stamp-is_stamped when)
named c (d ∷ name) when h = ground (arith, named d name when)

in_container :
    (name : Text) (c : ℕ) (s : Text)
    → longest_name name ≡ some (c ∷ s)
    → original_folder_name (prefix ++ name) ≡ c ∷ s
unfolding original_folder_name starts_with
in_container name c s h = rw h refl

-- What the two replacements make of a character.
abbrev slash_folded : ℕ → ℕ
slash_folded c = if c == b'/' then b'-' else c

abbrev folded : ℕ → ℕ
folded c = if slash_folded c == b':' then b'-' else slash_folded c

leaf_one_line : (s : Text) → one_line s ≡ true → one_line (leaf_of s) ≡ true
unfolding one_line replace_char
leaf_one_line [] h = refl
leaf_one_line (c ∷ s) h = ground (arith, leaf_one_line s)

-- For a folder whose name has at least one character and no newline, and for every minute: the
-- name that is read back from its name in the container is its own with "/" and ":" folded to "-".
pub original_folder_name-quarantine_name :
    (folder : Text) (when : Minute)
    → folder ≢ []
    → one_line folder ≡ true
    → original_folder_name (prefix ++ quarantine_name folder when) ≡ leaf_of folder
unfolding quarantine_name replace_char
original_folder_name-quarantine_name [] when some_name h = absurd (some_name refl)
original_folder_name-quarantine_name (c ∷ s) when some_name h =
    in_container (folded c ∷ leaf_of s ++ stamp when) (folded c) (leaf_of s)
      (named (folded c) (leaf_of s) when (leaf_one_line (c ∷ s) h))

-- A separator that the quarantine folds.
abbrev pub is_folded : ℕ → Bool
is_folded c = c == b'/' || c == b':'

leaf_same : (s : Text) → (leaf_of s ≡ s) ↔ (any is_folded s ≡ false)
unfolding replace_char
leaf_same [] = (λ e. refl, λ e. refl)
leaf_same (c ∷ s) = ground (arith, leaf_same s)

-- For a folder whose name has at least one character and no newline, the name that is read back
-- from its name in the container is the one that it had at the Source exactly when that has no "/"
-- and no ":": a nested folder is not given its name back.
pub original_folder_name_iff :
    (folder : Text) (when : Minute)
    → folder ≢ []
    → one_line folder ≡ true
    → (original_folder_name (prefix ++ quarantine_name folder when) ≡ folder)
      ↔ (any is_folded folder ≡ false)
original_folder_name_iff folder when some_name h =
    rw (original_folder_name-quarantine_name folder when some_name h) (leaf_same folder)
