-- ===== src/Regex.antt =====
-- Python's `re`, as far as the modelled code uses it: sequences of single-character classes, each
-- once or any number of times (greedy, with backtracking), capture groups that are not nested,
-- `$`, alternatives at the top, and IGNORECASE. `\d` and `\w` are ASCII.
pub mod Literal
use mathlib.Core.List.{reverse}
use mailfallback.Prelude.{
  ℕ, ◌+◌, Bool, true, false, not, ◌&&◌, ◌||◌, Option, none, some, List, [], ◌∷◌, ◌++◌, ◌==◌, leb,
  if◌then◌else◌,
}
use mailfallback.Prelude.Text.{Text, is_space}

pub data Item : Type 0 where
  -- one character of a class
  one : (ℕ → Bool) → Item
  -- `*`, as many as fit and then fewer
  many : (ℕ → Bool) → Item
  -- `(` and `)` of a group
  open_group : Item
  close_group : Item
  -- `$`: the end, or a newline at the end
  at_end : Item

abbrev pub Pattern : Type 0
Pattern = List Item

abbrev pub extend : ℕ → Option Text → Option Text
extend c none = none
extend c (some s) = some (c ∷ s)

abbrev pub close : Option Text → List Text → List Text
close none groups = groups
close (some s) groups = reverse s ∷ groups

abbrev pub or_else {ℓ} : {A : Type ℓ} → Option A → Option A → Option A
or_else none b = b
or_else (some a) b = some a

abbrev is_end : Text → Bool
is_end [] = true
is_end (c ∷ []) = c == 10
is_end _ = false

-- The match at the head of the text, with the groups; the group being read and the groups that
-- are closed are carried in reverse.
unfoldable pub match_at : Pattern → Text → Option Text → List Text → Option (List Text)
match_at [] s group groups = some (reverse groups)
match_at (one k ∷ p) [] group groups = none
match_at (one k ∷ p) (c ∷ s) group groups = elim (k c) [
  | true ↦ match_at p s (extend c group) groups
  | false ↦ none
]
match_at (many k ∷ p) [] group groups = match_at p [] group groups
match_at (many k ∷ p) (c ∷ s) group groups = elim (k c) [
  | true ↦ elim (match_at (many k ∷ p) s (extend c group) groups) [
    | some r ↦ some r
    | none ↦ match_at p (c ∷ s) group groups
  ]
  | false ↦ match_at p (c ∷ s) group groups
]
match_at (open_group ∷ p) s group groups = match_at p s (some []) groups
match_at (close_group ∷ p) s group groups = match_at p s none (close group groups)
match_at (at_end ∷ p) s group groups = elim (is_end s) [
  | true ↦ match_at p s group groups
  | false ↦ none
]

-- `re.match`: the first alternative that matches at the head.
unfoldable pub match_first : List Pattern → Text → Option (List Text)
unfolding match_at
match_first [] s = none
match_first (p ∷ ps) s = elim (match_at p s none []) [ some r ↦ some r | none ↦ match_first ps s ]

-- `re.search`: the leftmost place where an alternative matches.
unfoldable pub search_first : List Pattern → Text → Option (List Text)
unfolding match_first
search_first ps [] = match_first ps []
search_first ps (c ∷ s) = elim (match_first ps (c ∷ s)) [
  | some r ↦ some r
  | none ↦ search_first ps s
]

-- The classes.
abbrev pub digit : ℕ → Bool
digit c = leb 48 c && leb c 57

abbrev pub word : ℕ → Bool
word c = digit c || leb b'a' c && leb c b'z' || leb b'A' c && leb c b'Z' || c == b'_'

abbrev pub non_space : ℕ → Bool
non_space c = not (is_space c)

-- `.`
abbrev pub not_newline : ℕ → Bool
not_newline c = not (c == 10)

abbrev pub colon_or_space : ℕ → Bool
colon_or_space c = c == b':' || is_space c

-- `k+`
abbrev pub some_of : (ℕ → Bool) → Pattern → Pattern
some_of k p = one k ∷ many k ∷ p

-- A literal text before the rest of a pattern.
unfoldable pub literal : Text → Pattern → Pattern
literal [] p = p
literal (c ∷ s) p = one (λ x. x == c) ∷ literal s p

-- Case folding under IGNORECASE, exact where it meets ASCII.
unfoldable pub fold_case : ℕ → ℕ
fold_case c =
    if leb b'A' c && leb c b'Z'
    then c + 32
    else if c == 0x130 || c == 0x131
    then b'i'
    else if c == 0x17F
    then b's'
    else if c == 0x212A
    then b'k'
    else c

unfoldable pub literal_i : Text → Pattern → Pattern
unfolding fold_case
literal_i [] p = p
literal_i (c ∷ s) p = one (λ x. fold_case x == fold_case c) ∷ literal_i s p
