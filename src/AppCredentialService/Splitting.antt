-- ===== src/AppCredentialService/Splitting.antt =====
-- What _split and scope_set give back of what create_credential puts together.
use mathlib.Core.List.{append_assoc, append-nil}
use mailfallback.Prelude.{
  ℕ, ◌==◌, Bool, true, not, ◌&&◌, ◌||◌, some, List, [], ◌∷◌, ◌++◌, all, keep, ◌≡◌, refl, ◌∙◌, arith,
}
use mailfallback.Prelude.Text.{Text, codes, text_eq, text_eq_sound, starts_with}
use mailfallback.FolderReconcile.{sorted, insert_sorted}
use mailfallback.AppCredentialService.{
  partition, split_on, join_with, split_token, token_marker, is_in, distinct, is_filled,
}

-- No code point of the text is `c`.
abbrev pub lacks : ℕ → Text → Bool
lacks c s = all (λ (x : ℕ). not (x == c)) s

partition-lacks : (c : ℕ) (p s : Text) → lacks c p ≡ true → partition c (p ++ c ∷ s) ≡ (p, s)
unfolding partition
partition-lacks c [] s h = ground arith
partition-lacks c (x ∷ p) s h = ground (arith, partition-lacks c p s)

-- The token that a creation hands out splits into its prefix and secret.
pub split_token-marker :
    (prefix secret : Text)
    → lacks b'_' prefix ≡ true
    → is_filled prefix ≡ true
    → is_filled secret ≡ true
    → split_token (token_marker ++ prefix ++ b'_' ∷ secret) ≡ some (prefix, secret)
unfolding split_token starts_with
split_token-marker prefix secret h fp fs = ground (arith, partition-lacks b'_' prefix secret h)

pub split_on-lacks :
    (c : ℕ) (word x s : Text)
    → lacks c x ≡ true
    → split_on c word (x ++ c ∷ s) ≡ (word ++ x) ∷ split_on c [] s
unfolding split_on
split_on-lacks c word [] s h = ground (arith, append-nil word)
split_on-lacks c word (y ∷ x) s h =
    ground (arith, split_on-lacks c (word ++ y ∷ []) x s, append_assoc word (y ∷ []) x)

pub split_on-one : (c : ℕ) (word x : Text) → lacks c x ≡ true → split_on c word x ≡ (word ++ x) ∷ []
unfolding split_on
split_on-one c word [] h = ground (arith, append-nil word)
split_on-one c word (y ∷ x) h =
    ground (arith, split_on-one c (word ++ y ∷ []) x, append_assoc word (y ∷ []) x)

-- A scope: not empty, and without a comma.
abbrev pub is_plain : Text → Bool
is_plain s = lacks b',' s && is_filled s

split_on-join_with :
    (x : Text) (xs : List Text)
    → all is_plain (x ∷ xs) ≡ true
    → split_on b',' [] (join_with (codes ",") (x ∷ xs)) ≡ x ∷ xs
unfolding join_with
split_on-join_with x [] h = split_on-one b',' [] x (ground arith)
split_on-join_with x (y ∷ xs) h =
    ground
      (arith, split_on-lacks b',' [] x (join_with (codes ",") (y ∷ xs)), split_on-join_with y xs)

keep-is_filled : (xs : List Text) → all is_plain xs ≡ true → keep is_filled xs ≡ xs
keep-is_filled [] h = refl
keep-is_filled (x ∷ xs) h = ground (arith, keep-is_filled xs)

is_in-insert_sorted :
    (s x : Text) (xs : List Text) → is_in s (insert_sorted x xs) ≡ (text_eq s x || is_in s xs)
unfolding insert_sorted is_in
is_in-insert_sorted s x [] = refl
is_in-insert_sorted s x (y ∷ ys) = ground (arith, is_in-insert_sorted s x ys)

is_in-sorted : (s : Text) (xs : List Text) → is_in s (sorted xs) ≡ is_in s xs
unfolding sorted is_in
is_in-sorted s [] = refl
is_in-sorted s (x ∷ xs) = ground (arith, is_in-insert_sorted s x (sorted xs), is_in-sorted s xs)

is_in-distinct : (s : Text) (xs : List Text) → is_in s (distinct xs) ≡ is_in s xs
unfolding distinct is_in
is_in-distinct s [] = refl
is_in-distinct s (x ∷ xs) = ground (arith, is_in-distinct s xs, text_eq_sound s x)

all-insert_sorted :
    (p : Text → Bool) (x : Text) (xs : List Text) → all p (insert_sorted x xs) ≡ (p x && all p xs)
unfolding insert_sorted
all-insert_sorted p x [] = refl
all-insert_sorted p x (y ∷ ys) = ground (arith, all-insert_sorted p x ys)

all-sorted : (p : Text → Bool) (xs : List Text) → all p (sorted xs) ≡ all p xs
unfolding sorted
all-sorted p [] = refl
all-sorted p (x ∷ xs) = ground (arith, all-insert_sorted p x (sorted xs), all-sorted p xs)

all-distinct : (p : Text → Bool) (xs : List Text) → all p xs ≡ true → all p (distinct xs) ≡ true
unfolding distinct
all-distinct p [] h = refl
all-distinct p (x ∷ xs) h = ground (arith, all-distinct p xs)

split_of_join :
    (s : Text) (xs : List Text)
    → all is_plain xs ≡ true
    → is_in s (keep is_filled (split_on b',' [] (join_with (codes ",") xs))) ≡ is_in s xs
unfolding join_with split_on is_in
split_of_join s [] h = refl
split_of_join s (x ∷ xs) h = rw (split_on-join_with x xs h, keep-is_filled (x ∷ xs) h) refl

-- The scopes that a row gives back are those that it was made with.
pub scopes_kept :
    (s : Text) (xs : List Text)
    → all is_plain xs ≡ true
    → is_in s (keep is_filled (split_on b',' [] (join_with (codes ",") (sorted (distinct xs)))))
      ≡ is_in s xs
scopes_kept s xs h =
    split_of_join s (sorted (distinct xs))
      (all-sorted is_plain (distinct xs) ∙ all-distinct is_plain xs h)
    ∙ is_in-sorted s (distinct xs)
    ∙ is_in-distinct s xs
