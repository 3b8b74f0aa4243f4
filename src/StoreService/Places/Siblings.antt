-- ===== src/StoreService/Places/Siblings.antt =====
-- Two homes of one store lie beside each other.
use mathlib.Core.List.{append-nil, append_assoc}
use mailfallback.Prelude.{
  ℕ, ◌≤◌, Bool, true, false, not, ◌&&◌, List, [], ◌∷◌, ◌++◌, all, length, ◌==◌, ◌≡◌, refl, sym, ap,
  ◌∙◌, arith, Bool-cases, inl, inr,
}
use mailfallback.Prelude.Text.{Text, codes, text_eq, text_eq_refl, text_eq_sound}
use mailfallback.StoreService.Paths.{
  dovecot_home_dir, dovecot_home_dirname, rstrip_slash, sanitize_path_component,
}
use mailfallback.StoreService.Places.{enter, stays, lies_in, place_of, same_place, walk}

walk-slash :
    (place : List Text) (word s t : Text)
    → walk place word (s ++ b'/' ∷ t) ≡ walk (walk place word s) [] t
unfolding walk
walk-slash place word [] t = refl
walk-slash place word (c ∷ s) t = elim (Bool-cases (c == b'/')) [
  | inl e ↦ rw (e, walk) (walk-slash (enter word place) [] s t)
  | inr e ↦ rw (e, walk) (walk-slash place (word ++ c ∷ []) s t)
]

abbrev no_slash : Text → Bool
no_slash s = all (λ (c : ℕ). not (c == b'/')) s

walk-word :
    (place : List Text) (word s : Text)
    → no_slash s ≡ true
    → walk place word s ≡ enter (word ++ s) place
unfolding walk
walk-word place word [] h = ap (λ (w : Text). enter w place) (sym (append-nil word))
walk-word place word (c ∷ s) h =
    ground (arith, h, walk-word place (word ++ c ∷ []) s, append_assoc word (c ∷ []) s)

no_slash-sanitize_path_component : (name : Text) → no_slash (sanitize_path_component name) ≡ true
unfolding sanitize_path_component
no_slash-sanitize_path_component [] = refl
no_slash-sanitize_path_component (c ∷ name) = ground (arith, no_slash-sanitize_path_component name)

-- A username whose home is a directory of its own name: not empty, and neither `.` nor `..`.
unfoldable pub is_plain : Text → Bool
is_plain username =
    not (stays (sanitize_path_component username))
    && not (text_eq (sanitize_path_component username) (codes ".."))

enter-plain :
    (username : Text) (place : List Text)
    → is_plain username ≡ true
    → enter (sanitize_path_component username) place ≡ sanitize_path_component username ∷ place
unfolding is_plain enter
enter-plain username place plain = ground (arith, plain)

pub homes_of : Text → List Text
homes_of store_path = walk (place_of (rstrip_slash store_path)) [] dovecot_home_dirname

pub place_of-dovecot_home_dir :
    (store_path username : Text)
    → is_plain username ≡ true
    → place_of (dovecot_home_dir store_path username)
      ≡ sanitize_path_component username ∷ homes_of store_path
unfolding homes_of dovecot_home_dir
place_of-dovecot_home_dir store_path username plain =
    let name = sanitize_path_component username in
    ap place_of (append_assoc (rstrip_slash store_path) (b'/' ∷ dovecot_home_dirname) (b'/' ∷ name))
    ∙ (walk-slash [] [] (rstrip_slash store_path) (dovecot_home_dirname ++ b'/' ∷ name)
        ∙ (walk-slash (place_of (rstrip_slash store_path)) [] dovecot_home_dirname name
            ∙ (walk-word (homes_of store_path) [] name (no_slash-sanitize_path_component username)
                ∙ enter-plain username (homes_of store_path) plain)))

same_place_sound : (p q : List Text) → same_place p q ≡ true → p ≡ q
unfolding same_place
same_place_sound [] [] h = refl
same_place_sound [] (y ∷ q) h = cc
same_place_sound (x ∷ p) [] h = cc
same_place_sound (x ∷ p) (y ∷ q) h = ground (arith, text_eq_sound x y, same_place_sound p q)

lies_in-length : (top p : List Text) → lies_in top p ≡ true → length top ≤ length p
unfolding lies_in
lies_in-length top [] h = ground (arith, same_place_sound top [] h)
lies_in-length top (x ∷ p) h = ground (arith, h, same_place_sound top (x ∷ p), lies_in-length top p)

not_below : (x : Text) (top : List Text) → lies_in (x ∷ top) top ≡ false
not_below x top = ground (arith, lies_in-length (x ∷ top) top)

pub siblings :
    (x y : Text) (top p : List Text)
    → text_eq x y ≡ false
    → lies_in (y ∷ top) p ≡ true
    → lies_in (x ∷ top) p ≡ false
unfolding lies_in same_place
siblings x y top [] ne h = cc
siblings x y top (z ∷ p) ne h = ground (
  arith,
  ne,
  h,
  text_eq_sound x z,
  text_eq_sound y z,
  text_eq_refl z,
  same_place_sound top p,
  not_below x top,
  not_below y top,
  siblings x y top p ne,
)
