-- ===== src/MbsyncConfig/Lines.antt =====
-- No part of a generated configuration has a line feed of its own.
pub mod Keywords
use mathlib.Core.List.{reverse, reverse-cons}
use mailfallback.Prelude.{
  ℕ, zero, suc, ◌+◌, ◌/◌, ◌%◌, ◌==◌, ltb, leb, Bool, true, false, not, ◌&&◌, ◌||◌, Option, none,
  some, List, [], ◌∷◌, ◌++◌, all, any, keep, if◌then◌else◌, is_some, ◌≡◌, refl, ◌∙◌, arith,
  Bool-cases, Option-cases, inl, inr,
}
use mailfallback.Prelude.Text.{
  Text, codes, decimal, decimal_digits, is_space, join_lines, lower, lower_char, lstrip,
  replace_char, rstrip, starts_with, strip,
}
use mailfallback.AppCredentialService.{split_on}
use mailfallback.AppCredentialService.Splitting.{lacks, split_on-lacks, split_on-one}
use mailfallback.FolderReconcile.{removed_container}
use mailfallback.Models.{AuthType, truthy}
use mailfallback.MbsyncConfig.{
  MbsyncOptions, account_lines, auth_lines, channel_lines, channel_name, config_lines,
  generate_mbsyncrc, get_extra, is_password, namespace_line, option_line, or_default, patterns_of,
  quoted, sanitize_value, store_lines, when,
}
use mailfallback.StoreService.Paths.{drop_slashes, rstrip_slash}

pub all-append :
    {A : Type 0} (p : A → Bool) (xs ys : List A) → all p (xs ++ ys) ≡ (all p xs && all p ys)
all-append p [] ys = refl
all-append p (x ∷ xs) ys = ground (arith, all-append p xs ys)

all-reverse : (p : ℕ → Bool) (s : Text) → all p (reverse s) ≡ all p s
all-reverse p [] = refl
all-reverse p (c ∷ s) =
    ground (arith, reverse-cons c s, all-append p (reverse s) (c ∷ []), all-reverse p s)

lacks-lstrip : (s : Text) → lacks 10 s ≡ true → lacks 10 (lstrip s) ≡ true
unfolding lstrip
lacks-lstrip [] h = refl
lacks-lstrip (c ∷ s) h = ground (arith, lacks-lstrip s)

lacks-drop_slashes : (s : Text) → lacks 10 s ≡ true → lacks 10 (drop_slashes s) ≡ true
unfolding drop_slashes
lacks-drop_slashes [] h = refl
lacks-drop_slashes (c ∷ s) h = ground (arith, lacks-drop_slashes s)

abbrev no_break : ℕ → Bool
no_break x = not (x == 10)

pub lacks-rstrip_slash : (s : Text) → lacks 10 s ≡ true → lacks 10 (rstrip_slash s) ≡ true
unfolding rstrip_slash
lacks-rstrip_slash s h =
    all-reverse no_break (drop_slashes (reverse s))
    ∙ lacks-drop_slashes (reverse s) (all-reverse no_break s ∙ h)

lacks-strip : (s : Text) → lacks 10 s ≡ true → lacks 10 (strip s) ≡ true
unfolding strip rstrip
lacks-strip s h =
    all-reverse no_break (lstrip (reverse (lstrip s)))
    ∙ lacks-lstrip (reverse (lstrip s)) (all-reverse no_break (lstrip s) ∙ lacks-lstrip s h)

lacks-keep : (s : Text) → lacks 10 (keep (λ (c : ℕ). not (ltb c 0x20)) s) ≡ true
lacks-keep [] = refl
lacks-keep (c ∷ s) = ground (arith, lacks-keep s)

pub lacks-sanitize_value : (s : Text) → lacks 10 (sanitize_value s) ≡ true
unfolding sanitize_value
lacks-sanitize_value s = lacks-strip (keep (λ (c : ℕ). not (ltb c 0x20)) s) (lacks-keep s)

lacks-lower_char : (c : ℕ) → no_break c ≡ true → lacks 10 (lower_char c) ≡ true
unfolding lower_char
lacks-lower_char c h = ground arith

lacks-lower : (s : Text) → lacks 10 s ≡ true → lacks 10 (lower s) ≡ true
unfolding lower
lacks-lower [] h = refl
lacks-lower (c ∷ s) h =
    ground (arith, all-append no_break (lower_char c) (lower s), lacks-lower_char c, lacks-lower s)

lacks-replace_char : (s : Text) → lacks 10 s ≡ true → lacks 10 (replace_char b' ' b'_' s) ≡ true
unfolding replace_char
lacks-replace_char [] h = refl
lacks-replace_char (c ∷ s) h = ground (arith, lacks-replace_char s)

pub lacks-channel_name : (s : Text) → lacks 10 (channel_name s) ≡ true
unfolding channel_name
lacks-channel_name s =
    lacks-replace_char (lower (sanitize_value s))
      (lacks-lower (sanitize_value s) (lacks-sanitize_value s))

lacks-decimal_digits : (fuel n : ℕ) → lacks 10 (decimal_digits fuel n) ≡ true
unfolding decimal_digits
lacks-decimal_digits zero n = refl
lacks-decimal_digits (suc fuel) n = ground (
  arith,
  lacks-decimal_digits fuel (n / 10),
  all-append no_break (decimal_digits fuel (n / 10)) ((48 + n % 10) ∷ []),
)

pub lacks-get_extra :
    (key : Text) (items : List (Text × Text)) (default : Text)
    → lacks 10 default ≡ true
    → lacks 10 (or_default default (get_extra key items)) ≡ true
unfolding get_extra
lacks-get_extra key [] default h = h
lacks-get_extra key ((k, value) ∷ items) default h =
    ground (arith, lacks-sanitize_value value, lacks-get_extra key items default h)

pub lacks-decimal : (n : ℕ) → lacks 10 (decimal n) ≡ true
unfolding decimal
lacks-decimal n = lacks-decimal_digits (suc n) n
