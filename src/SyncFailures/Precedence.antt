-- ===== src/SyncFailures/Precedence.antt =====
-- What classify_failure of sync_failures.py answers.

use mailfallback.Prelude.{
  ℕ, ◌≤◌, Bool, true, Option, none, some, List, [], ◌∷◌, ◌++◌, any, ◌≡◌, refl, arith, Bool-cases,
  inl, inr, if◌then◌else◌,
}
use mailfallback.Prelude.Text.{Text, codes, starts_with, lower}
use mailfallback.Prelude.Search.{contains-prepend, contains-append, lower-append}
use mailfallback.SyncFailures.{
  Failure, throttled, transient, matches, throttle_signatures, generic_throttle,
  transient_signatures, classify_failure,
}

-- More of the log cannot hide a signature.
matches-context :
    (a s b signature : Text) → matches s signature ≡ true → matches (a ++ (s ++ b)) signature ≡ true
unfolding matches
matches-context a s b signature h = elim (Bool-cases (starts_with signature (codes "["))) [
  | inl code ↦ ground (arith, contains-prepend a (s ++ b) signature, contains-append s b signature)
  | inr prose ↦ ground (
    arith,
    lower-append a (s ++ b),
    lower-append s b,
    contains-prepend (lower a) (lower s ++ lower b) (lower signature),
    contains-append (lower s) (lower b) (lower signature),
  )
]

any_mono :
    (s t : Text) (signatures : List Text)
    → ((g : Text) → matches s g ≡ true → matches t g ≡ true)
    → any (matches s) signatures ≡ true
    → any (matches t) signatures ≡ true
any_mono s t [] k h = cc
any_mono s t (g ∷ signatures) k h =
    ground (arith, k g, λ (x : any (matches s) signatures ≡ true). any_mono s t signatures k x)

abbrev pub rank : Option Failure → ℕ
rank none = 0
rank (some transient) = 1
rank (some throttled) = 2

-- What a longer tail matches decides the comparison, if it is not empty.
rank_mono :
    (s : Text) (c : ℕ) (t provider : Text)
    → ((g : Text) → matches s g ≡ true → matches (c ∷ t) g ≡ true)
    → rank (classify_failure s provider) ≤ rank (classify_failure (c ∷ t) provider)
unfolding classify_failure
rank_mono [] c t provider k = omega arith
rank_mono (d ∷ s) c t provider k =
    decide (any_mono (d ∷ s) (c ∷ t) (throttle_signatures provider ++ generic_throttle) k)
      (any_mono (d ∷ s) (c ∷ t) transient_signatures k)
  where
    decide :
        {x y x' y' : Bool}
        → (x ≡ true → x' ≡ true)
        → (y ≡ true → y' ≡ true)
        → rank (if x then some throttled else if y then some transient else none)
          ≤ rank (if x' then some throttled else if y' then some transient else none)
    decide h k = ground arith

-- Seen in a longer stretch of the log, a failure is never demoted: a throttle stays a throttle,
-- and a transient failure stays one or becomes a throttle.
pub classify_failure-context :
    (a s b provider : Text)
    → rank (classify_failure s provider) ≤ rank (classify_failure (a ++ (s ++ b)) provider)
classify_failure-context [] [] b provider = unfold classify_failure in omega arith
classify_failure-context [] (d ∷ s) b provider =
    rank_mono (d ∷ s) d (s ++ b) provider (matches-context [] (d ∷ s) b)
classify_failure-context (x ∷ a) s b provider =
    rank_mono s x (a ++ (s ++ b)) provider (matches-context (x ∷ a) s b)

any-prepend {ℓ} :
    {A : Type ℓ} (p : A → Bool) (xs ys : List A) → any p ys ≡ true → any p (xs ++ ys) ≡ true
any-prepend p [] ys h = h
any-prepend p (x ∷ xs) ys h = ground (arith, any-prepend p xs ys h)

throttled_of_generic :
    (c : ℕ) (s provider : Text)
    → any (matches (c ∷ s)) generic_throttle ≡ true
    → classify_failure (c ∷ s) provider ≡ some throttled
unfolding classify_failure
throttled_of_generic c s provider h =
    rw (any-prepend (matches (c ∷ s)) (throttle_signatures provider) generic_throttle h)

still_throttled : (f g : Option Failure) → f ≡ some throttled → rank f ≤ rank g → g ≡ some throttled
still_throttled f g e h = ground arith

-- A bracketed throttle code anywhere in the tail is a throttle for every provider, known or not,
-- whatever else the tail holds.
pub classify_failure_bracketed :
    (a b provider : Text)
    → (classify_failure (a ++ (codes "[OVERQUOTA]" ++ b)) provider ≡ some throttled)
      × (classify_failure (a ++ (codes "[THROTTLED]" ++ b)) provider ≡ some throttled)
unfolding matches
classify_failure_bracketed a b provider = (
  still_throttled (classify_failure (codes "[OVERQUOTA]") provider) _
      (throttled_of_generic b'[' (codes "OVERQUOTA]") provider refl)
      (classify_failure-context a (codes "[OVERQUOTA]") b provider),
  still_throttled (classify_failure (codes "[THROTTLED]") provider) _
      (throttled_of_generic b'[' (codes "THROTTLED]") provider refl)
      (classify_failure-context a (codes "[THROTTLED]") b provider),
)
