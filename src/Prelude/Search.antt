-- ===== src/Prelude/Search.antt =====
-- Where one text stands in another.
use mathlib.Core.List.{append_assoc}
use mathlib.Core.Path.{◌≡◌, refl, ap}
use mathlib.Core.Logic.{inl, inr}
use mathlib.Core.Bool.{true, ◌||◌}
use mathlib.Core.List.{[], ◌∷◌, ◌++◌}
use Prim.Native.Nat.{ℕ}
use native.Mathlib.Omega.{arith}
use mailfallback.Prelude.Tests.{Bool-cases}
use mailfallback.Prelude.Text.{Text, starts_with, contains, lower}

starts_with-append_self : (p b : Text) → starts_with (p ++ b) p ≡ true
unfolding starts_with
starts_with-append_self [] [] = refl
starts_with-append_self [] (c ∷ b) = refl
starts_with-append_self (c ∷ p) b = ground (arith, starts_with-append_self p b)

starts_with-append : (s b p : Text) → starts_with s p ≡ true → starts_with (s ++ b) p ≡ true
unfolding starts_with
starts_with-append [] [] [] h = refl
starts_with-append [] (c ∷ b) [] h = refl
starts_with-append [] b (q ∷ p) h = cc
starts_with-append (c ∷ s) b [] h = refl
starts_with-append (c ∷ s) b (q ∷ p) h = ground (arith, starts_with-append s b p)

contains-cons : (c : ℕ) (s p : Text) → contains (c ∷ s) p ≡ (starts_with (c ∷ s) p || contains s p)
unfolding contains
contains-cons c s p = refl

contains-nil : (p : Text) → contains [] p ≡ starts_with [] p
unfolding contains
contains-nil p = refl

contains_of_starts_with : (s p : Text) → starts_with s p ≡ true → contains s p ≡ true
contains_of_starts_with [] p h = rw contains-nil h
contains_of_starts_with (c ∷ s) p h = ground (arith, contains-cons c s p)

-- A text is found wherever it stands.
pub contains-prepend : (a s p : Text) → contains s p ≡ true → contains (a ++ s) p ≡ true
contains-prepend [] s p h = h
contains-prepend (c ∷ a) s p h =
    ground (arith, contains-cons c (a ++ s) p, contains-prepend a s p h)

pub contains-append : (s b p : Text) → contains s p ≡ true → contains (s ++ b) p ≡ true
contains-append [] b p h =
    contains_of_starts_with b p (starts_with-append [] b p (rw contains-nil at h))
contains-append (c ∷ s) b p h = ground (
  arith,
  contains-cons c s p,
  contains-cons c (s ++ b) p,
  contains-append s b p,
  starts_with-append (c ∷ s) b p,
)

pub contains_of_occurs : (a p b : Text) → contains (a ++ (p ++ b)) p ≡ true
contains_of_occurs a p b =
    contains-prepend a (p ++ b) p (contains_of_starts_with (p ++ b) p (starts_with-append_self p b))

starts_with_occurs : (s p : Text) → starts_with s p ≡ true → (b : Text) × (s ≡ p ++ b)
unfolding starts_with
starts_with_occurs s [] h = (s, refl)
starts_with_occurs [] (q ∷ p) h = cc
starts_with_occurs (c ∷ s) (q ∷ p) h =
    let (b, e) = starts_with_occurs s p (ground arith) in let same : c ≡ q = ground arith in (b, cc)

-- `contains` finds nothing else.
pub occurs_of_contains :
    (s p : Text) → contains s p ≡ true → (a : Text) × (b : Text) × (s ≡ a ++ (p ++ b))
occurs_of_contains [] p h =
    let (b, e) = starts_with_occurs [] p (rw contains-nil at h) in ([], b, e)
occurs_of_contains (c ∷ s) p h = elim (Bool-cases (starts_with (c ∷ s) p)) [
  | inl here ↦ let (b, e) = starts_with_occurs (c ∷ s) p here in ([], b, e)
  | inr later ↦
      let (a, b, e) = occurs_of_contains s p (ground (arith, contains-cons c s p)) in
      (c ∷ a, b, ap (λ (t : Text). c ∷ t) e)
]

pub lower-append : (s t : Text) → lower (s ++ t) ≡ lower s ++ lower t
unfolding lower
lower-append [] t = refl
lower-append (c ∷ s) t = rw (lower-append s t, append_assoc)
