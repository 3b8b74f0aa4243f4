-- ===== src/StoreService/Nesting.antt =====
-- is_path_available against a description of nested paths.
use mathlib.Core.List.{append_assoc}
use mailfallback.Prelude.{
  ℕ, true, false, some, some-injective, inl, inr, ◌⊎◌, ◌↔◌, List, [], ◌∷◌, ◌++◌, get_elem?, is_some,
  ◌≡◌, refl, ap, arith, Bool-cases, zero, suc,
}
use mailfallback.Prelude.Text.{Text, text_eq, text_eq_sound, starts_with}
use mailfallback.StoreService.{conflict, is_path_available, path_norm}
use mailfallback.StoreService.Paths.{rstrip_slash}

-- The second path is the first, or lies below it: it goes on after a slash.
abbrev pub Within : Text → Text → Type 0
Within p q =
    (rstrip_slash q ≡ rstrip_slash p)
    ⊎ ((rest : Text) × (rstrip_slash q ≡ rstrip_slash p ++ b'/' ∷ rest))

starts_with-slash :
    (p q : Text)
    → (starts_with (q ++ b'/' ∷ []) (p ++ b'/' ∷ []) ≡ true)
    → (q ≡ p) ⊎ ((rest : Text) × (q ≡ p ++ b'/' ∷ rest))
unfolding starts_with
starts_with-slash [] [] h = inl refl
starts_with-slash [] (c ∷ q) h = inr (q, ground arith)
starts_with-slash (c ∷ []) [] h = ground arith
starts_with-slash (c ∷ x ∷ p) [] h = ground arith
starts_with-slash (c ∷ p) (d ∷ q) h =
    let same : d ≡ c = ground arith in
    elim (starts_with-slash p q (ground arith)) [
      | inl e ↦ inl (ground (arith, e, same))
      | inr (rest, e) ↦ inr (rest, ground (arith, e, same))
    ]

starts_with_refl : (s : Text) → starts_with s s ≡ true
unfolding starts_with
starts_with_refl [] = refl
starts_with_refl (c ∷ s) = ground (arith, starts_with_refl s)

starts_with_more : (p rest : Text) → starts_with (p ++ b'/' ∷ rest) (p ++ b'/' ∷ []) ≡ true
unfolding starts_with
starts_with_more [] [] = refl
starts_with_more [] (c ∷ rest) = refl
starts_with_more (c ∷ p) rest = ground (arith, starts_with_more p rest)

equal_starts : (s t : Text) → text_eq s t ≡ true → starts_with s t ≡ true
equal_starts s t e = rw (text_eq_sound s t e) (starts_with_refl t)

impossible : false ≡ true → ⊥
impossible h = ground arith

starts_with-Within :
    (p q : Text)
    → (q ≡ p) ⊎ ((rest : Text) × (q ≡ p ++ b'/' ∷ rest))
    → starts_with (q ++ b'/' ∷ []) (p ++ b'/' ∷ []) ≡ true
starts_with-Within p q (inl e) = rw e (starts_with_refl (p ++ b'/' ∷ []))
starts_with-Within p q (inr (rest, e)) =
    rw (e, append_assoc p (b'/' ∷ rest) (b'/' ∷ [])) (starts_with_more p (rest ++ b'/' ∷ []))

conflict_sound : (c p : Text) → is_some (conflict c p) ≡ true → Within p c ⊎ Within c p
unfolding conflict path_norm
conflict_sound c p h = elim (Bool-cases (starts_with (path_norm c) (path_norm p))) [
  | inl e ↦ inl (starts_with-slash (rstrip_slash p) (rstrip_slash c) e)
  | inr e ↦ elim (Bool-cases (starts_with (path_norm p) (path_norm c))) [
    | inl e' ↦ inr (starts_with-slash (rstrip_slash c) (rstrip_slash p) e')
    | inr e' ↦ elim (Bool-cases (text_eq (path_norm c) (path_norm p))) [
      | inl same ↦ inl (
          starts_with-slash (rstrip_slash p) (rstrip_slash c)
            (equal_starts (path_norm c) (path_norm p) same))
      | inr ne ↦ elim (impossible (ground (arith, e, e', ne, h))) [ ]
    ]
  ]
]

conflict_complete : (c p : Text) → Within p c ⊎ Within c p → is_some (conflict c p) ≡ true
unfolding conflict path_norm
conflict_complete c p (inl w) =
    ground (arith, starts_with-Within (rstrip_slash p) (rstrip_slash c) w)
conflict_complete c p (inr w) =
    ground (arith, starts_with-Within (rstrip_slash c) (rstrip_slash p) w)

refused :
    (candidate : Text) (existing : List Text)
    → is_some (is_path_available candidate existing) ≡ true
    → (k : ℕ) × ((path : Text) × ((get_elem? existing k ≡ some path)
          × (Within path candidate ⊎ Within candidate path)))
unfolding is_path_available
refused candidate [] h = elim (impossible h) [ ]
refused candidate (path ∷ existing) h = elim (Bool-cases (is_some (conflict candidate path))) [
  | inl e ↦ (0, (path, (refl, conflict_sound candidate path e)))
  | inr e ↦
      let (k, (p, (at, w))) = refused candidate existing (ground (arith, e, h)) in
      (suc k, (p, (at, w)))
]

refuses :
    (candidate : Text) (existing : List Text) (k : ℕ) (path : Text)
    → get_elem? existing k ≡ some path
    → Within path candidate ⊎ Within candidate path
    → is_some (is_path_available candidate existing) ≡ true
unfolding is_path_available
refuses candidate [] k path at w = ground arith
refuses candidate (p ∷ existing) zero path at w =
    let same : p ≡ path = some-injective p path at in
    ground (arith, conflict_complete candidate path w, ap (conflict candidate) same)
refuses candidate (p ∷ existing) (suc k) path at w =
    ground (arith, refuses candidate existing k path at w)

-- A candidate is refused exactly when it is a mailbox's path, lies below one, or has one below it,
-- up to the slashes at their ends.
pub is_path_available_iff :
    (candidate : Text) (existing : List Text)
    → (is_some (is_path_available candidate existing) ≡ true) ↔ (
        (k : ℕ) × ((path : Text) × ((get_elem? existing k ≡ some path)
            × (Within path candidate ⊎ Within candidate path))))
is_path_available_iff candidate existing =
    (refused candidate existing, λ w. refuses candidate existing w.0 w.1.0 w.1.1.0 w.1.1.1)
