-- ===== src/Regex/Literal.antt =====
-- Texts that a pattern is sure to match: literals, runs of a class, and their sequences.
use mailfallback.Prelude.{
  ℕ, Bool, true, Option, none, List, [], ◌∷◌, ◌++◌, All, ◌≡◌, refl, arith, ◌==◌, is_some, inl, inr,
  ◌⊎◌,
}
use mailfallback.Prelude.Text.{Text}
use mailfallback.Regex.{
  Pattern, one, many, match_at, match_first, search_first, literal, literal_i, fold_case, extend,
}

-- The pattern matches at the head of the text, whatever groups are being read.
pub record Succeeds (p : Pattern) (s : Text) : Type 0 where
  pub found :
      (group : Option Text) (groups : List Text) → is_some (match_at p s group groups) ≡ true

pub Succeeds-nil : (s : Text) → Succeeds [] s
unfolding match_at
Succeeds-nil s = record { found = λ group groups. refl }

pub Succeeds-one :
    (k : ℕ → Bool) (c : ℕ) (p : Pattern) (s : Text)
    → k c ≡ true
    → Succeeds p s
    → Succeeds (one k ∷ p) (c ∷ s)
unfolding match_at
Succeeds-one k c p s h m = record { found = λ group groups. rw h (m.found (extend c group) groups) }

-- A literal matches itself.
pub Succeeds-literal :
    (t : Text) (p : Pattern) (s : Text) → Succeeds p s → Succeeds (literal t p) (t ++ s)
unfolding literal
Succeeds-literal [] p s m = m
Succeeds-literal (c ∷ t) p s m =
    Succeeds-one (λ x. x == c) c (literal t p) (t ++ s) (ground arith) (Succeeds-literal t p s m)

pub Succeeds-literal_i :
    (t : Text) (p : Pattern) (s : Text) → Succeeds p s → Succeeds (literal_i t p) (t ++ s)
unfolding literal_i
Succeeds-literal_i [] p s m = m
Succeeds-literal_i (c ∷ t) p s m =
    Succeeds-one (λ x. fold_case x == fold_case c) c (literal_i t p) (t ++ s) (ground arith)
      (Succeeds-literal_i t p s m)

-- A greedy run that may go on succeeds if going on does, or if stopping here does.
many-cons :
    (k : ℕ → Bool) (c : ℕ) (p : Pattern) (s : Text) (group : Option Text) (groups : List Text)
    → (k c ≡ true → is_some (match_at (many k ∷ p) s (extend c group) groups) ≡ true)
      ⊎ (is_some (match_at p (c ∷ s) group groups) ≡ true)
    → (k c ≡ true) ⊎ (is_some (match_at p (c ∷ s) group groups) ≡ true)
    → is_some (match_at (many k ∷ p) (c ∷ s) group groups) ≡ true
unfolding match_at
many-cons k c p s group groups go here = ground arith

many-skip : (k : ℕ → Bool) (p : Pattern) (s : Text) → Succeeds p s → Succeeds (many k ∷ p) s
many-skip k p [] m = record { found = λ group groups. unfold match_at in m.found group groups }
many-skip k p (c ∷ s) m = record {
  found = λ group groups.
      let now = m.found group groups in many-cons k c p s group groups (inr now) (inr now);
}

-- However far the greedy run goes, backtracking finds the rest where it stands.
pub Succeeds-many :
    (k : ℕ → Bool) (u : Text) (p : Pattern) (s : Text)
    → All (λ c. k c ≡ true) u
    → Succeeds p s
    → Succeeds (many k ∷ p) (u ++ s)
Succeeds-many k [] p s h m = many-skip k p s m
Succeeds-many k (c ∷ u) p s h m =
    let rest = Succeeds-many k u p s h.1 m in
    record {
      found = λ group groups.
          many-cons k c p (u ++ s) group groups (inl (λ _. rest.found (extend c group) groups))
            (inl h.0);
    }

first-Succeeds : (p : Pattern) (s : Text) → Succeeds p s → is_some (match_first (p ∷ []) s) ≡ true
unfolding match_first
first-Succeeds p s m = ground (arith, m.found none [])

-- A search finds a pattern that matches somewhere.
pub search_first-Succeeds :
    (a : Text) (p : Pattern) (s : Text)
    → Succeeds p s
    → is_some (search_first (p ∷ []) (a ++ s)) ≡ true
unfolding search_first
search_first-Succeeds [] p [] m = first-Succeeds p [] m
search_first-Succeeds [] p (c ∷ s) m = ground (arith, first-Succeeds p (c ∷ s) m)
search_first-Succeeds (c ∷ a) p s m = ground (arith, search_first-Succeeds a p s m)
