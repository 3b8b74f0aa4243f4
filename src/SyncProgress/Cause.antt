-- ===== src/SyncProgress/Cause.antt =====
-- Which cause sync_progress.py names for an error text.
use mailfallback.Prelude.{
  Bool, true, ◌&&◌, some, List, [], ◌∷◌, ◌++◌, All, ℕ, ◌≡◌, ◌≢◌, refl, ◌∙◌, arith, if◌then◌else◌,
  Option-cases, inl, inr,
}
use mailfallback.Prelude.Text.{Text, codes}
use mailfallback.Regex.{search_first, non_space}
use mailfallback.Regex.Literal.{
  Succeeds, Succeeds-nil, Succeeds-one, Succeeds-many, Succeeds-literal_i, search_first-Succeeds,
}
use mailfallback.SyncProgress.Errors.{
  Row, runtime_cap, is_auth, unknown_row, error_categories, runtime_cap_pattern, first_row,
  classify_error, error_category, category_message, describe_error,
}

-- The runtime cap has the first row.
first_category :
    (before : Text) (s : Text)
    → Succeeds runtime_cap_pattern s
    → (first_row error_categories (before ++ s)).category ≡ runtime_cap
unfolding first_row error_categories
first_category before s m = ground (arith, search_first-Succeeds before runtime_cap_pattern s m)

cap-Succeeds :
    (after : Text) (c : ℕ) (cap : Text)
    → All (λ x. non_space x ≡ true) (c ∷ cap)
    → Succeeds runtime_cap_pattern
        (codes "exceeded the " ++ c ∷ (cap ++ (codes " runtime cap" ++ after)))
cap-Succeeds after c cap h = Succeeds-literal_i (codes "exceeded the ") _ _ (
    Succeeds-one non_space c _ _ h.0 (
      Succeeds-many non_space cap _ _ h.1
        (Succeeds-literal_i (codes " runtime cap") [] after (Succeeds-nil after))))

category_of_row :
    (before : Text) (c : ℕ) (s : Text)
    → error_category (some (before ++ c ∷ s))
      ≡ (first_row error_categories (before ++ c ∷ s)).category
unfolding error_category classify_error
category_of_row [] c s = refl
category_of_row (x ∷ before) c s = refl

-- MFB's message for a run stopped at its time limit, with any duration that has no space in it,
-- is classified as the runtime cap wherever it stands in the text and whatever surrounds it.
pub error_category_runtime_cap :
    (before after : Text) (c : ℕ) (cap : Text)
    → All (λ x. non_space x ≡ true) (c ∷ cap)
    → error_category
        (some (before ++ (codes "exceeded the " ++ c ∷ (cap ++ (codes " runtime cap" ++ after)))))
      ≡ runtime_cap
error_category_runtime_cap before after c cap h =
    category_of_row before b'e' _ ∙ first_category before _ (cap-Succeeds after c cap h)

-- A property of every row is one of the row that is found.
first_row_all {ℓ} :
    (P : Row → Type ℓ) (rows : List Row) (text : Text)
    → All P rows
    → P unknown_row
    → P (first_row rows text)
unfolding first_row
first_row_all P [] text h u = u
first_row_all P (r ∷ rows) text h u = elim (Option-cases (search_first r.patterns text)) [
  | inl miss ↦ rw (miss, first_row) (first_row_all P rows text h.1 u)
  | inr hit ↦ rw (hit.1, first_row) h.0
]

abbrev Headline : Row → Type 0
Headline r = category_message error_categories r.category ≡ r.user_message

headlines : All Headline error_categories
unfolding error_categories category_message
headlines = (
  refl,
  (refl, (refl, (refl, (refl, (refl, (refl, (refl, (refl, (refl, (refl, (refl, tt))))))))))),
)

-- The headline of a failed sync is the message of the row that classifies its text, the same one
-- that the parser puts beside an error line; only a rejected sign-in of a password mailbox has a
-- message of its own. So the raw text is never shown.
pub describe_error-classify_error :
    (text : Text) (app_password : Bool)
    → text ≢ []
    → describe_error (some text) app_password ≡ (
        if is_auth (classify_error text).category && app_password
        then "The server rejected the password."
        else (classify_error text).user_message)
unfolding describe_error error_category classify_error
describe_error-classify_error [] app_password h = absurd (h refl)
describe_error-classify_error (c ∷ s) app_password h =
    let headline =
      first_row_all Headline error_categories (c ∷ s) headlines
        (unfold category_message error_categories in refl) in
    rw headline
