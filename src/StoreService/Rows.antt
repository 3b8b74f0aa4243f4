-- ===== src/StoreService/Rows.antt =====
-- The default store, and the rows that refer to a store.
use mailfallback.Prelude.{
  ℕ, suc, true, false, none, some, inl, inr, List, [], ◌∷◌, ◌++◌, if◌then◌else◌, is_some, is_none,
  ◌≡◌, refl, ap, ◌∙◌, arith, Bool-cases, Option-cases,
}
use mailfallback.Prelude.Text.{Text, text_eq, text_eq_refl, text_eq_sound}
use mailfallback.Models.{MailStore}
use mailfallback.Models.Queries.{get_store}
use mailfallback.StoreService.{
  adopt_store, clear_defaults, ensure_default_store, find_path, flag_default, get_default_store,
  new_default, set_default_store,
}
use mailfallback.StoreService.Paths.{rstrip_slash}

-- The number of stores that carry the flag.
unfoldable pub defaults : List MailStore → ℕ
defaults [] = 0
defaults (s ∷ stores) = if s.is_default then suc (defaults stores) else defaults stores

defaults-clear_defaults : (stores : List MailStore) → defaults (clear_defaults stores) ≡ 0
unfolding defaults clear_defaults
defaults-clear_defaults [] = refl
defaults-clear_defaults (s ∷ stores) = defaults-clear_defaults stores

defaults-flag_default :
    (id : Text) (stores : List MailStore)
    → defaults stores ≡ 0
    → defaults (flag_default id stores) ≡ (if is_some (get_store id stores) then 1 else 0)
unfolding defaults flag_default get_store
defaults-flag_default id [] h = refl
defaults-flag_default id (s ∷ stores) h = ground (arith, defaults-flag_default id stores)

get_store-flag_default :
    (id : Text) (stores : List MailStore)
    → get_default_store stores ≡ none
    → get_default_store (flag_default id stores) ≡ get_store id (flag_default id stores)
unfolding get_default_store flag_default get_store
get_store-flag_default id [] h = refl
get_store-flag_default id (s ∷ stores) h = ground (arith, get_store-flag_default id stores)

get_default_store-clear :
    (stores : List MailStore) → get_default_store (clear_defaults stores) ≡ none
unfolding get_default_store clear_defaults
get_default_store-clear [] = refl
get_default_store-clear (s ∷ stores) = get_default_store-clear stores

is_some-clear :
    (id : Text) (stores : List MailStore)
    → is_some (get_store id (clear_defaults stores)) ≡ is_some (get_store id stores)
unfolding get_store clear_defaults
is_some-clear id [] = refl
is_some-clear id (s ∷ stores) = ground (arith, is_some-clear id stores)

-- set_default_store leaves exactly one store flagged when the id is one of the stores', and the
-- default store is then the row that it returns; with an id of no store it leaves none flagged.
pub set_default_store-get_default_store :
    (store_id : Text) (stores : List MailStore)
    → (defaults (set_default_store store_id stores).0
        ≡ (if is_some (get_store store_id stores) then 1 else 0))
      × (get_default_store (set_default_store store_id stores).0
          ≡ (set_default_store store_id stores).1)
unfolding set_default_store
set_default_store-get_default_store store_id stores = (
  defaults-flag_default store_id (clear_defaults stores) (defaults-clear_defaults stores)
      ∙ rw (is_some-clear store_id stores) refl,
  get_store-flag_default store_id (clear_defaults stores) (get_default_store-clear stores),
)

-- No path is listed twice (the column is unique).
unfoldable pub IsUnique : List MailStore → Type 0
unfolding find_path
IsUnique [] = Unit
IsUnique (s ∷ stores) = (find_path s.path stores ≡ none) × IsUnique stores

find_path-append :
    (path : Text) (stores : List MailStore) (s : MailStore)
    → find_path path stores ≡ none
    → text_eq s.path path ≡ false
    → find_path path (stores ++ s ∷ []) ≡ none
unfolding find_path
find_path-append path [] s h ne = ground arith
find_path-append path (x ∷ stores) s h ne = ground (arith, find_path-append path stores s)

IsUnique-append :
    (stores : List MailStore) (s : MailStore)
    → IsUnique stores
    → find_path s.path stores ≡ none
    → IsUnique (stores ++ s ∷ [])
unfolding IsUnique find_path
IsUnique-append [] s u h = (refl, tt)
IsUnique-append (x ∷ stores) s u h = (
  find_path-append x.path stores s u.0
      (ground (arith, text_eq_sound s.path x.path, text_eq_refl x.path)),
  IsUnique-append stores s u.1 (ground arith),
)

find_path-flag_default :
    (id path : Text) (stores : List MailStore)
    → is_none (find_path path (flag_default id stores)) ≡ is_none (find_path path stores)
unfolding find_path flag_default
find_path-flag_default id path [] = refl
find_path-flag_default id path (s ∷ stores) = ground (arith, find_path-flag_default id path stores)

IsUnique-flag_default :
    (id : Text) (stores : List MailStore) → IsUnique stores → IsUnique (flag_default id stores)
unfolding IsUnique flag_default
IsUnique-flag_default id [] u = tt
IsUnique-flag_default id (s ∷ stores) u = elim (Bool-cases (text_eq s.id id)) [
  | inl e ↦ rw e u
  | inr e ↦ rw e (
    ground (arith, find_path-flag_default id s.path stores, u.0),
    IsUnique-flag_default id stores u.1,
  )
]

find_path-get_store :
    (path : Text) (stores : List MailStore) (s : MailStore)
    → find_path path stores ≡ some s
    → is_some (get_store s.id stores) ≡ true
unfolding find_path get_store
find_path-get_store path [] s h = ground arith
find_path-get_store path (x ∷ stores) s h =
    ground (arith, text_eq_refl s.id, find_path-get_store path stores s)

has_default-flag_default :
    (id : Text) (stores : List MailStore)
    → is_some (get_store id stores) ≡ true
    → is_some (get_default_store (flag_default id stores)) ≡ true
unfolding get_default_store flag_default get_store
has_default-flag_default id [] h = ground arith
has_default-flag_default id (s ∷ stores) h = ground (arith, has_default-flag_default id stores)

has_default-append :
    (stores : List MailStore) (s : MailStore)
    → s.is_default ≡ true
    → is_some (get_default_store (stores ++ s ∷ [])) ≡ true
unfolding get_default_store
has_default-append [] s h = ground arith
has_default-append (x ∷ stores) s h = ground (arith, has_default-append stores s h)

new_default-path :
    (id path : Text)
    → ((new_default id path).path ≡ path) × ((new_default id path).is_default ≡ true)
unfolding new_default
new_default-path id path = (refl, refl)

adopt_found :
    (id path : Text) (stores : List MailStore) (s : MailStore)
    → find_path path stores ≡ some s
    → (adopt_store id path stores).0 ≡ flag_default s.id stores
unfolding adopt_store
adopt_found id path stores s e = ground arith

adopt_slashed :
    (id path : Text) (stores : List MailStore) (s : MailStore)
    → find_path path stores ≡ none
    → find_path (path ++ b'/' ∷ []) stores ≡ some s
    → (adopt_store id path stores).0 ≡ flag_default s.id stores
unfolding adopt_store
adopt_slashed id path stores s e e' = ground arith

adopt_new :
    (id path : Text) (stores : List MailStore)
    → find_path path stores ≡ none
    → find_path (path ++ b'/' ∷ []) stores ≡ none
    → (adopt_store id path stores).0 ≡ stores ++ new_default id path ∷ []
unfolding adopt_store
adopt_new id path stores e e' = ground arith

adopt_store_keeps :
    (id path : Text) (stores : List MailStore)
    → IsUnique stores
    → IsUnique (adopt_store id path stores).0
      × (is_some (get_default_store (adopt_store id path stores).0) ≡ true)
adopt_store_keeps id path stores u = elim (Option-cases (find_path path stores)) [
  | inr (s, e) ↦ rw (adopt_found id path stores s e) (
    IsUnique-flag_default s.id stores u,
    has_default-flag_default s.id stores (find_path-get_store path stores s e),
  )
  | inl e ↦ elim (Option-cases (find_path (path ++ b'/' ∷ []) stores)) [
    | inr (s, e') ↦ rw (adopt_slashed id path stores s e e') (
      IsUnique-flag_default s.id stores u,
      has_default-flag_default s.id stores (find_path-get_store (path ++ b'/' ∷ []) stores s e'),
    )
    | inl e' ↦ rw (adopt_new id path stores e e') (
      IsUnique-append stores (new_default id path) u
          (ap (λ (p : Text). find_path p stores) (new_default-path id path).0 ∙ e),
      has_default-append stores (new_default id path) (new_default-path id path).1,
    )
  ]
]

ensure_found :
    (id path : Text) (stores : List MailStore)
    → is_some (get_default_store stores) ≡ true
    → (ensure_default_store id path stores).0 ≡ stores
unfolding ensure_default_store
ensure_found id path stores h = ground arith

ensure_new :
    (id path : Text) (stores : List MailStore)
    → get_default_store stores ≡ none
    → (ensure_default_store id path stores).0 ≡ (adopt_store id (rstrip_slash path) stores).0
unfolding ensure_default_store
ensure_new id path stores h = ground arith

-- ensure_default_store never gives two stores one path, leaves a default store, and does nothing
-- when it is called again, with whatever path: where no two stores have one path before.
pub ensure_default_store-IsUnique :
    (id path id' path' : Text) (stores : List MailStore)
    → IsUnique stores
    → IsUnique (ensure_default_store id path stores).0
      × ((is_some (get_default_store (ensure_default_store id path stores).0) ≡ true)
          × ((ensure_default_store id' path' (ensure_default_store id path stores).0).0
              ≡ (ensure_default_store id path stores).0))
ensure_default_store-IsUnique id path id' path' stores u =
    elim (Option-cases (get_default_store stores)) [
      | inr (s, e) ↦
          let there : is_some (get_default_store stores) ≡ true = ground (arith, e) in
          rw (ensure_found id path stores there) (u, (there, ensure_found id' path' stores there))
      | inl e ↦
          let (u', d) = adopt_store_keeps id (rstrip_slash path) stores u in
          rw (ensure_new id path stores e)
            (u', (d, ensure_found id' path' (adopt_store id (rstrip_slash path) stores).0 d))
    ]
