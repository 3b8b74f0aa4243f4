-- ===== src/AppCredentialService.antt =====
-- src/mailfallback/services/app_credential_service.py: the life of an access token. HMAC-SHA256
-- under the server's key is the argument `hash_token`, and what `secrets.token_hex` draws are the
-- arguments `prefix` and `secret`.
pub mod Revoking
pub mod Splitting
pub mod Verifying
mod Tests
use mailfallback.Prelude.{
  ℕ, ◌+◌, ◌*◌, ◌==◌, ltb, Bool, true, false, not, ◌&&◌, ◌||◌, Option, none, some, ◌⊎◌, inl, inr,
  List, [], ◌∷◌, ◌++◌, all, any, drop, keep, zero, suc, is_none, is_some, if◌then◌else◌,
}
use mailfallback.Prelude.Text.{Text, codes, text_eq, starts_with}
use mailfallback.Models.{AppCredential, User}
use mailfallback.Models.Queries.{get_user}
use mailfallback.FolderReconcile.{sorted}

abbrev pub token_marker : Text
token_marker = codes "mfb_"

abbrev pub scope_imap : Text
scope_imap = codes "imap"

abbrev pub valid_scopes : List Text
valid_scopes = scope_imap ∷ codes "mail:read" ∷ codes "sync:trigger" ∷ []

pub data VerifyResult : Type 0 where
  ok not_a_token unknown rejected : VerifyResult

-- `s in xs`.
unfoldable pub is_in : Text → List Text → Bool
is_in s xs = any (text_eq s) xs

-- `s.partition(c)`, without the separator.
unfoldable pub partition : ℕ → Text → Text × Text
partition c [] = ([], [])
partition c (x ∷ s) =
    let (before, after) = partition c s in if x == c then ([], s) else (x ∷ before, after)

-- `s.split(c)`.
unfoldable pub split_on : ℕ → Text → Text → List Text
split_on c word [] = word ∷ []
split_on c word (x ∷ s) =
    let next = split_on c [] s in
    let same = split_on c (word ++ x ∷ []) s in if x == c then word ∷ next else same

-- `c.join(xs)`.
unfoldable pub join_with : Text → List Text → Text
join_with c [] = []
join_with c (x ∷ []) = x
join_with c (x ∷ y ∷ xs) = x ++ (c ++ join_with c (y ∷ xs))

-- `set(xs)`: each text once, where it stands last.
unfoldable pub distinct : List Text → List Text
unfolding is_in
distinct [] = []
distinct (x ∷ xs) = let rest = distinct xs in if is_in x xs then rest else x ∷ rest

abbrev pub is_filled : Text → Bool
is_filled [] = false
is_filled (c ∷ s) = true

-- The properties of `AppCredential`.
unfoldable pub scope_set : AppCredential → List Text
unfolding split_on
scope_set cred = keep is_filled (split_on b',' [] cred.scopes)

unfoldable pub is_active : ℕ → AppCredential → Bool
is_active now cred =
    is_none cred.revoked_at && elim cred.expires_at [ none ↦ true | some at ↦ ltb now at ]

-- The microseconds of a day.
abbrev pub day : ℕ
day = 86400000000

-- `timedelta(days=ttl_days) if ttl_days else None`.
unfoldable pub expiry : ℕ → Option ℕ → Option ℕ
expiry now none = none
expiry now (some zero) = none
expiry now (some (suc n)) = some (now + suc n * day)

-- `AppCredential(…)`.
unfoldable pub new_credential :
    (Text → Text) → Text → Text → Text → ℕ → User → Text → List Text → Option ℕ → AppCredential
unfolding join_with distinct expiry
new_credential hash_token id prefix secret now user name scopes ttl_days = record {
  id = id;
  user_id = user.id;
  name = name;
  token_prefix = prefix;
  secret_hash = hash_token secret;
  scopes = join_with (codes ",") (sorted (distinct scopes));
  expires_at = expiry now ttl_days;
  revoked_at = none;
  last_used_at = none;
  last_used_kind = none;
}

-- The `ValueError` for scopes, of which the second are not valid.
unfoldable pub refusal : List Text → List Text → Option Text
unfolding join_with distinct
refusal [] strange = some (codes "At least one scope is required")
refusal (s ∷ scopes) [] = none
refusal (s ∷ scopes) (x ∷ strange) =
    some (codes "Unknown scope(s): " ++ join_with (codes ", ") (sorted (distinct (x ∷ strange))))

-- The row and its one-time token, or a `ValueError`.
unfoldable pub create_credential :
    (Text → Text)
    → Text
    → Text
    → Text
    → ℕ
    → User
    → Text
    → List Text
    → Option ℕ
    → List AppCredential
    → Text ⊎ (List AppCredential × (AppCredential × Text))
unfolding is_in refusal new_credential
create_credential hash_token id prefix secret now user name scopes ttl_days rows =
    let cred = new_credential hash_token id prefix secret now user name scopes ttl_days in
    let strange = keep (λ (s : Text). not (is_in s valid_scopes)) scopes in
    elim (refusal scopes strange) [
      | some message ↦ inl message
      | none ↦ inr (rows ++ cred ∷ [], (cred, token_marker ++ prefix ++ b'_' ∷ secret))
    ]

-- `_split`.
unfoldable pub split_token : Text → Option (Text × Text)
unfolding starts_with partition
split_token token =
    let (prefix, secret) = partition b'_' (drop 4 token) in
    if not (starts_with token token_marker) || not (is_filled prefix) || not (is_filled secret)
    then none
    else some (prefix, secret)

unfoldable pub get_credential : Text → List AppCredential → Option AppCredential
get_credential prefix [] = none
get_credential prefix (cred ∷ rows) =
    if text_eq cred.token_prefix prefix then some cred else get_credential prefix rows

-- `last_used_at` and `last_used_kind` of the row that was found.
unfoldable pub record_use : Text → ℕ → Text → List AppCredential → List AppCredential
record_use prefix now kind [] = []
record_use prefix now kind (cred ∷ rows) =
    let others = record_use prefix now kind rows in
    if text_eq cred.token_prefix prefix
    then (record cred { last_used_at = some now; last_used_kind = some kind }) ∷ rows
    else cred ∷ others

-- The username that the caller has in hand.
abbrev pub is_other_user : Option Text → User → Bool
is_other_user none user = false
is_other_user (some username) user = not (text_eq user.username username)

abbrev pub lacks_scope : Option Text → AppCredential → Bool
lacks_scope none cred = false
lacks_scope (some scope) cred = not (is_in scope (scope_set cred))

-- The checks of a credential and its owner, in their order.
unfoldable pub check_credential :
    (Text → Text) → ℕ → Option Text → Option Text → Text → User → AppCredential → VerifyResult
unfolding is_active is_in scope_set
check_credential hash_token now username required_scope secret user cred =
    if is_other_user username user
    then VerifyResult.unknown
    else if not user.enabled || user.migrating
    then VerifyResult.rejected
    else if not (is_active now cred)
    then VerifyResult.rejected
    else if lacks_scope required_scope cred
    then VerifyResult.rejected
    else if not (text_eq (hash_token secret) cred.secret_hash)
    then VerifyResult.rejected
    else VerifyResult.ok

pub record Verified : Type 0 where
  pub result : VerifyResult
  pub credential : Option AppCredential
  pub rows : List AppCredential

abbrev pub is_ok : VerifyResult → Bool
is_ok VerifyResult.ok = true
is_ok _ = false

-- The credential is returned, and its use recorded, on success only.
unfoldable pub verify_credential :
    (Text → Text)
    → ℕ
    → List User
    → Option Text
    → Text
    → Option Text
    → Text
    → List AppCredential
    → Verified
unfolding split_token get_credential check_credential record_use
verify_credential hash_token now users username token required_scope kind rows =
    let fail : VerifyResult → Verified =
      λ result. record { result = result; credential = none; rows = rows } in
    elim (split_token token) [
      | none ↦ fail VerifyResult.not_a_token
      | some (prefix, secret) ↦ elim (get_credential prefix rows) [
        | none ↦ fail VerifyResult.unknown
        | some cred ↦ elim (get_user cred.user_id users) [
          | none ↦ fail VerifyResult.unknown
          | some user ↦
              let result =
                check_credential hash_token now username required_scope secret user cred in
              let used = record_use prefix now kind rows in
              if is_ok result
              then record { result = result; credential = get_credential prefix used; rows = used }
              else fail result
        ]
      ]
    ]

-- The first row of the id, if the user owns it, is marked revoked; the second component is the
-- answer.
unfoldable pub revoke_credential : ℕ → Text → Text → List AppCredential → List AppCredential × Bool
revoke_credential now user_id id [] = ([], false)
revoke_credential now user_id id (cred ∷ rows) =
    let (others, found) = revoke_credential now user_id id rows in
    if text_eq cred.id id && text_eq cred.user_id user_id
    then (
      (record cred { revoked_at = if is_none cred.revoked_at then some now else cred.revoked_at })
          ∷ rows,
      true,
    )
    else (cred ∷ others, found)
