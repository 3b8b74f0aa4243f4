-- ===== src/AppCredentialService/Verifying.antt =====
-- What a token opens, and for how long.
use mathlib.Core.Sum.{inr-injective}
use mailfallback.Prelude.{
  ℕ, Bool, true, false, not, Option, none, some, inl, inr, List, [], ◌∷◌, ◌++◌, all, keep, ◌≡◌,
  refl, sym, ap, ◌∙◌, arith, Option-cases,
}
use mailfallback.Prelude.Text.{Text, codes, text_eq, text_eq_refl, text_eq_sound}
use mailfallback.Models.{AppCredential, User}
use mailfallback.Models.Queries.{get_user}
use mailfallback.AppCredentialService.{
  VerifyResult, check_credential, create_credential, new_credential, refusal, get_credential,
  is_active, is_filled, is_in, is_other_user, lacks_scope, record_use, scope_set, split_token,
  token_marker, valid_scopes, verify_credential,
}
use mailfallback.AppCredentialService.Splitting.{is_plain, lacks, scopes_kept, split_token-marker}

plain_as : (s t : Text) → text_eq s t ≡ true → is_plain t ≡ true → is_plain s ≡ true
plain_as s t e p = rw (text_eq_sound s t e) p

is_plain-valid : (s : Text) → is_in s valid_scopes ≡ true → is_plain s ≡ true
unfolding is_in
is_plain-valid s h = ground (
  arith,
  λ (e : text_eq s (codes "imap") ≡ true). plain_as s (codes "imap") e refl,
  λ (e : text_eq s (codes "mail:read") ≡ true). plain_as s (codes "mail:read") e refl,
  λ (e : text_eq s (codes "sync:trigger") ≡ true). plain_as s (codes "sync:trigger") e refl,
)

all_plain :
    (scopes : List Text)
    → keep (λ (s : Text). not (is_in s valid_scopes)) scopes ≡ []
    → all is_plain scopes ≡ true
all_plain [] h = refl
all_plain (s ∷ scopes) h = ground (arith, is_plain-valid s, all_plain scopes)

get_credential-append :
    (prefix : Text) (rows : List AppCredential) (cred : AppCredential)
    → get_credential prefix rows ≡ none
    → text_eq cred.token_prefix prefix ≡ true
    → get_credential prefix (rows ++ cred ∷ []) ≡ some cred
unfolding get_credential
get_credential-append prefix [] cred h e = ground arith
get_credential-append prefix (x ∷ rows) cred h e =
    ground (arith, get_credential-append prefix rows cred)

pub get_credential-record_use :
    (prefix : Text) (now : ℕ) (kind : Text) (rows : List AppCredential) (cred : AppCredential)
    → get_credential prefix rows ≡ some cred
    → get_credential prefix (record_use prefix now kind rows)
      ≡ some (record cred { last_used_at = some now; last_used_kind = some kind })
unfolding get_credential record_use
get_credential-record_use prefix now kind [] cred h = ground arith
get_credential-record_use prefix now kind (x ∷ rows) cred h =
    ground (arith, get_credential-record_use prefix now kind rows cred)

-- A verification that finds its row and its user.
verify_found :
    (hash_token : Text → Text) (now : ℕ) (users : List User) (username : Option Text) (token : Text)
    (required_scope : Option Text) (kind : Text) (rows : List AppCredential) (prefix secret : Text)
    (cred : AppCredential) (user : User)
    → split_token token ≡ some (prefix, secret)
    → get_credential prefix rows ≡ some cred
    → get_user cred.user_id users ≡ some user
    → check_credential hash_token now username required_scope secret user cred ≡ VerifyResult.ok
    → (verify_credential hash_token now users username token required_scope kind rows) ≡ (record {
      result = VerifyResult.ok;
      credential = some (record cred { last_used_at = some now; last_used_kind = some kind });
      rows = record_use prefix now kind rows;
    })
unfolding verify_credential
verify_found hash_token now users username token required_scope kind rows prefix secret cred user s
      g u c =
    ground (arith, get_credential-record_use prefix now kind rows cred g)

refusal-none : (scopes strange : List Text) → refusal scopes strange ≡ none → strange ≡ []
unfolding refusal
refusal-none [] strange h = ground arith
refusal-none (s ∷ scopes) [] h = refl
refusal-none (s ∷ scopes) (x ∷ strange) h = ground arith

-- What a creation that does not raise returns.
create_credential-inr :
    (hash_token : Text → Text) (id prefix secret : Text) (now : ℕ) (user : User) (name : Text)
    (scopes : List Text) (ttl_days : Option ℕ) (rows rows' : List AppCredential)
    (cred : AppCredential) (token : Text)
    → create_credential hash_token id prefix secret now user name scopes ttl_days rows
      ≡ inr (rows', (cred, token))
    → (rows' ≡ rows ++ cred ∷ [])
      × ((cred ≡ new_credential hash_token id prefix secret now user name scopes ttl_days)
          × ((token ≡ token_marker ++ prefix ++ b'_' ∷ secret)
              × (keep (λ (s : Text). not (is_in s valid_scopes)) scopes ≡ [])))
unfolding create_credential
create_credential-inr hash_token id prefix secret now user name scopes ttl_days rows rows' cred
      token h =
    let strange = keep (λ (s : Text). not (is_in s valid_scopes)) scopes in
    let made = new_credential hash_token id prefix secret now user name scopes ttl_days in
    let made_token = token_marker ++ prefix ++ b'_' ∷ secret in
    elim (Option-cases (refusal scopes strange)) [
      | inl e ↦
          let mine : List AppCredential × (AppCredential × Text) =
            (rows ++ made ∷ [], (made, made_token)) in
          let theirs : List AppCredential × (AppCredential × Text) = (rows', (cred, token)) in
          let is_mine : create_credential hash_token id prefix secret now user name scopes ttl_days
                rows
              ≡ inr mine =
            ground (arith, e) in
          let same : mine ≡ theirs = inr-injective mine theirs (sym is_mine ∙ h) in
          let same_cred : cred ≡ made =
            sym (ap (λ (r : List AppCredential × (AppCredential × Text)). r.1.0) same) in
          (
            sym (ap (λ (r : List AppCredential × (AppCredential × Text)). r.0) same)
                ∙ rw same_cred refl,
            (
              same_cred,
              (
                sym (ap (λ (r : List AppCredential × (AppCredential × Text)). r.1.1) same),
                refusal-none scopes strange e,
              ),
            ),
          )
      | inr (m, e) ↦ ground (arith, e, h)
    ]

-- The scope asked for is one of the scopes.
abbrev pub is_granted : Option Text → List Text → Bool
is_granted none scopes = true
is_granted (some scope) scopes = is_in scope scopes

lacks_scope-new :
    (hash_token : Text → Text) (id prefix secret : Text) (now : ℕ) (user : User) (name : Text)
    (scopes : List Text) (ttl_days : Option ℕ) (required_scope : Option Text)
    → all is_plain scopes ≡ true
    → is_granted required_scope scopes ≡ true
    → lacks_scope required_scope
        (new_credential hash_token id prefix secret now user name scopes ttl_days)
      ≡ false
unfolding scope_set new_credential
lacks_scope-new hash_token id prefix secret now user name scopes ttl_days none plain h = refl
lacks_scope-new hash_token id prefix secret now user name scopes ttl_days (some s) plain h =
    ground (arith, scopes_kept s scopes plain)

new_prefix :
    (hash_token : Text → Text) (id prefix secret : Text) (now : ℕ) (user : User) (name : Text)
    (scopes : List Text) (ttl_days : Option ℕ)
    → text_eq
        (new_credential hash_token id prefix secret now user name scopes ttl_days).token_prefix
        prefix
      ≡ true
unfolding new_credential
new_prefix hash_token id prefix secret now user name scopes ttl_days = text_eq_refl prefix

new_hash :
    (hash_token : Text → Text) (id prefix secret : Text) (now : ℕ) (user : User) (name : Text)
    (scopes : List Text) (ttl_days : Option ℕ)
    → text_eq
        (hash_token secret)
        (new_credential hash_token id prefix secret now user name scopes ttl_days).secret_hash
      ≡ true
unfolding new_credential
new_hash hash_token id prefix secret now user name scopes ttl_days =
    text_eq_refl (hash_token secret)

new_user :
    (hash_token : Text → Text) (id prefix secret : Text) (now : ℕ) (user : User) (name : Text)
    (scopes : List Text) (ttl_days : Option ℕ) (users : List User)
    → get_user user.id users ≡ some user
    → get_user
        (new_credential hash_token id prefix secret now user name scopes ttl_days).user_id
        users
      ≡ some user
unfolding new_credential
new_user hash_token id prefix secret now user name scopes ttl_days users h = h

check_new :
    (hash_token : Text → Text) (now : ℕ) (username required_scope : Option Text) (secret : Text)
    (user : User) (cred : AppCredential)
    → user.enabled ≡ true
    → user.migrating ≡ false
    → is_other_user username user ≡ false
    → is_active now cred ≡ true
    → lacks_scope required_scope cred ≡ false
    → text_eq (hash_token secret) cred.secret_hash ≡ true
    → check_credential hash_token now username required_scope secret user cred ≡ VerifyResult.ok
unfolding check_credential
check_new hash_token now username required_scope secret user cred enabled settled mine active
      scope_ok hash =
    ground arith

-- A token that a creation has handed out verifies, and its use is recorded: for each scope that it
-- was made with, for its user's name or none, while the user is enabled and not migrating and the
-- credential has not run out; where its prefix and secret are not empty, the prefix has no `_`, and
-- no earlier credential has it.
pub verify_credential-create_credential :
    (hash_token : Text → Text) (id prefix secret : Text) (now later : ℕ) (user : User) (name : Text)
    (scopes : List Text) (ttl_days : Option ℕ) (rows rows' : List AppCredential)
    (cred : AppCredential) (token : Text) (users : List User)
    (username required_scope : Option Text) (kind : Text)
    → lacks b'_' prefix ≡ true
    → is_filled prefix ≡ true
    → is_filled secret ≡ true
    → get_credential prefix rows ≡ none
    → create_credential hash_token id prefix secret now user name scopes ttl_days rows
      ≡ inr (rows', (cred, token))
    → get_user user.id users ≡ some user
    → user.enabled ≡ true
    → user.migrating ≡ false
    → is_other_user username user ≡ false
    → is_granted required_scope scopes ≡ true
    → is_active later cred ≡ true
    → verify_credential hash_token later users username token required_scope kind rows' ≡ (record {
      result = VerifyResult.ok;
      credential = some (record cred { last_used_at = some later; last_used_kind = some kind });
      rows = record_use prefix later kind rows';
    })
verify_credential-create_credential hash_token id prefix secret now later user name scopes ttl_days
      rows rows' cred token users username required_scope kind lp fp fs fresh made u enabled settled
      mine granted active =
    let (rows_eq, (cred_eq, (token_eq, valid))) =
      create_credential-inr hash_token id prefix secret now user name scopes ttl_days rows rows'
        cred token made in
    let cred' = new_credential hash_token id prefix secret now user name scopes ttl_days in
    let scope_ok : lacks_scope required_scope cred ≡ false = rw cred_eq (
      lacks_scope-new hash_token id prefix secret now user name scopes ttl_days required_scope
        (all_plain scopes valid) granted) in
    verify_found hash_token later users username token required_scope kind rows' prefix secret cred
      user (rw token_eq (split_token-marker prefix secret lp fp fs))
      (rw rows_eq (
        get_credential-append prefix rows cred fresh
          (rw cred_eq (new_prefix hash_token id prefix secret now user name scopes ttl_days))))
      (rw cred_eq (new_user hash_token id prefix secret now user name scopes ttl_days users u))
      (check_new hash_token later username required_scope secret user cred enabled settled mine
        active scope_ok
        (rw cred_eq (new_hash hash_token id prefix secret now user name scopes ttl_days)))
