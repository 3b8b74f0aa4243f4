-- ===== src/AppCredentialService/Revoking.antt =====
-- A revoked token, and a token that is presented under another name.
use mailfallback.Prelude.{
  ℕ, true, false, not, ◌||◌, Option, some, inl, inr, List, [], ◌∷◌, all, if◌then◌else◌, ◌≡◌, refl,
  arith, Option-cases, is_none,
}
use mailfallback.Prelude.Text.{Text, text_eq, text_eq_refl}
use mailfallback.Models.{AppCredential, User}
use mailfallback.AppCredentialService.{
  check_credential, get_credential, is_active, is_ok, revoke_credential, split_token,
  verify_credential,
}

get_credential-revoke_credential :
    (now : ℕ) (user_id id prefix : Text) (rows : List AppCredential) (cred : AppCredential)
    → get_credential prefix rows ≡ some cred
    → cred.id ≡ id
    → cred.user_id ≡ user_id
    → all (λ (r : AppCredential). not (text_eq r.id id) || text_eq r.token_prefix prefix) rows
      ≡ true
    → get_credential prefix (revoke_credential now user_id id rows).0
      ≡ some (record cred {
        revoked_at = if is_none cred.revoked_at then some now else cred.revoked_at;
      })
unfolding get_credential revoke_credential
get_credential-revoke_credential now user_id id prefix [] cred g i u h = ground arith
get_credential-revoke_credential now user_id id prefix (x ∷ rows) cred g i u h = ground (
  arith,
  text_eq_refl id,
  text_eq_refl user_id,
  get_credential-revoke_credential now user_id id prefix rows cred,
)

is_active-revoked :
    (now later : ℕ) (cred : AppCredential)
    → is_active later
        (record cred { revoked_at = if is_none cred.revoked_at then some now else cred.revoked_at })
      ≡ false
unfolding is_active
is_active-revoked now later cred = elim (Option-cases cred.revoked_at) [
  | inl e ↦ rw e refl
  | inr (at, e) ↦ rw e refl
]

check_inactive :
    (hash_token : Text → Text) (now : ℕ) (username required_scope : Option Text) (secret : Text)
    (user : User) (cred : AppCredential)
    → is_active now cred ≡ false
    → is_ok (check_credential hash_token now username required_scope secret user cred) ≡ false
unfolding check_credential
check_inactive hash_token now username required_scope secret user cred h = ground arith

-- Once its user has revoked a credential, its token never verifies again, whatever the name, the
-- scope, the secret and the time: where the rows with the credential's id have its prefix.
pub verify_credential-revoke_credential :
    (hash_token : Text → Text) (now later : ℕ) (id prefix secret : Text) (rows : List AppCredential)
    (cred : AppCredential) (users : List User) (username required_scope : Option Text)
    (token kind : Text)
    → split_token token ≡ some (prefix, secret)
    → get_credential prefix rows ≡ some cred
    → cred.id ≡ id
    → all (λ (r : AppCredential). not (text_eq r.id id) || text_eq r.token_prefix prefix) rows
      ≡ true
    → is_ok
        (verify_credential hash_token later users username token required_scope kind
          (revoke_credential now cred.user_id id rows).0).result
      ≡ false
unfolding verify_credential
verify_credential-revoke_credential hash_token now later id prefix secret rows cred users username
      required_scope token kind s g i h =
    let revoked : AppCredential = record cred {
      revoked_at = if is_none cred.revoked_at then some now else cred.revoked_at;
    } in
    let found = get_credential-revoke_credential now cred.user_id id prefix rows cred g i refl h in
    ground (
      arith,
      found,
      λ (user : User).
          check_inactive hash_token later username required_scope secret user revoked
            (is_active-revoked now later cred),
    )
