-- ===== src/Dependencies/Principals.antt =====
-- What a request may do as the one who sent it.
use mailfallback.Prelude.{
  ℕ, Bool, true, ◌&&◌, Option, none, some, inl, inr, List, ◌≡◌, refl, arith, Option-cases, is_some,
}
use mailfallback.Prelude.Text.{Text, codes, text_eq_sound}
use mailfallback.Models.{AppCredential, User}
use mailfallback.Models.Queries.{get_user}
use mailfallback.AppCredentialService.{
  Verified, check_credential, get_credential, is_in, is_ok, scope_set, split_token,
  verify_credential,
}
use mailfallback.AppCredentialService.Verifying.{get_credential-record_use}
use mailfallback.Dependencies.{
  Answer, Principal, Request, bearer_verified, get_current_principal, is_bearer, is_returned,
  passdb_verify, require_scope, token_principal,
}

-- An error, or a principal with a credential.
abbrev pub is_of_token : Answer Principal → Bool
is_of_token (Answer.http_error status detail) = true
is_of_token (Answer.returned p) = is_some p.credential

token_principal-is_of_token :
    (users : List User) (v : Verified) → is_of_token (token_principal users v) ≡ true
unfolding token_principal
token_principal-is_of_token users v = ground arith

-- A request that names the bearer scheme, in any case and with any token, gets the same answer
-- whatever session it carries, and that is an error or a principal with a credential.
pub get_current_principal_bearer :
    (hash_token : Text → Text) (now : ℕ) (users : List User) (rows : List AppCredential)
    (authorization : Text) (session session' : Option Text)
    → is_bearer authorization ≡ true
    → (get_current_principal hash_token now users rows
          (record { authorization = authorization; session_user_id = session })
        ≡ get_current_principal hash_token now users rows
            (record { authorization = authorization; session_user_id = session' }))
      × (is_of_token (
            get_current_principal hash_token now users rows
              (record { authorization = authorization; session_user_id = session }))
          ≡ true)
unfolding get_current_principal
get_current_principal_bearer hash_token now users rows authorization session session' h = (
  rw h refl,
  rw h (
      token_principal-is_of_token users
        (bearer_verified hash_token now users rows authorization none)),
)

scope_set-used :
    (now : ℕ) (kind : Text) (cred : AppCredential)
    → scope_set (record cred { last_used_at = some now; last_used_kind = some kind })
      ≡ scope_set cred
unfolding scope_set
scope_set-used now kind cred = refl

-- The check of a scope after the others, or among them.
check_scope :
    (hash_token : Text → Text) (now : ℕ) (scope secret : Text) (user : User) (cred : AppCredential)
    → (is_ok (check_credential hash_token now none none secret user cred)
        && is_in scope (scope_set cred))
      ≡ is_ok (check_credential hash_token now none (some scope) secret user cred)
unfolding check_credential
check_scope hash_token now scope secret user cred = ground arith

is_bearer_principal :
    (hash_token : Text → Text) (now : ℕ) (users : List User) (rows : List AppCredential)
    (token kind scope : Text)
    → is_returned (
        require_scope scope (
          token_principal users (verify_credential hash_token now users none token none kind rows)))
      ≡ is_ok (verify_credential hash_token now users none token (some scope) kind rows).result
unfolding verify_credential token_principal require_scope
is_bearer_principal hash_token now users rows token kind scope =
    elim (Option-cases (split_token token)) [
      | inl e ↦ ground (arith, e)
      | inr ((prefix, secret), e) ↦ elim (Option-cases (get_credential prefix rows)) [
        | inl g ↦ ground (arith, e, g)
        | inr (cred, g) ↦ elim (Option-cases (get_user cred.user_id users)) [
          | inl u ↦ ground (arith, e, g, u)
          | inr (user, u) ↦ ground (
            arith,
            e,
            g,
            u,
            check_scope hash_token now scope secret user cred,
            get_credential-record_use prefix now kind rows cred g,
            scope_set-used now kind cred,
          )
        ]
      ]
    ]

-- For a bearer request the check of a scope after the principal lets through exactly the tokens
-- that verify with that scope required.
pub require_scope-get_current_principal :
    (hash_token : Text → Text) (now : ℕ) (users : List User) (rows : List AppCredential)
    (request : Request) (scope : Text)
    → is_bearer request.authorization ≡ true
    → is_returned (require_scope scope (get_current_principal hash_token now users rows request))
      ≡ is_ok (bearer_verified hash_token now users rows request.authorization (some scope)).result
unfolding get_current_principal
require_scope-get_current_principal hash_token now users rows request scope h =
    rw h (is_bearer_principal hash_token now users rows _ (codes "api") scope)

no_401 : (n : ℕ) → n ≡ 401 → n ≡ 404 → ⊥
no_401 n h h' = ground arith

-- The passdb answers 401 only to the user whose token it is: the password is a token, the prefix in
-- it is that of a credential, and the user of this credential has the name that was given.
pub passdb_verify_unauthorized :
    (hash_token : Text → Text) (now : ℕ) (users : List User) (rows : List AppCredential)
    (username password : Text) (protocol : Option Text)
    → passdb_verify hash_token now users rows username password protocol ≡ 401
    → (prefix : Text) × ((secret : Text) × ((cred : AppCredential) × ((user : User) × ((split_token
                  password
                ≡ some (prefix, secret))
              × ((get_credential prefix rows ≡ some cred)
                  × ((get_user cred.user_id users ≡ some user) × (user.username ≡ username)))))))
unfolding passdb_verify verify_credential check_credential
passdb_verify_unauthorized hash_token now users rows username password protocol h =
    elim (Option-cases (split_token password)) [
      | inl e ↦
          elim (no_401 (passdb_verify hash_token now users rows username password protocol) h
            (ground (arith, e))) [ ]
      | inr ((prefix, secret), e) ↦ elim (Option-cases (get_credential prefix rows)) [
        | inl g ↦
            elim (no_401 (passdb_verify hash_token now users rows username password protocol) h
              (ground (arith, e, g))) [ ]
        | inr (cred, g) ↦ elim (Option-cases (get_user cred.user_id users)) [
          | inl u ↦
              elim (no_401 (passdb_verify hash_token now users rows username password protocol) h
                (ground (arith, e, g, u))) [ ]
          | inr (user, u) ↦ (
            prefix,
            (
              secret,
              (
                cred,
                (
                  user,
                  (e, (g, (u, ground (arith, e, g, u, text_eq_sound user.username username)))),
                ),
              ),
            ),
          )
        ]
      ]
    ]
