-- ===== src/Dependencies.antt =====
-- src/mailfallback/dependencies.py and passdb_verify of src/mailfallback/routers/dovecot.py: who is
-- calling, by token or session, and what the Dovecot passdb answers.
pub mod Principals
mod Tests
use mailfallback.Prelude.{
  ℕ, Bool, true, false, not, Option, none, some, List, [], ◌∷◌, ◌++◌, if◌then◌else◌,
}
use mailfallback.Prelude.Text.{Text, codes, text_eq, lower, strip}
use mailfallback.Models.{AppCredential, User, UserRole}
use mailfallback.Models.Queries.{get_user}
use mailfallback.AppCredentialService.{
  VerifyResult, Verified, is_in, is_ok, partition, scope_imap, scope_set, valid_scopes,
  verify_credential,
}

-- A value, or an `HTTPException` with its status and detail.
pub data Answer (A : Type 0) : Type 0 where
  http_error : ℕ → Text → Answer A
  returned : A → Answer A

abbrev pub is_returned : {A : Type 0} → Answer A → Bool
is_returned (Answer.http_error status detail) = false
is_returned (Answer.returned a) = true

-- The header (empty where there is none), and `user_id` of the session.
pub record Request : Type 0 where
  pub authorization : Text
  pub session_user_id : Option Text

unfoldable pub admit_user : Option User → Answer User
admit_user none = Answer.http_error 401 (codes "User not found")
admit_user (some user) =
    if user.enabled then Answer.returned user else Answer.http_error 403 (codes "Account disabled")

unfoldable pub get_current_user : List User → Option Text → Answer User
unfolding admit_user
get_current_user users none = Answer.http_error 401 (codes "Not authenticated")
get_current_user users (some []) = Answer.http_error 401 (codes "Not authenticated")
get_current_user users (some (c ∷ id)) = admit_user (get_user (c ∷ id) users)

unfoldable pub require_admin : Answer User → Answer User
require_admin (Answer.http_error status detail) = Answer.http_error status detail
require_admin (Answer.returned user) = elim user.role [
  | UserRole.admin ↦ Answer.returned user
  | UserRole.user ↦ Answer.http_error 403 (codes "Admin access required")
]

pub record Principal : Type 0 where
  pub user : User
  pub credential : Option AppCredential
  pub scopes : List Text

unfoldable pub is_bearer : Text → Bool
is_bearer authorization = text_eq (lower (partition b' ' authorization).0) (codes "bearer")

abbrev pub invalid_token : Answer Principal
invalid_token = Answer.http_error 401 (codes "Invalid access token")

-- The principal of a verification; `cred.user` is the row of the credential's user.
unfoldable pub token_principal : List User → Verified → Answer Principal
token_principal users v = if not (is_ok v.result) then invalid_token else elim v.credential [
  | none ↦ invalid_token
  | some cred ↦ elim (get_user cred.user_id users) [
    | none ↦ invalid_token
    | some user ↦
        Answer.returned (record { user = user; credential = some cred; scopes = scope_set cred })
  ]
]

unfoldable pub session_principal : Answer User → Answer Principal
session_principal (Answer.http_error status detail) = Answer.http_error status detail
session_principal (Answer.returned user) =
    Answer.returned (record { user = user; credential = none; scopes = valid_scopes })

-- The token of the header is verified for no name and no scope.
abbrev pub bearer_verified :
    (Text → Text) → ℕ → List User → List AppCredential → Text → Option Text → Verified
bearer_verified hash_token now users rows authorization required_scope =
    verify_credential hash_token now users none (strip (partition b' ' authorization).1)
      required_scope (codes "api") rows

unfoldable pub get_current_principal :
    (Text → Text) → ℕ → List User → List AppCredential → Request → Answer Principal
unfolding is_bearer token_principal session_principal get_current_user
get_current_principal hash_token now users rows request =
    if is_bearer request.authorization
    then token_principal users
        (bearer_verified hash_token now users rows request.authorization none)
    else session_principal (get_current_user users request.session_user_id)

unfoldable pub require_scope : Text → Answer Principal → Answer Principal
unfolding is_in
require_scope scope (Answer.http_error status detail) = Answer.http_error status detail
require_scope scope (Answer.returned principal) =
    if is_in scope principal.scopes
    then Answer.returned principal
    else Answer.http_error 403 (codes "Access token lacks the " ++ scope ++ codes " scope")

-- The status that the Lua passdb reads.
unfoldable pub passdb_status : VerifyResult → ℕ
passdb_status VerifyResult.ok = 200
passdb_status VerifyResult.not_a_token = 404
passdb_status VerifyResult.unknown = 404
passdb_status VerifyResult.rejected = 401

-- `req.protocol or "imap"`.
abbrev protocol_or_imap : Option Text → Text
protocol_or_imap none = codes "imap"
protocol_or_imap (some []) = codes "imap"
protocol_or_imap (some (c ∷ s)) = c ∷ s

unfoldable pub passdb_verify :
    (Text → Text) → ℕ → List User → List AppCredential → Text → Text → Option Text → ℕ
unfolding passdb_status
passdb_verify hash_token now users rows username password protocol =
    passdb_status
      (verify_credential hash_token now users (some username) password (some scope_imap)
        (protocol_or_imap protocol) rows).result
