-- ===== src/Dependencies/Tests.antt =====
-- Requests with a token.
use mathlib.Core.List.{reverse}
use mailfallback.Prelude.{true, false, none, some, [], ◌∷◌, ◌≡◌, refl}
use mailfallback.Prelude.Text.{Text, codes, text_eq, lower}
use mailfallback.Models.{AppCredential, User, UserRole}
use mailfallback.Models.Queries.{get_user}
use mailfallback.AppCredentialService.{
  check_credential, get_credential, is_active, is_in, is_ok, new_credential, partition, scope_set,
  split_token, verify_credential,
}
use mailfallback.FolderReconcile.{sorted}
use mailfallback.Dependencies.{
  bearer_verified, get_current_principal, is_bearer, is_returned, passdb_verify, require_scope,
}
use mailfallback.Dependencies.Principals.{
  get_current_principal_bearer, is_of_token, passdb_verify_unauthorized,
  require_scope-get_current_principal,
}

abbrev user : User
user = record {
  id = codes "u";
  username = codes "ann";
  role = UserRole.user;
  enabled = true;
  store_id = codes "s1";
  migrating = false;
  allowed_stores = [];
}

abbrev cred : AppCredential
cred =
    new_credential reverse (codes "c") (codes "p") (codes "xy") 5 user (codes "laptop")
      (codes "imap" ∷ []) none

abbrev header : Text
header = codes "bearer mfb_p_xy"

get_current_principal_bearer_example :
    (get_current_principal reverse 9
        (user ∷ [])
        (cred ∷ [])
        (record { authorization = header; session_user_id = none })
      ≡ get_current_principal reverse 9
          (user ∷ [])
          (cred ∷ [])
          (record { authorization = header; session_user_id = some (codes "u") }))
    × (is_of_token (
          get_current_principal reverse 9
            (user ∷ [])
            (cred ∷ [])
            (record { authorization = header; session_user_id = none }))
        ≡ true)
unfolding is_bearer partition lower text_eq
get_current_principal_bearer_example =
    get_current_principal_bearer reverse 9 (user ∷ []) (cred ∷ []) header none (some (codes "u"))
      refl

require_scope-get_current_principal_example :
    is_returned (
      require_scope (codes "imap") (
        get_current_principal reverse 9
          (user ∷ [])
          (cred ∷ [])
          (record { authorization = header; session_user_id = none })))
    ≡ is_ok (bearer_verified reverse 9 (user ∷ []) (cred ∷ []) header (some (codes "imap"))).result
unfolding is_bearer partition lower text_eq
require_scope-get_current_principal_example =
    require_scope-get_current_principal reverse 9 (user ∷ []) (cred ∷ [])
      (record { authorization = header; session_user_id = none }) (codes "imap") refl

passdb_verify_unauthorized_example :
    (prefix : Text) × ((secret : Text) × ((c : AppCredential) × ((u : User) × ((split_token
                (codes "mfb_p_z")
              ≡ some (prefix, secret))
            × ((get_credential prefix (cred ∷ []) ≡ some c)
                × ((get_user c.user_id (user ∷ []) ≡ some u) × (u.username ≡ codes "ann")))))))
unfolding passdb_verify verify_credential split_token get_credential get_user check_credential
    is_active new_credential is_in scope_set text_eq sorted
passdb_verify_unauthorized_example =
    passdb_verify_unauthorized reverse 9 (user ∷ []) (cred ∷ []) (codes "ann") (codes "mfb_p_z")
      none refl
