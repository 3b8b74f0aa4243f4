-- ===== src/AppCredentialService/Tests.antt =====
-- A token through its life. The hash of the tests reverses the secret.
use mathlib.Core.List.{reverse}
use mailfallback.Prelude.{true, false, none, some, List, [], ◌∷◌, ◌≡◌, refl}
use mailfallback.Prelude.Text.{Text, codes, text_eq}
use mailfallback.Models.{AppCredential, User, UserRole}
use mailfallback.Models.Queries.{get_user}
use mailfallback.AppCredentialService.{
  VerifyResult, create_credential, is_ok, new_credential, record_use, revoke_credential,
  verify_credential, get_credential, is_in, is_active, split_token,
}
use mailfallback.AppCredentialService.Verifying.{verify_credential-create_credential}
use mailfallback.AppCredentialService.Revoking.{verify_credential-revoke_credential}

abbrev user : User
user = record {
  id = codes "u";
  username = codes "ann";
  role = UserRole.user;
  enabled = true;
  store_id = codes "s1";
  migrating = false;
  allowed_stores = [];
}

abbrev scopes : List Text
scopes = codes "mail:read" ∷ codes "imap" ∷ []

abbrev cred : AppCredential
cred =
    new_credential reverse (codes "c") (codes "p") (codes "xy") 5 user (codes "laptop") scopes
      (some 30)

abbrev token : Text
token = codes "mfb_p_xy"

verify_credential-create_credential_example :
    verify_credential reverse 9
      (user ∷ [])
      (some (codes "ann"))
      token
      (some (codes "imap"))
      (codes "imap")
      (cred ∷ [])
    ≡ (record {
      result = VerifyResult.ok;
      credential =
          some (record cred { last_used_at = some 9; last_used_kind = some (codes "imap") });
      rows = record_use (codes "p") 9 (codes "imap") (cred ∷ []);
    })
unfolding get_credential create_credential get_user text_eq is_in is_active new_credential
verify_credential-create_credential_example =
    verify_credential-create_credential reverse (codes "c") (codes "p") (codes "xy") 5 9 user
      (codes "laptop") scopes (some 30) [] (cred ∷ []) cred token (user ∷ []) (some (codes "ann"))
      (some (codes "imap")) (codes "imap") refl refl refl refl refl refl refl refl refl refl refl

verify_credential-revoke_credential_example :
    is_ok
      (verify_credential reverse 9
        (user ∷ [])
        none
        token
        none
        (codes "api")
        (revoke_credential 7 cred.user_id (codes "c") (cred ∷ [])).0).result
    ≡ false
unfolding get_credential split_token text_eq new_credential
verify_credential-revoke_credential_example =
    verify_credential-revoke_credential reverse 7 9 (codes "c") (codes "p") (codes "xy") (cred ∷ [])
      cred (user ∷ []) none none token (codes "api") refl refl refl refl
