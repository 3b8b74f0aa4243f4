-- ===== src/MbsyncConfig/Tests.antt =====
-- A configuration with a hostile user name.
use mailfallback.Prelude.{◌≡◌, true, none, some, [], ◌∷◌, ◌++◌, all}
use mailfallback.Prelude.Text.{codes}
use mailfallback.AppCredentialService.{split_on}
use mailfallback.Models.{AuthType}
use mailfallback.MbsyncConfig.{MbsyncOptions, generate_mbsyncrc}
use mailfallback.MbsyncConfig.Lines.Keywords.{generate_mbsyncrc-is_known, is_known}

abbrev options : MbsyncOptions
options = record {
  account_name = codes "My Mail";
  imap_host = codes "imap.example.org";
  imap_port = 993;
  username = codes "ann" ++ 10 ∷ codes "Host evil.example.org";
  auth_type = AuthType.app_password;
  maildir_path = codes "/data/a/";
  tls_type = codes "IMAPS";
  password = some (codes "secret");
  token_command = none;
  extra = (codes "timeout", codes "60") ∷ [];
}

generate_mbsyncrc-is_known_example :
    all is_known (split_on 10 [] (generate_mbsyncrc options)) ≡ true
generate_mbsyncrc-is_known_example = generate_mbsyncrc-is_known options
