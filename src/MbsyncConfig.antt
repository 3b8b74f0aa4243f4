-- ===== src/MbsyncConfig.antt =====
-- generate_mbsyncrc and channel_name of src/mailfallback/services/mbsync_config.py. The items of
-- the extra options that are true, as texts, are an argument, for json.loads.
pub mod Lines
mod Tests
use mailfallback.Prelude.{
  ℕ, ◌==◌, Bool, true, false, not, ltb, Option, none, some, List, [], ◌∷◌, ◌++◌, keep, map,
  if◌then◌else◌, is_some, ◌&&◌,
}
use mailfallback.Prelude.Text.{
  Text, codes, decimal, join_lines, lower, replace_char, strip, text_eq,
}
use mailfallback.FolderReconcile.{removed_container}
use mailfallback.Models.{AuthType, truthy}
use mailfallback.StoreService.Paths.{rstrip_slash}

-- `re.sub(r"[\n\r\x00-\x1f]", "", value).strip()`.
unfoldable pub sanitize_value : Text → Text
unfolding strip
sanitize_value value = strip (keep (λ (c : ℕ). not (ltb c 0x20)) value)

unfoldable pub channel_name : Text → Text
unfolding sanitize_value lower replace_char
channel_name account_name = replace_char b' ' b'_' (lower (sanitize_value account_name))

-- `extra.get(key)`, sanitized.
unfoldable pub get_extra : Text → List (Text × Text) → Option Text
unfolding sanitize_value
get_extra key [] = none
get_extra key ((k, value) ∷ items) =
    let rest = get_extra key items in if text_eq k key then some (sanitize_value value) else rest

-- `extra.get(key, default)`.
abbrev pub or_default : Text → Option Text → Text
or_default default none = default
or_default default (some value) = value

-- A line for an option that is there and not empty.
unfoldable pub option_line : Text → Option Text → List Text
option_line keyword none = []
option_line keyword (some []) = []
option_line keyword (some (c ∷ s)) = (keyword ++ c ∷ s) ∷ []

-- A line for a text that is not empty.
abbrev pub when : Bool → Text → List Text
when true line = line ∷ []
when false line = []

pub record MbsyncOptions : Type 0 where
  pub account_name : Text
  pub imap_host : Text
  pub imap_port : ℕ
  pub username : Text
  pub auth_type : AuthType
  pub maildir_path : Text
  pub tls_type : Text
  pub password : Option Text
  pub token_command : Option Text
  pub extra : List (Text × Text)

-- `if password:` after the value was sanitized.
abbrev pub is_password : Option Text → Bool
is_password none = false
is_password (some s) = truthy (some (sanitize_value s))

-- A password or command is sanitized where it is not empty; without one its text is `None`.
unfoldable pub quoted : Option Text → Text
unfolding sanitize_value
quoted none = codes "\"None\""
quoted (some s) = b'"' ∷ sanitize_value s ++ codes "\""

unfoldable pub auth_lines : AuthType → MbsyncOptions → List Text
unfolding quoted get_extra option_line
auth_lines AuthType.oauth2 o =
    codes "AuthMechs XOAUTH2" ∷ (codes "PassCmd " ++ quoted o.token_command) ∷ []
auth_lines AuthType.app_password o =
    option_line (codes "AuthMechs ") (get_extra (codes "auth_mechs") o.extra)
    ++ when (is_password o.password) (codes "Pass " ++ quoted o.password)

-- The account.
unfoldable pub account_lines : MbsyncOptions → List Text
unfolding channel_name sanitize_value get_extra option_line auth_lines
account_lines o =
    let tls = sanitize_value o.tls_type in
    (codes "IMAPAccount " ++ channel_name (sanitize_value o.account_name))
    ∷ (codes "Host " ++ sanitize_value o.imap_host)
    ∷ (codes "Port " ++ decimal o.imap_port)
    ∷ (codes "User " ++ sanitize_value o.username)
    ∷ (when (truthy (some tls) && not (text_eq tls (codes "None"))) (codes "TLSType " ++ tls)
        ++ (option_line (codes "TLSVersions ") (get_extra (codes "tls_versions") o.extra)
            ++ ((codes "CertificateFile "
                  ++ or_default (codes "/etc/ssl/certs/ca-certificates.crt")
                      (get_extra (codes "certificate_file") o.extra))
                ∷ (option_line (codes "ClientCertificate ")
                      (get_extra (codes "client_certificate") o.extra)
                    ++ (option_line (codes "ClientKey ") (get_extra (codes "client_key") o.extra)
                        ++ (auth_lines o.auth_type o
                            ++ (option_line (codes "Timeout ") (get_extra (codes "timeout") o.extra)
                                ++ (option_line (codes "PipelineDepth ")
                                      (get_extra (codes "pipeline_depth") o.extra)
                                    ++ option_line (codes "DisableExtensions ")
                                        (get_extra (codes "disable_extensions") o.extra)))))))))

-- `UseNamespace`, for an option that is there.
unfoldable pub namespace_line : Option Text → List Text
namespace_line none = []
namespace_line (some []) = codes "UseNamespace no" ∷ []
namespace_line (some (c ∷ s)) = codes "UseNamespace yes" ∷ []

-- The two stores.
unfoldable pub store_lines : MbsyncOptions → List Text
unfolding channel_name sanitize_value get_extra option_line namespace_line rstrip_slash
store_lines o =
    let safe_name = channel_name (sanitize_value o.account_name) in
    let path = rstrip_slash (sanitize_value o.maildir_path) in
    []
    ∷ (codes "IMAPStore " ++ (safe_name ++ codes "-remote"))
    ∷ (codes "Account " ++ safe_name)
    ∷ (namespace_line (get_extra (codes "use_namespace") o.extra)
        ++ (option_line (codes "PathDelimiter ") (get_extra (codes "path_delimiter") o.extra)
            ++ ([]
                ∷ (codes "MaildirStore " ++ (safe_name ++ codes "-local"))
                ∷ (codes "Path " ++ (path ++ codes "/"))
                ∷ (codes "Inbox " ++ (path ++ codes "/INBOX"))
                ∷ codes "SubFolders Verbatim"
                ∷ [])))

-- The user's patterns, and the negations of the container of quarantined folders.
unfoldable pub patterns_of : MbsyncOptions → Text
unfolding get_extra
patterns_of o =
    or_default (codes "*") (get_extra (codes "patterns") o.extra)
    ++ (codes " !\""
        ++ (removed_container ++ (codes "\" !\"" ++ (removed_container ++ codes "/*\""))))

-- The channel.
unfoldable pub channel_lines : MbsyncOptions → List Text
unfolding channel_name sanitize_value get_extra option_line patterns_of
channel_lines o =
    let safe_name = channel_name (sanitize_value o.account_name) in
    []
    ∷ (codes "Channel " ++ safe_name)
    ∷ (codes "Far :" ++ (safe_name ++ codes "-remote:"))
    ∷ (codes "Near :" ++ (safe_name ++ codes "-local:"))
    ∷ (codes "Patterns " ++ patterns_of o)
    ∷ (codes "Sync " ++ or_default (codes "Pull") (get_extra (codes "sync") o.extra))
    ∷ (codes "Create " ++ or_default (codes "Near") (get_extra (codes "create") o.extra))
    ∷ (codes "Expunge " ++ or_default (codes "None") (get_extra (codes "expunge") o.extra))
    ∷ (option_line (codes "MaxMessages ") (get_extra (codes "max_messages") o.extra)
        ++ (option_line (codes "MaxSize ") (get_extra (codes "max_size") o.extra)
            ++ (when (truthy (get_extra (codes "copy_arrival_date") o.extra))
                  (codes "CopyArrivalDate yes")
                ++ (codes "SyncState *" ∷ []))))

unfoldable pub config_lines : MbsyncOptions → List Text
unfolding account_lines store_lines channel_lines
config_lines o = account_lines o ++ (store_lines o ++ channel_lines o)

unfoldable pub generate_mbsyncrc : MbsyncOptions → Text
unfolding config_lines join_lines
generate_mbsyncrc o = join_lines (config_lines o) ++ 10 ∷ []
