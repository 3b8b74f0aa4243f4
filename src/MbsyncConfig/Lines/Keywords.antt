-- ===== src/MbsyncConfig/Lines/Keywords.antt =====
-- The words that a line of a configuration starts with.
use mathlib.Core.List.{append_assoc}
use mailfallback.Prelude.{
  ℕ, ◌==◌, Bool, true, false, not, ◌&&◌, ◌||◌, Option, none, some, List, [], ◌∷◌, ◌++◌, all, any,
  ◌≡◌, refl, ◌∙◌, arith, ap,
}
use mailfallback.Prelude.Text.{Text, codes, decimal, join_lines, starts_with}
use mailfallback.AppCredentialService.{split_on}
use mailfallback.AppCredentialService.Splitting.{lacks, split_on-lacks, split_on-one}
use mailfallback.Models.{AuthType}
use mailfallback.MbsyncConfig.{
  MbsyncOptions, account_lines, auth_lines, channel_lines, channel_name, config_lines,
  generate_mbsyncrc, get_extra, is_password, namespace_line, option_line, or_default, patterns_of,
  quoted, sanitize_value, store_lines, when,
}
use mailfallback.MbsyncConfig.Lines.{
  all-append, lacks-channel_name, lacks-decimal, lacks-get_extra, lacks-rstrip_slash,
  lacks-sanitize_value,
}
use mailfallback.StoreService.Paths.{rstrip_slash}

abbrev pub keywords : List Text
keywords =
    codes "IMAPAccount "
    ∷ codes "Host "
    ∷ codes "Port "
    ∷ codes "User "
    ∷ codes "TLSType "
    ∷ codes "TLSVersions "
    ∷ codes "CertificateFile "
    ∷ codes "ClientCertificate "
    ∷ codes "ClientKey "
    ∷ codes "AuthMechs "
    ∷ codes "PassCmd \""
    ∷ codes "Pass \""
    ∷ codes "Timeout "
    ∷ codes "PipelineDepth "
    ∷ codes "DisableExtensions "
    ∷ codes "IMAPStore "
    ∷ codes "Account "
    ∷ codes "UseNamespace "
    ∷ codes "PathDelimiter "
    ∷ codes "MaildirStore "
    ∷ codes "Path "
    ∷ codes "Inbox "
    ∷ codes "SubFolders Verbatim"
    ∷ codes "Channel "
    ∷ codes "Far :"
    ∷ codes "Near :"
    ∷ codes "Patterns "
    ∷ codes "Sync "
    ∷ codes "Create "
    ∷ codes "Expunge "
    ∷ codes "MaxMessages "
    ∷ codes "MaxSize "
    ∷ codes "CopyArrivalDate yes"
    ∷ codes "SyncState *"
    ∷ []

abbrev is_blank : Text → Bool
is_blank [] = true
is_blank (c ∷ s) = false

-- A line that is empty or starts with one of the words.
unfoldable pub is_known : Text → Bool
unfolding starts_with
is_known line = is_blank line || any (starts_with line) keywords

-- The same, and without a line feed.
abbrev is_line : Text → Bool
is_line line = lacks 10 line && is_known line

Started : Text → Type 0
Started keyword = (v : Text) → is_known (keyword ++ v) ≡ true

line :
    (keyword v : Text)
    → lacks 10 keyword ≡ true
    → is_known (keyword ++ v) ≡ true
    → lacks 10 v ≡ true
    → is_line (keyword ++ v) ≡ true
line keyword v k s h = ground (arith, all-append (λ (x : ℕ). not (x == 10)) keyword v)

-- Every line of a list is one of those.
pub record AreLines (xs : List Text) : Type 0 where
  pub lines : all is_line xs ≡ true

both : {xs ys : List Text} → AreLines xs → AreLines ys → AreLines (xs ++ ys)
both {xs = xs} {ys = ys} h h' = record {
  lines = ground (arith, h.lines, h'.lines, all-append is_line xs ys);
}

more : {x : Text} {ys : List Text} → is_line x ≡ true → AreLines ys → AreLines (x ∷ ys)
more {x = x} {ys = ys} h h' = record { lines = ground (arith, h, h'.lines) }

nothing : AreLines []
nothing = record { lines = refl }

lacks_tail :
    (v tail : Text) → lacks 10 v ≡ true → lacks 10 tail ≡ true → lacks 10 (v ++ tail) ≡ true
lacks_tail v tail h h' = ground (arith, all-append (λ (x : ℕ). not (x == 10)) v tail)

option_lines :
    (keyword : Text) (o : Option Text)
    → lacks 10 keyword ≡ true
    → Started keyword
    → lacks 10 (or_default [] o) ≡ true
    → AreLines (option_line keyword o)
unfolding option_line Started
option_lines keyword none k s h = nothing
option_lines keyword (some []) k s h = nothing
option_lines keyword (some (c ∷ v)) k s h = more (line keyword (c ∷ v) k (s (c ∷ v)) h) nothing

extra_lines :
    (keyword key : Text) (items : List (Text × Text))
    → lacks 10 keyword ≡ true
    → Started keyword
    → AreLines (option_line keyword (get_extra key items))
extra_lines keyword key items k s =
    option_lines keyword (get_extra key items) k s (lacks-get_extra key items [] refl)

when_line : (b : Bool) (x : Text) → is_line x ≡ true → AreLines (when b x)
when_line true x h = more h nothing
when_line false x h = nothing

lacks-quoted : (o : Option Text) → lacks 10 (quoted o) ≡ true
unfolding quoted
lacks-quoted none = refl
lacks-quoted (some s) = ground (
  arith,
  lacks-sanitize_value s,
  lacks_tail (sanitize_value s) (codes "\"") (lacks-sanitize_value s) refl,
)

quoted_started :
    (o : Option Text)
    → (is_known (codes "PassCmd " ++ quoted o) ≡ true)
      × (is_known (codes "Pass " ++ quoted o) ≡ true)
unfolding quoted is_known starts_with
quoted_started none = (refl, refl)
quoted_started (some s) = (refl, refl)

auth_lines-known : (t : AuthType) (o : MbsyncOptions) → AreLines (auth_lines t o)
unfolding auth_lines is_known Started starts_with
auth_lines-known AuthType.oauth2 o = more {x = codes "AuthMechs XOAUTH2"} refl (
    more
      (line (codes "PassCmd ") (quoted o.token_command) refl (quoted_started o.token_command).0
        (lacks-quoted o.token_command))
      nothing)
auth_lines-known AuthType.app_password o =
    both (extra_lines (codes "AuthMechs ") (codes "auth_mechs") o.extra refl (λ v. refl)) (
      when_line (is_password o.password) (codes "Pass " ++ quoted o.password) (
        line (codes "Pass ") (quoted o.password) refl (quoted_started o.password).1
          (lacks-quoted o.password)))

account_lines-known : (o : MbsyncOptions) → AreLines (account_lines o)
unfolding account_lines is_known Started starts_with
account_lines-known o =
    more
      (line (codes "IMAPAccount ") (channel_name (sanitize_value o.account_name)) refl refl
        (lacks-channel_name (sanitize_value o.account_name)))
      (more
        (line (codes "Host ") (sanitize_value o.imap_host) refl refl
          (lacks-sanitize_value o.imap_host))
        (more (line (codes "Port ") (decimal o.imap_port) refl refl (lacks-decimal o.imap_port)) (
          more
            (line (codes "User ") (sanitize_value o.username) refl refl
              (lacks-sanitize_value o.username))
            (both
              (when_line _ (codes "TLSType " ++ sanitize_value o.tls_type) (
                line (codes "TLSType ") (sanitize_value o.tls_type) refl refl
                  (lacks-sanitize_value o.tls_type)))
              (both
                (extra_lines (codes "TLSVersions ") (codes "tls_versions") o.extra refl (λ v. refl))
                (more
                  (line (codes "CertificateFile ")
                    (or_default (codes "/etc/ssl/certs/ca-certificates.crt")
                      (get_extra (codes "certificate_file") o.extra))
                    refl refl
                    (lacks-get_extra (codes "certificate_file") o.extra
                      (codes "/etc/ssl/certs/ca-certificates.crt") refl))
                  (both
                    (extra_lines (codes "ClientCertificate ") (codes "client_certificate") o.extra
                      refl (λ v. refl))
                    (both
                      (extra_lines (codes "ClientKey ") (codes "client_key") o.extra refl
                        (λ v. refl))
                      (both (auth_lines-known o.auth_type o) (
                        both
                          (extra_lines (codes "Timeout ") (codes "timeout") o.extra refl
                            (λ v. refl))
                          (both
                            (extra_lines (codes "PipelineDepth ") (codes "pipeline_depth") o.extra
                              refl (λ v. refl))
                            (extra_lines (codes "DisableExtensions ") (codes "disable_extensions")
                              o.extra refl (λ v. refl)))))))))))))

namespace_line-known : (n : Option Text) → AreLines (namespace_line n)
unfolding namespace_line is_known starts_with
namespace_line-known none = nothing
namespace_line-known (some []) = more {x = codes "UseNamespace no"} refl nothing
namespace_line-known (some (c ∷ s)) = more {x = codes "UseNamespace yes"} refl nothing

store_lines-known : (o : MbsyncOptions) → AreLines (store_lines o)
unfolding store_lines is_known Started starts_with
store_lines-known o =
    let name = channel_name (sanitize_value o.account_name) in
    let path = rstrip_slash (sanitize_value o.maildir_path) in
    let named : (tail : Text) → lacks 10 tail ≡ true → lacks 10 (name ++ tail) ≡ true =
      λ tail h. lacks_tail name tail (lacks-channel_name (sanitize_value o.account_name)) h in
    let placed : (tail : Text) → lacks 10 tail ≡ true → lacks 10 (path ++ tail) ≡ true = λ tail h.
      lacks_tail path tail
        (lacks-rstrip_slash (sanitize_value o.maildir_path) (lacks-sanitize_value o.maildir_path))
        h in
    more {x = []} refl (
      more
        (line (codes "IMAPStore ") (name ++ codes "-remote") refl refl
          (named (codes "-remote") refl))
        (more
          (line (codes "Account ") name refl refl
            (lacks-channel_name (sanitize_value o.account_name)))
          (both (namespace_line-known (get_extra (codes "use_namespace") o.extra)) (
            both
              (extra_lines (codes "PathDelimiter ") (codes "path_delimiter") o.extra refl
                (λ v. refl))
              (more {x = []} refl (
                more
                  (line (codes "MaildirStore ") (name ++ codes "-local") refl refl
                    (named (codes "-local") refl))
                  (more
                    (line (codes "Path ") (path ++ codes "/") refl refl (placed (codes "/") refl))
                    (more
                      (line (codes "Inbox ") (path ++ codes "/INBOX") refl refl
                        (placed (codes "/INBOX") refl))
                      (more {x = codes "SubFolders Verbatim"} refl nothing)))))))))

lacks-patterns_of : (o : MbsyncOptions) → lacks 10 (patterns_of o) ≡ true
unfolding patterns_of
lacks-patterns_of o =
    let given = or_default (codes "*") (get_extra (codes "patterns") o.extra) in
    lacks_tail given _ (lacks-get_extra (codes "patterns") o.extra (codes "*") refl) refl

channel_lines-known : (o : MbsyncOptions) → AreLines (channel_lines o)
unfolding channel_lines is_known Started starts_with
channel_lines-known o =
    let name = channel_name (sanitize_value o.account_name) in
    let named : (tail : Text) → lacks 10 tail ≡ true → lacks 10 (name ++ tail) ≡ true =
      λ tail h. lacks_tail name tail (lacks-channel_name (sanitize_value o.account_name)) h in
    more {x = []} refl (
      more
        (line (codes "Channel ") name refl refl
          (lacks-channel_name (sanitize_value o.account_name)))
        (more
          (line (codes "Far :") (name ++ codes "-remote:") refl refl
            (named (codes "-remote:") refl))
          (more
            (line (codes "Near :") (name ++ codes "-local:") refl refl
              (named (codes "-local:") refl))
            (more (line (codes "Patterns ") (patterns_of o) refl refl (lacks-patterns_of o)) (
              more
                (line (codes "Sync ") (or_default (codes "Pull") (get_extra (codes "sync") o.extra))
                  refl refl (lacks-get_extra (codes "sync") o.extra (codes "Pull") refl))
                (more
                  (line (codes "Create ")
                    (or_default (codes "Near") (get_extra (codes "create") o.extra)) refl refl
                    (lacks-get_extra (codes "create") o.extra (codes "Near") refl))
                  (more
                    (line (codes "Expunge ")
                      (or_default (codes "None") (get_extra (codes "expunge") o.extra)) refl refl
                      (lacks-get_extra (codes "expunge") o.extra (codes "None") refl))
                    (both
                      (extra_lines (codes "MaxMessages ") (codes "max_messages") o.extra refl
                        (λ v. refl))
                      (both
                        (extra_lines (codes "MaxSize ") (codes "max_size") o.extra refl (λ v. refl))
                        (both (when_line _ (codes "CopyArrivalDate yes") refl)
                          (more {x = codes "SyncState *"} refl nothing)))))))))))

config_lines-known : (o : MbsyncOptions) → AreLines (config_lines o)
unfolding config_lines
config_lines-known o =
    both (account_lines-known o) (both (store_lines-known o) (channel_lines-known o))

split_on-join_lines :
    (x : Text) (xs : List Text)
    → all is_line (x ∷ xs) ≡ true
    → split_on 10 [] (join_lines (x ∷ xs) ++ 10 ∷ []) ≡ (x ∷ xs) ++ ([] ∷ [])
unfolding join_lines
split_on-join_lines x [] h =
    split_on-lacks 10 [] x [] (ground arith)
    ∙ ap (λ (t : List Text). x ∷ t) (split_on-one 10 [] [] refl)
split_on-join_lines x (y ∷ xs) h = ground (
  arith,
  append_assoc x (10 ∷ join_lines (y ∷ xs)) (10 ∷ []),
  split_on-lacks 10 [] x (join_lines (y ∷ xs) ++ 10 ∷ []),
  split_on-join_lines y xs,
)

blank_known : is_known [] ≡ true
unfolding is_known
blank_known = refl

known_only : (xs : List Text) → all is_line xs ≡ true → all is_known (xs ++ ([] ∷ [])) ≡ true
known_only [] h = ground (arith, blank_known)
known_only (x ∷ xs) h = ground (arith, known_only xs)

known_text :
    (xs : List Text) → AreLines xs → all is_known (split_on 10 [] (join_lines xs ++ 10 ∷ [])) ≡ true
unfolding join_lines split_on is_known starts_with
known_text [] h = refl
known_text (x ∷ xs) h = rw (split_on-join_lines x xs h.lines) (known_only (x ∷ xs) h.lines)

-- Whatever the account's name, host, user, path, password, command and extra options hold, line
-- feeds included, every line of the configuration is empty or starts with one of the words that
-- the generator writes: no value begins a line of its own.
pub generate_mbsyncrc-is_known :
    (o : MbsyncOptions) → all is_known (split_on 10 [] (generate_mbsyncrc o)) ≡ true
unfolding generate_mbsyncrc
generate_mbsyncrc-is_known o = known_text (config_lines o) (config_lines-known o)
