-- ===== src/SyncProgress/Patterns.antt =====
-- The compiled regular expressions of sync_progress.py that read mbsync's lines. Those that the
-- code runs by `match` begin with `^`, which is what `match_first` means.
use mailfallback.Prelude.{ℕ, Bool, List, [], ◌∷◌}
use mailfallback.Prelude.Text.{Text, codes, is_space}
use mailfallback.Regex.{
  Pattern, many, open_group, close_group, literal, literal_i, some_of, digit, word, non_space,
  not_newline, colon_or_space,
}

-- `(k+)` and `(\d+)` before the rest.
abbrev captured : (ℕ → Bool) → Pattern → Pattern
captured k p = open_group ∷ some_of k (close_group ∷ p)

abbrev num : Pattern → Pattern
num p = captured digit p

unfoldable pub re_version : List Pattern
re_version = literal (codes "isync ") (captured non_space []) ∷ []

unfoldable pub re_channel : List Pattern
re_channel = literal (codes "Channel ") (captured non_space []) ∷ []

unfoldable pub re_resolving : List Pattern
re_resolving = literal (codes "Resolving ") (captured non_space []) ∷ []

unfoldable pub re_connecting : List Pattern
re_connecting =
    literal (codes "Connecting to ") (
      captured non_space (
        literal (codes " (")
          (captured not_newline (literal (codes ":") (num (literal (codes ")") []))))))
    ∷ []

unfoldable pub re_tls : List Pattern
re_tls = literal (codes "Connection is now encrypted") [] ∷ []

unfoldable pub re_auth_sasl : List Pattern
re_auth_sasl = literal (codes "Authenticating with SASL mechanism ") (captured word []) ∷ []

unfoldable pub re_auth_login : List Pattern
re_auth_login =
    literal (codes "Logging in as ")
      (some_of non_space (literal (codes " (") (captured non_space (literal (codes ")") []))))
    ∷ []

unfoldable pub re_folder_open : List Pattern
re_folder_open =
    literal (codes "Opening far side box ") (captured not_newline (literal (codes "...") [])) ∷ []

-- `messages?` is two alternatives.
abbrev count_tail : List Text → Text → List Pattern
count_tail [] side = []
count_tail (w ∷ ws) side =
    literal side (num (literal w (num (literal (codes " recent") [])))) ∷ count_tail ws side

abbrev message_words : List Text
message_words = codes " messages, " ∷ codes " message, " ∷ []

unfoldable pub re_near_count : List Pattern
re_near_count = count_tail message_words (codes "near side: ")

unfoldable pub re_far_count : List Pattern
re_far_count = count_tail message_words (codes "far side: ")

unfoldable pub re_synchronizing : List Pattern
re_synchronizing = literal (codes "Synchronizing...") [] ∷ []

-- `+(\d+)/(\d+) *(\d+)/(\d+) #(\d+)/(\d+)`.
abbrev pair : Text → Pattern → Pattern
pair sign p = literal sign (num (literal (codes "/") (num p)))

abbrev counters : Pattern
counters = pair (codes "+") (pair (codes " *") (pair (codes " #") []))

unfoldable pub re_progress_f : List Pattern
re_progress_f = literal (codes "F: ") counters ∷ []

unfoldable pub re_progress_n : List Pattern
re_progress_n = literal (codes "N: ") counters ∷ []

unfoldable pub re_pulling : List Pattern
re_pulling = literal (codes "Pulling new message ") (num (literal (codes "/") (num []))) ∷ []

abbrev spaced : Text → Pattern → Pattern
spaced sign p = some_of is_space (literal sign (num p))

-- `Side:\s+\+(\d+)\s+\*(\d+)\s+#(\d+)\s+-(\d+)`.
abbrev side_counts : Text → Pattern → Pattern
side_counts side p =
    literal side
      (spaced (codes "+") (spaced (codes "*") (spaced (codes "#") (spaced (codes "-") p))))

unfoldable pub re_summary : List Pattern
re_summary =
    literal (codes "Channels:") (
      spaced [] (
        some_of is_space (
          literal (codes "Boxes:") (
            spaced [] (
              some_of is_space (
                side_counts (codes "Far:") (some_of is_space (side_counts (codes "Near:") []))))))))
    ∷ []

-- `[:\s]+(.*)`.
abbrev message_rest : Pattern
message_rest = some_of colon_or_space (open_group ∷ many not_newline ∷ close_group ∷ [])

unfoldable pub re_warning : List Pattern
re_warning =
    literal_i (codes "Warning") message_rest ∷ literal_i (codes "Maildir error") message_rest ∷ []

unfoldable pub re_error_line : List Pattern
re_error_line =
    literal_i (codes "Error") message_rest ∷ literal_i (codes "IMAP error") message_rest ∷ []

-- All of them, to be opened together in a run.
unfoldable pub patterns : List (List Pattern)
unfolding re_version re_channel re_resolving re_connecting re_tls re_auth_sasl re_auth_login
    re_folder_open re_near_count re_far_count re_synchronizing re_progress_f re_progress_n
    re_pulling re_summary re_warning re_error_line literal literal_i
patterns =
    re_version ∷ re_channel ∷ re_resolving ∷ re_connecting ∷ re_tls ∷ re_auth_sasl ∷ re_auth_login
    ∷ re_folder_open ∷ re_near_count ∷ re_far_count ∷ re_synchronizing ∷ re_progress_f
    ∷ re_progress_n ∷ re_pulling ∷ re_summary ∷ re_warning ∷ re_error_line ∷ []
