-- ===== src/SyncProgress/Errors.antt =====
-- The error categories of sync_progress.py and the headline of a failed sync.
use mailfallback.Prelude.{
  Bool, true, false, ◌&&◌, Option, none, some, List, [], ◌∷◌, ◌++◌, String, if◌then◌else◌,
}
use mailfallback.Prelude.Text.{Text, codes}
use mailfallback.Regex.{
  Pattern, many, literal, literal_i, some_of, non_space, not_newline, search_first,
}
use mailfallback.Constants.{token_refresh_failed}

pub data Category : Type 0 where
  runtime_cap timeout internal_host unresolved_host token_refresh auth network disk rate_limit tls
        config server unknown :
      Category

unfoldable pub Category-discrete : Discrete Category
Category-discrete = hlevel

pub data Action : Type 0 where
  reauth retry admin no_action : Action

-- A row of `_ERROR_CATEGORIES`.
pub record Row : Type 0 where
  pub patterns : List Pattern
  pub category : Category
  pub user_message : String
  pub action : Action

-- A regular expression of plain words, under IGNORECASE.
abbrev pub words : List String → List Pattern
words [] = []
words (w ∷ ws) = literal_i (codes w) [] ∷ words ws

abbrev pub runtime_cap_pattern : Pattern
runtime_cap_pattern =
    literal_i (codes "exceeded the ") (some_of non_space (literal_i (codes " runtime cap") []))

-- The rows for MFB's own messages.
abbrev own_rows : List Row
own_rows =
    record {
      patterns = runtime_cap_pattern ∷ [];
      category = runtime_cap;
      user_message =
          "The sync ran past its time limit and was stopped. The next sync continues where it left off.";
      action = retry;
    }
    ∷ record {
      patterns = words ("Sync timed out after" ∷ []);
      category = timeout;
      user_message =
          "The sync took too long and was stopped. The next sync continues where it left off.";
      action = retry;
    }
    ∷ record {
      patterns = words ("private/internal addresses are not allowed" ∷ []);
      category = internal_host;
      user_message =
          "The IMAP host points to a private network address, which MFB refuses to connect to.";
      action = admin;
    }
    ∷ record {
      patterns = words ("Host could not be resolved" ∷ []);
      category = unresolved_host;
      user_message = "Couldn't find the IMAP host.";
      action = admin;
    }
    ∷ record {
      patterns = literal token_refresh_failed [] ∷ [];
      category = token_refresh;
      user_message = "Couldn't refresh the sign-in. It retries on the next sync.";
      action = reauth;
    }
    ∷ []

-- The rows for what mbsync and mail servers print.
abbrev server_rows : List Row
server_rows =
    record {
      patterns = words (
          "AUTHENTICATIONFAILED" ∷ "LOGIN failed" ∷ "Invalid credentials" ∷ "authentication failed"
          ∷ []);
      category = auth;
      user_message = "The server rejected the sign-in.";
      action = reauth;
    }
    ∷ record {
      patterns = words (
          "Connection refused" ∷ "could not connect" ∷ "connection timed out" ∷ "getaddrinfo"
          ∷ "Name or service not known" ∷ []);
      category = network;
      user_message = "Couldn't reach the mail server.";
      action = retry;
    }
    ∷ record {
      patterns = words ("SSL" ∷ "TLS error" ∷ "certificate" ∷ "handshake" ∷ []);
      category = tls;
      user_message = "Couldn't set up an encrypted connection.";
      action = retry;
    }
    ∷ record {
      patterns =
          words ("Permission denied" ∷ "No space" ∷ "disk full" ∷ "I/O error" ∷ "read-only" ∷ []);
      category = disk;
      user_message = "Couldn't write to the mail store.";
      action = admin;
    }
    ∷ record {
      patterns = words ("Too many connections" ∷ "OVERQUOTA" ∷ "throttl" ∷ []);
      category = rate_limit;
      user_message = "The server is limiting connections.";
      action = retry;
    }
    ∷ record {
      patterns = words ("not configured" ∷ "configuration" ∷ "syntax error" ∷ []);
      category = config;
      user_message = "The sync configuration has an error.";
      action = admin;
    }
    ∷ record {
      patterns =
          literal_i (codes "protocol error") []
          ∷ literal_i (codes "mailbox ") (many not_newline ∷ literal_i (codes " unavailable") [])
          ∷ literal_i (codes "BYE ") (many not_newline ∷ literal_i (codes " closing") [])
          ∷ [];
      category = server;
      user_message = "The mail server returned an error.";
      action = admin;
    }
    ∷ []

unfoldable pub error_categories : List Row
error_categories = own_rows ++ server_rows

abbrev pub unknown_error_message : String
unknown_error_message = "The last sync failed."

abbrev pub unknown_row : Row
unknown_row = record {
  patterns = [];
  category = unknown;
  user_message = unknown_error_message;
  action = no_action;
}

-- The first row with a pattern that matches anywhere in the text.
unfoldable pub first_row : List Row → Text → Row
first_row [] text = unknown_row
first_row (r ∷ rows) text = elim (search_first r.patterns text) [
  | some groups ↦ r
  | none ↦ first_row rows text
]

-- `_classify_error`.
unfoldable pub classify_error : Text → Row
unfolding first_row
classify_error text = first_row error_categories text

-- `error_category`: `if text` is false of `None` and of the empty text.
unfoldable pub error_category : Option Text → Category
error_category none = unknown
error_category (some []) = unknown
error_category (some (c ∷ s)) = (classify_error (c ∷ s)).category

-- `_CATEGORY_MESSAGES.get(category, UNKNOWN_ERROR_MESSAGE)`; a later row of a category would win,
-- and every category has one row.
unfoldable pub category_message : List Row → Category → String
unfolding Category-discrete
category_message [] c = unknown_error_message
category_message (r ∷ rows) c = elim (Category-discrete r.category c) [
  | yes same ↦ r.user_message
  | no other ↦ category_message rows c
]

abbrev pub is_auth : Category → Bool
is_auth auth = true
is_auth _ = false

unfoldable pub describe_error : Option Text → Bool → String
unfolding category_message
describe_error none app_password = unknown_error_message
describe_error (some []) app_password = unknown_error_message
describe_error (some (c ∷ s)) app_password =
    let category = error_category (some (c ∷ s)) in
    if is_auth category && app_password
    then "The server rejected the password."
    else category_message error_categories category
