-- ===== src/Constants.antt =====
-- src/mailfallback/constants.py, as far as the modelled components share it.
use mailfallback.Prelude.Text.{Text, codes}

abbrev pub token_refresh_failed : Text
token_refresh_failed = codes "Failed to refresh OAuth2 token"
