-- ===== src/MailboxStatus/SignIn.antt =====
-- The sign-in copy of mailbox_status.py.
use mailfallback.Prelude.{Bool, not, ◌&&◌, some, ◌++◌, is_none, if◌then◌else◌}
use mailfallback.Prelude.Text.{Text, codes, text_eq, option_text_eq}
use mailfallback.Constants.{token_refresh_failed}
use mailfallback.Models.{Account, is_authenticated, is_error, is_oauth2}

abbrev pub sign_in_refresh : Text
sign_in_refresh = codes "Couldn't refresh the sign-in. It retries on the next sync; "

abbrev pub sign_in_ask_owner : Text
sign_in_ask_owner = codes "Sign-in expired. Ask the mailbox owner or an admin to reconnect it."

abbrev pub sign_in_refresh_ask_owner : Text
sign_in_refresh_ask_owner =
    sign_in_refresh
    ++ codes "if this keeps happening, ask the mailbox owner or an admin to reconnect it."

abbrev pub sign_in_pending_ask_owner : Text
sign_in_pending_ask_owner =
    codes "Sign-in not completed. Ask the mailbox owner or an admin to connect it."

unfoldable pub is_refresh_retry : Account → Bool
unfolding option_text_eq is_authenticated
is_refresh_retry a =
    is_error a.sync_state
    && is_oauth2 a.auth_type
    && option_text_eq a.last_error (some token_refresh_failed)
    && is_authenticated a

unfoldable pub sign_in_never_completed : Account → Bool
unfolding is_authenticated
sign_in_never_completed a = not (is_authenticated a) && is_none a.last_sync_at

unfoldable pub signin_name : Account → Text
signin_name a =
    if text_eq a.provider (codes "google")
    then codes "Google sign-in"
    else if text_eq a.provider (codes "microsoft")
    then codes "Microsoft sign-in"
    else codes "Sign-in"

unfoldable pub sign_in_detail : Account → Text
unfolding is_refresh_retry sign_in_never_completed signin_name
sign_in_detail a =
    if is_refresh_retry a
    then sign_in_refresh ++ codes "reconnect if this keeps happening."
    else if sign_in_never_completed a
    then signin_name a ++ codes " not completed. Connect to start syncing."
    else signin_name a ++ codes " expired. Reconnect to resume syncing."

unfoldable pub sign_in_message : Account → Bool → Text
unfolding sign_in_detail is_refresh_retry sign_in_never_completed
sign_in_message a can_modify =
    if can_modify
    then sign_in_detail a
    else if is_refresh_retry a
    then sign_in_refresh_ask_owner
    else if sign_in_never_completed a
    then sign_in_pending_ask_owner
    else sign_in_ask_owner
