-- ===== src/NotificationService.antt =====
-- src/mailfallback/services/notification_service.py, as far as the sync worker uses it: a problem
-- is sent once on entering its state, an event always. What is sent is a list of event keys.
use mailfallback.Prelude.{none, some, List, [], ◌∷◌, if◌then◌else◌}
use mailfallback.Prelude.Text.{Text, option_text_eq}
use mailfallback.Models.{Account}

-- The account after the call, and the keys sent.
unfoldable pub notify_account_problem : Text → Account → Account × List Text
unfolding option_text_eq
notify_account_problem event_key a =
    if option_text_eq a.last_notified_state (some event_key)
    then (a, [])
    else (record a { last_notified_state = some event_key }, event_key ∷ [])

abbrev pub clear_notified_state : Account → Account
clear_notified_state a = record a { last_notified_state = none }
