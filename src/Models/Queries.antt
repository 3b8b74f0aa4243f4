-- ===== src/Models/Queries.antt =====
-- `db.query(T).filter(T.id == id).first()`: the first row of the id.
use mailfallback.Prelude.{Option, none, some, List, [], ◌∷◌, if◌then◌else◌}
use mailfallback.Prelude.Text.{Text, text_eq}
use mailfallback.Models.{Account, MailStore, User}

unfoldable pub get_account : Text → List Account → Option Account
get_account id [] = none
get_account id (a ∷ accounts) = if text_eq a.id id then some a else get_account id accounts

unfoldable pub get_user : Text → List User → Option User
get_user id [] = none
get_user id (u ∷ users) = if text_eq u.id id then some u else get_user id users

unfoldable pub get_store : Text → List MailStore → Option MailStore
get_store id [] = none
get_store id (s ∷ stores) = if text_eq s.id id then some s else get_store id stores
