-- ===== src/StoreService/Paths.antt =====
-- The paths of store_service.py: what a store's path and an id or a username are put together to.
use mathlib.Core.List.{reverse}
use mailfallback.Prelude.{ℕ, Bool, [], ◌∷◌, ◌++◌, map, ◌==◌, ◌||◌, ◌&&◌, leb, if◌then◌else◌}
use mailfallback.Prelude.Text.{Text, codes}

unfoldable pub drop_slashes : Text → Text
drop_slashes [] = []
drop_slashes (c ∷ s) = if c == b'/' then drop_slashes s else c ∷ s

-- `path.rstrip("/")`.
unfoldable pub rstrip_slash : Text → Text
unfolding drop_slashes
rstrip_slash path = reverse (drop_slashes (reverse path))

-- `[a-zA-Z0-9@._-]`.
abbrev is_safe : ℕ → Bool
is_safe c =
    (leb b'a' c && leb c b'z')
    || (leb b'A' c && leb c b'Z')
    || (leb b'0' c && leb c b'9')
    || c == b'@'
    || c == b'.'
    || c == b'_'
    || c == b'-'

unfoldable pub sanitize_path_component : Text → Text
sanitize_path_component name = map (λ (c : ℕ). if is_safe c then c else b'_') name

abbrev pub dovecot_home_dirname : Text
dovecot_home_dirname = codes ".dovecot-home"

unfoldable pub dovecot_home_dir : Text → Text → Text
unfolding rstrip_slash sanitize_path_component
dovecot_home_dir store_path username =
    rstrip_slash store_path
    ++ b'/' ∷ dovecot_home_dirname
    ++ b'/' ∷ sanitize_path_component username

unfoldable pub derive_maildir_path : Text → Text → Text
unfolding rstrip_slash
derive_maildir_path store_path account_id = rstrip_slash store_path ++ b'/' ∷ account_id
