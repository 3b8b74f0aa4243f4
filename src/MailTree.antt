-- ===== src/MailTree.antt =====
-- The part of a file system that src/mailfallback/services/migration_worker.py walks: a directory
-- as the list of its entries, in the order in which os.scandir gives them, and a disk as the
-- directories that stand at whole paths. Two different paths of a disk are neither aliases of one
-- another nor nested.
pub mod Laws
use mailfallback.Prelude.{
  ℕ, Bool, true, false, Option, none, some, List, [], ◌∷◌, length, ◌+◌, ◌≡◌, if◌then◌else◌, is_none,
}
use mailfallback.Prelude.Text.{Text, text_eq}

-- A file with its content, a directory, or what is neither without following a link (a symbolic
-- link, a socket).
mutual
  pub data Entry : Type 0 where
    file : Text → Entry
    dir : Dir → Entry
    special : Entry

  pub data Dir : Type 0 where
    empty : Dir
    entry : Text → Entry → Dir → Dir

unfoldable pub find : Text → Dir → Option Entry
find name empty = none
find name (entry k e rest) = if text_eq k name then some e else find name rest

-- The entry under a name is replaced, or added at the end.
unfoldable pub put : Text → Entry → Dir → Dir
put name e empty = entry name e empty
put name e (entry k old rest) =
    let further = put name e rest in if text_eq k name then entry k e rest else entry k old further

-- The content of the regular file at a path of names.
unfoldable pub file_at : Dir → List Text → Option Text
unfolding find
file_at d [] = none
file_at d (name ∷ path) = elim (find name d) [
  | some (Entry.file content) ↦ elim path [ [] ↦ some content | _ ↦ none ]
  | some (Entry.dir sub) ↦ file_at sub path
  | _ ↦ none
]

-- Every directory of the tree lists a name once.
unfoldable pub IsTree : Dir → Type 0
unfolding find
IsTree empty = Unit
IsTree (entry k (dir d) rest) = (find k rest ≡ none) × (IsTree d × IsTree rest)
IsTree (entry k _ rest) = (find k rest ≡ none) × IsTree rest

-- Every regular file of the first tree is in the second, with the same content.
abbrev pub Keeps : Dir → Dir → Type 0
Keeps d d' =
    (path : List Text) (content : Text)
    → file_at d path ≡ some content
    → file_at d' path ≡ some content

-- `os.path.exists`, `scandir` and the writes below a path.
abbrev pub Disk : Type 0
Disk = Text → Option Dir

unfoldable pub set_dir : Text → Option Dir → Disk → Disk
set_dir path d disk p = if text_eq path p then d else disk p

-- What a walk finds below a path that may be absent.
abbrev pub dir_or_empty : Option Dir → Dir
dir_or_empty none = Dir.empty
dir_or_empty (some d) = d

-- The content of a file below a path.
unfoldable pub file_under : Disk → Text → List Text → Option Text
unfolding file_at
file_under disk p path = file_at (dir_or_empty (disk p)) path
