-- ===== src/StoreService/Places.antt =====
-- Where a path of store_service.py leads. A volume is what stands at each path, itself and without
-- what lies below it; no symbolic link stands on the way.
pub mod Siblings
use mailfallback.Prelude.{
  Bool, true, false, ◌&&◌, ◌||◌, Option, none, some, List, [], ◌∷◌, ◌++◌, ◌==◌, if◌then◌else◌,
}
use mailfallback.Prelude.Text.{Text, codes, text_eq}

pub data Node : Type 0 where
  file : Text → Node
  directory : Node

abbrev pub Volume : Type 0
Volume = Text → Option Node

-- `os.path.isdir`.
abbrev pub is_directory : Option Node → Bool
is_directory (some directory) = true
is_directory _ = false

-- The names from the end of a path to the root: `.` and an empty name stay where they are, and `..`
-- goes up, from the root to itself.
abbrev pub go_up : List Text → List Text
go_up [] = []
go_up (x ∷ place) = place

abbrev pub stays : Text → Bool
stays word = text_eq word [] || text_eq word (codes ".")

unfoldable pub enter : Text → List Text → List Text
unfolding text_eq
enter word place =
    if stays word then place else if text_eq word (codes "..") then go_up place else word ∷ place

-- From a place on, with the characters of a name read so far.
unfoldable pub walk : List Text → Text → Text → List Text
unfolding enter
walk place word [] = enter word place
walk place word (c ∷ s) = elim (c == b'/') [
  | true ↦ walk (enter word place) [] s
  | false ↦ walk place (word ++ c ∷ []) s
]

abbrev pub place_of : Text → List Text
place_of path = walk [] [] path

unfoldable pub same_place : List Text → List Text → Bool
unfolding text_eq
same_place [] [] = true
same_place (x ∷ xs) (y ∷ ys) = text_eq x y && same_place xs ys
same_place _ _ = false

-- The second place is the first, or lies below it.
unfoldable pub lies_in : List Text → List Text → Bool
unfolding same_place
lies_in top [] = same_place top []
lies_in top (x ∷ place) = same_place top (x ∷ place) || lies_in top place

-- `shutil.rmtree(path, ignore_errors=True)`; `left` is what it leaves at and below the path.
unfoldable pub remove_tree : (Text → Option Node) → Text → Volume → Volume
unfolding walk lies_in
remove_tree left path volume p = if lies_in (place_of path) (place_of p) then left p else volume p
