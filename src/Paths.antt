-- ===== src/Paths.antt =====
-- What the program uses of `pathlib.Path` (POSIX): normal forms, joining and printing.
pub mod Normal
use Prim.Native.Char.{Char, code}
use lobbyboy.Base.{
  ℕ, Bool, true, false, ◌||◌, String, ◌<>◌, List, [], ◌∷◌, ◌++◌, ◌==◌, ◌===◌, if◌then◌else◌,
}

-- A path is its root, "" or "/" or "//", and its parts.
pub record FilePath : Type 0 where
  pub root : String
  pub parts : List String

abbrev is_slash : Char → Bool
is_slash c = code c == b'/'

-- Exactly two slashes in front are kept; more count as one.
third : String → String
third String.[] = "//"
third (String.◌∷◌ c s) = if is_slash c then "/" else "//"

second : String → String
second String.[] = "/"
second (String.◌∷◌ c s) = if is_slash c then third s else "/"

root_of : String → String
unfolding second third
root_of String.[] = ""
root_of (String.◌∷◌ c s) = if is_slash c then second s else ""

-- Empty parts and dots fall out.
keep : String → List String → List String
keep part rest = if part === "" || part === "." then rest else part ∷ rest

-- The parts of the text, the first of which continues `part`.
split_parts : String → String → List String
unfolding keep
split_parts String.[] part = keep part []
split_parts (String.◌∷◌ c s) part =
    let next = split_parts s "" in
    let longer = split_parts s (part <> String.◌∷◌ c String.[]) in
    if is_slash c then keep part next else longer

-- `Path(text)`
unfoldable pub path_of : String → FilePath
unfolding root_of split_parts
path_of s = record { root = root_of s; parts = split_parts s "" }

join_parts : List String → String
join_parts [] = ""
join_parts (p ∷ []) = p
join_parts (p ∷ q ∷ ps) = p <> "/" <> join_parts (q ∷ ps)

show_parts : String → List String → String
unfolding join_parts
show_parts root [] = if root === "" then "." else root
show_parts root (p ∷ ps) = root <> join_parts (p ∷ ps)

-- `str(path)`
unfoldable pub show_path : FilePath → String
unfolding show_parts
show_path p = show_parts p.root p.parts

-- `path.joinpath(text)`: an absolute text replaces the path.
unfoldable pub joinpath : FilePath → String → FilePath
unfolding path_of
joinpath p s =
    let q = path_of s in
    if q.root === "" then record { root = p.root; parts = p.parts ++ q.parts } else q
