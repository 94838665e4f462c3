-- ===== src/Config/Users.antt =====
-- `LBConfigUser.auth_key_pairs` (lobbyboy/config.py).

use Prim.Native.Char.{code}
use lobbyboy.Base.{
  ◌≡◌, refl, String, List, [], ◌∷◌, Option, none, some, ◌==◌, if◌then◌else◌, map, given,
}
use lobbyboy.Text.Digits.{is_space}
use lobbyboy.Config.Types.{ConfigUser}

-- A tuple of the list: a key type with its data, or one of another length than two.
pub data KeyPair : Type 0 where
  key_pair : String → String → KeyPair
  not_a_pair : KeyPair

-- `if ssh_key`
keep_line : String → List String → List String
keep_line String.[] lines = lines
keep_line (String.◌∷◌ c s) lines = String.◌∷◌ c s ∷ lines

-- The first line of a text, and the lines behind it that are not empty.
lines_from : String → String × List String
unfolding keep_line
lines_from String.[] = ("", [])
lines_from (String.◌∷◌ c s) =
    let (line, lines) = lines_from s in
    if code c == 10 then ("", keep_line line lines) else (String.◌∷◌ c line, lines)

-- `[ssh_key for ssh_key in s.split("\n") if ssh_key]`
key_lines : String → List String
unfolding lines_from keep_line
key_lines s = let (line, lines) = lines_from s in keep_line line lines

strip_left : String → String
unfolding is_space
strip_left String.[] = ""
strip_left (String.◌∷◌ c s) =
    let rest = strip_left s in if is_space (code c) then rest else String.◌∷◌ c s

-- A word, and what follows it.
first_word : String → String × String
unfolding is_space
first_word String.[] = ("", "")
first_word (String.◌∷◌ c s) =
    let (word, rest) = first_word s in
    if is_space (code c) then ("", String.◌∷◌ c s) else (String.◌∷◌ c word, rest)

pair_of : String → String → KeyPair
pair_of String.[] data_text = not_a_pair
pair_of (String.◌∷◌ c word) String.[] = not_a_pair
pair_of (String.◌∷◌ c word) (String.◌∷◌ d rest) = key_pair (String.◌∷◌ c word) (String.◌∷◌ d rest)

-- `tuple(ssh_key.split(maxsplit=1))`: what follows the first word keeps its trailing whitespace.
unfoldable pub split_key : String → KeyPair
unfolding strip_left first_word pair_of
split_key s = let (word, rest) = first_word (strip_left s) in pair_of word (strip_left rest)

abbrev pairs_of : Option String → List KeyPair
unfolding split_key key_lines
pairs_of none = []
pairs_of (some s) = map split_key (key_lines s)

unfoldable pub auth_key_pairs : ConfigUser → List KeyPair
unfolding pairs_of
auth_key_pairs user = pairs_of (given user.authorized_keys)

auth_key_pairs_test :
    auth_key_pairs (record { authorized_keys = some "ssh-rsa  AAA me \n\nnope\n"; password = none })
    ≡ key_pair "ssh-rsa" "AAA me " ∷ not_a_pair ∷ []
unfolding auth_key_pairs
auth_key_pairs_test = refl
