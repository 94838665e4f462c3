-- ===== src/Text/Find.antt =====
-- Texts in texts: `s in t`, `s.split("\n")` and `s.split(" ")[0]`.
use Prim.Native.Char.{code}
use lobbyboy.Base.{◌≡◌, refl, Bool, true, false, ◌&&◌, ◌||◌, String, List, [], ◌∷◌, ◌==◌}
use lobbyboy.Text.Split.{split}

-- `t.startswith(s)`
unfoldable pub is_prefix : String → String → Bool
is_prefix String.[] t = true
is_prefix (String.◌∷◌ c s) String.[] = false
is_prefix (String.◌∷◌ c s) (String.◌∷◌ d t) = code c == code d && is_prefix s t

-- `s in t`
unfoldable pub contains : String → String → Bool
unfolding is_prefix
contains s String.[] = is_prefix s ""
contains s (String.◌∷◌ d t) = is_prefix s (String.◌∷◌ d t) || contains s t

abbrev head_or_empty : List String → String
head_or_empty [] = ""
head_or_empty (s ∷ _) = s

-- `s.split(" ")[0]`
unfoldable pub first_word : String → String
unfolding split
first_word s = head_or_empty (split b' ' s)

find_runs :
    (contains "ab" "xaab" ≡ true) × (contains "ba" "xaab" ≡ false) × (first_word "a1 b" ≡ "a1")
unfolding contains first_word
find_runs = (refl, refl, refl)
