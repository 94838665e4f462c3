-- ===== src/Text/Split.antt =====
-- `str.split` with a separator of one or of two characters.
use Prim.Native.Char.{Char, code}
use text.Mathlib.TextLemmas.{nil-append, cons-append}
use lobbyboy.Base.{
  ℕ, ◌≡◌, refl, Bool, true, false, ◌&&◌, String, ◌<>◌, List, [], ◌∷◌, ◌==◌, if◌then◌else◌, arith,
}

-- The pieces of a text whose first character is `c` and whose others have these pieces.
abbrev onto_first : Char → List String → List String
onto_first c [] = String.◌∷◌ c "" ∷ []
onto_first c (p ∷ ps) = String.◌∷◌ c p ∷ ps

-- `s.split(sep)`, with the separator's code.
unfoldable pub split : ℕ → String → List String
split sep String.[] = "" ∷ []
split sep (String.◌∷◌ c s) =
    let rest = split sep s in if code c == sep then "" ∷ rest else onto_first c rest

-- `s.split(sep + sep)`
unfoldable pub split_double : ℕ → String → List String
split_double sep String.[] = "" ∷ []
split_double sep (String.◌∷◌ c String.[]) = String.◌∷◌ c "" ∷ []
split_double sep (String.◌∷◌ c (String.◌∷◌ d s)) =
    let rest = split_double sep s in
    let shorter = split_double sep (String.◌∷◌ d s) in
    if code c == sep && code d == sep then "" ∷ rest else onto_first c shorter

-- No character of the text is the separator.
abbrev pub is_free : ℕ → String → Bool
is_free sep String.[] = true
is_free sep (String.◌∷◌ c s) = if code c == sep then false else is_free sep s

-- A text without the separator is one piece.
pub split_free : (sep : ℕ) (s : String) → is_free sep s ≡ true → split sep s ≡ s ∷ []
unfolding split
split_free sep String.[] h = refl
split_free sep (String.◌∷◌ c s) h = ground (arith, split_free sep s)

-- A text up to the first separator is the first piece.
pub split_at :
    (sep : ℕ) (s : String) (c : Char) (rest : String)
    → is_free sep s ≡ true
    → (code c == sep) ≡ true
    → split sep (s <> String.◌∷◌ c rest) ≡ s ∷ split sep rest
unfolding split
split_at sep String.[] c rest h e = rw (nil-append (String.◌∷◌ c rest), e) refl
split_at sep (String.◌∷◌ d s) c rest h e =
    ground (arith, cons-append d s (String.◌∷◌ c rest), split_at sep s c rest)
