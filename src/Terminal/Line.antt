-- ===== src/Terminal/Line.antt =====
-- What the keys that a user types mean as a line, apart from the loop that reads them.
use lobbyboy.Base.{
  ◌≡◌, refl, ℕ, Bool, false, ◌||◌, [], ◌∷◌, ◌++◌, ◌==◌, if◌then◌else◌, All, ap, ◌∙◌, Bool-cases,
  inl, inr,
}
use mathlib.Core.List.{append_assoc, append-nil}
use lobbyboy.Act.{Result, ok, raised, running}
use lobbyboy.Exceptions.{user_cancel}
use lobbyboy.Text.Utf8.{Bytes}

-- A line that was entered, one that was given up, or one whose end has not come.
pub data Line : Type 0 where
  entered : Bytes → Line
  cancelled unfinished : Line

-- Control-C and control-D.
abbrev pub is_stop : ℕ → Bool
is_stop b = b == 4 || b == 3

-- The line behind `chars`: control-C and control-D give up, a return ends the line, a delete is not
-- kept, and any other byte is.
unfoldable pub line_of : Bytes → Bytes → Line
line_of chars [] = unfinished
line_of chars (b ∷ bs) =
    let next = line_of chars bs in
    let more = line_of (chars ++ b ∷ []) bs in
    if is_stop b
    then cancelled
    else if b == 13
    then entered chars
    else if b == 127
    then next
    else more

-- What is left to read behind the line.
unfoldable pub rest_of : Bytes → Bytes
rest_of [] = []
rest_of (b ∷ bs) = let next = rest_of bs in if is_stop b || b == 13 then bs else next

abbrev pub line_result : Line → Result Bytes
line_result (entered bs) = ok bs
line_result cancelled = raised user_cancel
line_result unfinished = running

-- A byte that neither ends a line nor gives it up.
abbrev pub IsInput : ℕ → Type 0
IsInput b = (is_stop b ≡ false) × ((b == 13) ≡ false)

-- The bytes that stay: a delete is echoed and then not kept, but it takes no byte away.
unfoldable pub kept : Bytes → Bytes
kept [] = []
kept (b ∷ bs) = let next = kept bs in if b == 127 then next else b ∷ next

-- A line behind the bytes that a user types before the key that ends it.
pub line_of-append :
    (keys : Bytes) (chars more : Bytes)
    → All IsInput keys
    → line_of chars (keys ++ more) ≡ line_of (chars ++ kept keys) more
unfolding line_of kept
line_of-append [] chars more a = rw append-nil refl
line_of-append (b ∷ keys) chars more ((s, n), a) = elim (Bool-cases (b == 127)) [
  | inl d ↦ rw (s, n, d) (line_of-append keys chars more a)
  | inr d ↦
      rw (s, n, d)
        (line_of-append keys (chars ++ b ∷ []) more a
          ∙ ap (λ c. line_of c more) (append_assoc chars (b ∷ []) (kept keys)))
]

pub rest_of-append : (keys more : Bytes) → All IsInput keys → rest_of (keys ++ more) ≡ rest_of more
unfolding rest_of
rest_of-append [] more a = refl
rest_of-append (b ∷ keys) more ((s, n), a) = rw (s, n) (rest_of-append keys more a)
