-- ===== src/Text/Print.antt =====
-- Numbers in messages: `str(n)` and right alignment.
use Prim.Native.String.{count}
use lobbyboy.Base.{
  ℕ, zero, suc, ◌+◌, ◌-◌, ◌/◌, ◌%◌, ◌≡◌, refl, String, ◌<>◌, ltb, ◌==◌, if◌then◌else◌,
}
use lobbyboy.Base.Int.{ℤ, pos, negsuc}

digit_text : ℕ → String
digit_text d =
    if d == 0
    then "0"
    else if d == 1
    then "1"
    else if d == 2
    then "2"
    else if d == 3
    then "3"
    else if d == 4
    then "4"
    else if d == 5
    then "5"
    else if d == 6
    then "6"
    else if d == 7
    then "7"
    else if d == 8
    then "8"
    else "9"

decimal_from : ℕ → ℕ → String → String
decimal_from zero n out = out
decimal_from (suc fuel) n out =
    let more = decimal_from fuel (n / 10) (digit_text (n % 10) <> out) in
    if ltb n 10 then digit_text n <> out else more

-- A number has at most as many digits as its value, plus one.
unfoldable pub decimal : ℕ → String
unfolding decimal_from digit_text
decimal n = decimal_from (suc n) n ""

unfoldable pub show_ℤ : ℤ → String
unfolding decimal
show_ℤ (pos n) = decimal n
show_ℤ (negsuc n) = "-" <> decimal (n + 1)

-- `f"{n:>3}"`
unfoldable pub right_3 : ℕ → String
unfolding decimal
right_3 n = (if ltb n 10 then "  " else if ltb n 100 then " " else "") <> decimal n

-- `f"{n:02d}"`
unfoldable pub two_digits : ℕ → String
unfolding decimal
two_digits n = (if ltb n 10 then "0" else "") <> decimal n

spaces : ℕ → String
spaces zero = ""
spaces (suc n) = " " <> spaces n

-- `f"{s:n}"` for a text: blanks behind it.
unfoldable pub pad_right : ℕ → String → String
pad_right zero s = s
pad_right (suc n) String.[] = " " <> pad_right n ""
pad_right (suc n) (String.◌∷◌ c s) = String.◌∷◌ c (pad_right n s)

-- `f"{n:w}"` for a number, given as its text: blanks before it.
unfoldable pub pad_left : ℕ → String → String
unfolding spaces
pad_left w s = spaces (w - count s) <> s

decimal_runs :
    (decimal 3072 ≡ "3072")
    × (right_3 7 ≡ "  7")
    × (show_ℤ (negsuc 0) ≡ "-1")
    × (pad_right 4 "ab" ≡ "ab  ")
    × (pad_right 1 "ab" ≡ "ab")
    × (pad_left 4 "12" ≡ "  12")
unfolding right_3 show_ℤ pad_right pad_left
decimal_runs = (refl, refl, refl, refl, refl, refl)
