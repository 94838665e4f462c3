-- ===== src/Text/Digits.antt =====
-- Decimal digits and white space by Unicode (version 14), and `int(text)`.
use mathlib.Core.Option
use lobbyboy.Base.{
  ℕ, zero, suc, ◌+◌, ◌-◌, ◌*◌, ◌<◌, ◌≡◌, refl, Bool, true, false, ◌&&◌, ◌||◌, List, [], ◌∷◌, ◌++◌,
  map, Option, none, some, arith, leb, ltb, ◌==◌, if◌then◌else◌, All, codes,
}
use lobbyboy.Base.Int.{ℤ, pos, negsuc}

-- The zeros of the runs of ten decimal digits.
abbrev digit_zeros : List ℕ
digit_zeros =
    48 ∷ 0x660 ∷ 0x6f0 ∷ 0x7c0 ∷ 0x966 ∷ 0x9e6 ∷ 0xa66 ∷ 0xae6 ∷ 0xb66 ∷ 0xbe6 ∷ 0xc66 ∷ 0xce6
    ∷ 0xd66 ∷ 0xde6 ∷ 0xe50 ∷ 0xed0 ∷ 0xf20 ∷ 0x1040 ∷ 0x1090 ∷ 0x17e0 ∷ 0x1810 ∷ 0x1946 ∷ 0x19d0
    ∷ 0x1a80 ∷ 0x1a90 ∷ 0x1b50 ∷ 0x1bb0 ∷ 0x1c40 ∷ 0x1c50 ∷ 0xa620 ∷ 0xa8d0 ∷ 0xa900 ∷ 0xa9d0
    ∷ 0xa9f0 ∷ 0xaa50 ∷ 0xabf0 ∷ 0xff10 ∷ 0x104a0 ∷ 0x10d30 ∷ 0x11066 ∷ 0x110f0 ∷ 0x11136 ∷ 0x111d0
    ∷ 0x112f0 ∷ 0x11450 ∷ 0x114d0 ∷ 0x11650 ∷ 0x116c0 ∷ 0x11730 ∷ 0x118e0 ∷ 0x11950 ∷ 0x11c50
    ∷ 0x11d50 ∷ 0x11da0 ∷ 0x16a60 ∷ 0x16ac0 ∷ 0x16b50 ∷ 0x1d7ce ∷ 0x1d7d8 ∷ 0x1d7e2 ∷ 0x1d7ec
    ∷ 0x1d7f6 ∷ 0x1e140 ∷ 0x1e2f0 ∷ 0x1e950 ∷ 0x1fbf0 ∷ []

digit_from : List ℕ → ℕ → Option ℕ
digit_from [] c = none
digit_from (z ∷ zs) c =
    let rest = digit_from zs c in if leb z c && ltb c (z + 10) then some (c - z) else rest

-- The value of a decimal digit, which `\d` and `int` accept.
unfoldable pub digit_value : ℕ → Option ℕ
unfolding digit_from
digit_value = digit_from digit_zeros

abbrev spaces : List ℕ
spaces =
    9 ∷ 10 ∷ 11 ∷ 12 ∷ 13 ∷ 28 ∷ 29 ∷ 30 ∷ 31 ∷ 32 ∷ 133 ∷ 160 ∷ 0x1680 ∷ 0x2000 ∷ 0x2001 ∷ 0x2002
    ∷ 0x2003 ∷ 0x2004 ∷ 0x2005 ∷ 0x2006 ∷ 0x2007 ∷ 0x2008 ∷ 0x2009 ∷ 0x200a ∷ 0x2028 ∷ 0x2029
    ∷ 0x202f ∷ 0x205f ∷ 0x3000 ∷ []

member : List ℕ → ℕ → Bool
member [] c = false
member (x ∷ xs) c = c == x || member xs c

-- `str.isspace` of one character.
unfoldable pub is_space : ℕ → Bool
unfolding member
is_space = member spaces

-- The longest run of digits in front, as a number that extends `acc`, and what follows it.
unfoldable pub scan_digits : List ℕ → ℕ → ℕ × List ℕ
scan_digits [] acc = (acc, [])
scan_digits (c ∷ s) acc = elim (digit_value c) [
  | some d ↦ scan_digits s (acc * 10 + d)
  | none ↦ (acc, c ∷ s)
]

-- The number that decimal digits spell, most significant first.
unfoldable pub horner : List ℕ → ℕ → ℕ
horner [] acc = acc
horner (d ∷ ds) acc = horner ds (acc * 10 + d)

abbrev pub AreDigits : List ℕ → Type 0
AreDigits = All (λ d. d < 10)

-- The ASCII digits.
abbrev pub ascii : List ℕ → List ℕ
ascii = map (λ d. b'0' + d)

pub digit_value-ascii : (d : ℕ) → d < 10 → digit_value (b'0' + d) ≡ some d
unfolding digit_value
digit_value-ascii d h = ground arith

pub scan_digits-ascii :
    (ds : List ℕ) (c : ℕ) (rest : List ℕ) (acc : ℕ)
    → AreDigits ds
    → digit_value c ≡ none
    → scan_digits (ascii ds ++ c ∷ rest) acc ≡ (horner ds acc, c ∷ rest)
unfolding scan_digits horner
scan_digits-ascii [] c rest acc h e = ground arith
scan_digits-ascii (d ∷ ds) c rest acc h e =
    ground (arith, digit_value-ascii d h.0, scan_digits-ascii ds c rest (acc * 10 + d) h.1 e)

-- The white space that `int` strips.
abbrev int_spaces : List ℕ
int_spaces =
    9 ∷ 10 ∷ 11 ∷ 12 ∷ 13 ∷ 32 ∷ 133 ∷ 160 ∷ 0x1680 ∷ 0x2000 ∷ 0x2001 ∷ 0x2002 ∷ 0x2003 ∷ 0x2004
    ∷ 0x2005 ∷ 0x2006 ∷ 0x2007 ∷ 0x2008 ∷ 0x2009 ∷ 0x200a ∷ 0x2028 ∷ 0x2029 ∷ 0x202f ∷ 0x205f
    ∷ 0x3000 ∷ []

all_int_spaces : List ℕ → Bool
unfolding member
all_int_spaces [] = true
all_int_spaces (c ∷ s) = member int_spaces c && all_int_spaces s

strip_left : List ℕ → List ℕ
unfolding member
strip_left [] = []
strip_left (c ∷ s) = let rest = strip_left s in if member int_spaces c then rest else c ∷ s

-- The digits behind the first: single underscores between digits, white space at the end.
int_tail : List ℕ → ℕ → Bool → Option ℕ
unfolding all_int_spaces
int_tail [] acc after_underscore = if after_underscore then none else some acc
int_tail (c ∷ s) acc after_underscore = elim (digit_value c) [
  | some d ↦ int_tail s (acc * 10 + d) false
  | none ↦
      let more = int_tail s acc true in
      if after_underscore
      then none
      else if c == b'_'
      then more
      else if all_int_spaces (c ∷ s)
      then some acc
      else none
]

int_digits : List ℕ → Option ℕ
unfolding int_tail
int_digits [] = none
int_digits (c ∷ s) = elim (digit_value c) [ some d ↦ int_tail s d false | none ↦ none ]

negate : ℕ → ℤ
negate zero = pos 0
negate (suc n) = negsuc n

int_signed : List ℕ → Option ℤ
unfolding int_digits negate
int_signed [] = none
int_signed (c ∷ s) =
    if c == b'-'
    then Option.map negate (int_digits s)
    else if c == b'+'
    then Option.map pos (int_digits s)
    else Option.map pos (int_digits (c ∷ s))

-- `int(text)`; `none` is a `ValueError`.
unfoldable pub int_of : List ℕ → Option ℤ
unfolding int_signed strip_left digit_value
int_of s = int_signed (strip_left s)

int_of_runs :
    (int_of (codes " 1_0\r") ≡ some (pos 10))
    × (int_of (codes "-3") ≡ some (negsuc 2))
    × (int_of (codes "1__0") ≡ none)
    × (int_of [] ≡ none)
    × (int_of (codes "7 x") ≡ none)
unfolding int_of
int_of_runs = (refl, refl, refl, refl, refl)
