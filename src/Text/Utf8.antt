-- ===== src/Text/Utf8.antt =====
-- `str.encode` and `bytes.decode`, which use strict UTF-8. Bytes are numbers below 256.
use mathlib.Core.Option
use lobbyboy.Base.{
  ℕ, zero, suc, ◌+◌, ◌-◌, ◌*◌, ◌/◌, ◌%◌, ◌≤◌, ◌<◌, ◌≡◌, refl, ◌⊎◌, Bool, true, false, ◌&&◌, List,
  [], ◌∷◌, ◌++◌, Option, none, some, arith, leb, ltb, ◌==◌, if◌then◌else◌, All,
}

abbrev pub Bytes : Type 0
Bytes = List ℕ

unfoldable pub encode_char : ℕ → Bytes
encode_char c =
    if ltb c 0x80
    then c ∷ []
    else if ltb c 0x800
    then (0xc0 + c / 64) ∷ (0x80 + c % 64) ∷ []
    else if ltb c 0x10000
    then (0xe0 + c / 4096) ∷ (0x80 + c / 64 % 64) ∷ (0x80 + c % 64) ∷ []
    else (0xf0 + c / 262144) ∷ (0x80 + c / 4096 % 64) ∷ (0x80 + c / 64 % 64) ∷ (0x80 + c % 64) ∷ []

unfoldable pub encode : List ℕ → Bytes
unfolding encode_char
encode [] = []
encode (c ∷ s) = encode_char c ++ encode s

-- What a first byte announces: a whole character, or that so many bytes follow, the first of them
-- between two bounds, with the bits so far. (The bounds exclude long forms and surrogates.)
pub data Lead : Type 0 where
  whole invalid : Lead
  begins : ℕ → ℕ → ℕ → ℕ → Lead

lead : ℕ → Lead
lead b =
    if ltb b 0x80
    then whole
    else if ltb b 0xc2
    then invalid
    else if ltb b 0xe0
    then begins 1 (b - 0xc0) 0x80 0xbf
    else if b == 0xe0
    then begins 2 0 0xa0 0xbf
    else if b == 0xed
    then begins 2 13 0x80 0x9f
    else if ltb b 0xf0
    then begins 2 (b - 0xe0) 0x80 0xbf
    else if b == 0xf0
    then begins 3 0 0x90 0xbf
    else if b == 0xf4
    then begins 3 4 0x80 0x8f
    else if ltb b 0xf4
    then begins 3 (b - 0xf0) 0x80 0xbf
    else invalid

abbrev within : ℕ → ℕ → ℕ → Bool
within lo hi b = leb lo b && leb b hi

-- The decoder's loop: bytes that are still due, the bits so far, and the bounds of the next byte.
decode_from : Bytes → ℕ → ℕ → ℕ → ℕ → Option (List ℕ)
decode_from [] zero bits lo hi = some []
decode_from [] (suc due) bits lo hi = none
decode_from (b ∷ s) zero bits lo hi = elim (lead b) [
  | whole ↦ Option.map (λ t. b ∷ t) (decode_from s 0 0 0x80 0xbf)
  | invalid ↦ none
  | begins due first lo' hi' ↦ decode_from s due first lo' hi'
]
decode_from (b ∷ s) (suc zero) bits lo hi = elim (within lo hi b) [
  | true ↦ Option.map (λ t. (bits * 64 + (b - 0x80)) ∷ t) (decode_from s 0 0 0x80 0xbf)
  | false ↦ none
]
decode_from (b ∷ s) (suc (suc due)) bits lo hi = elim (within lo hi b) [
  | true ↦ decode_from s (suc due) (bits * 64 + (b - 0x80)) 0x80 0xbf
  | false ↦ none
]

-- `bytes.decode()`; `none` is a `UnicodeDecodeError`.
unfoldable pub decode : Bytes → Option (List ℕ)
unfolding decode_from lead
decode s = decode_from s 0 0 0x80 0xbf

-- The code points that text can hold.
abbrev pub IsScalar : ℕ → Type 0
IsScalar c = (c < 0xd800) ⊎ ((0xe000 ≤ c) × (c < 0x110000))

decode-encode_char :
    (c : ℕ) (s : Bytes)
    → IsScalar c
    → decode_from (encode_char c ++ s) 0 0 0x80 0xbf
      ≡ Option.map (λ t. c ∷ t) (decode_from s 0 0 0x80 0xbf)
unfolding encode_char decode_from lead
decode-encode_char c s h = ground arith

-- Text comes back from its bytes.
pub decode-encode : (s : List ℕ) → All IsScalar s → decode (encode s) ≡ some s
unfolding decode encode
decode-encode [] h = refl
decode-encode (c ∷ s) h = rw (decode-encode_char c (encode s) h.0) (rw (decode-encode s h.1) refl)
