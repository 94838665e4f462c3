-- ===== src/Duration.antt =====
-- lobbyboy/utils.py: `UNIT_SEC_PAIRS`, `to_seconds` and `humanize_seconds`.
pub mod Laws
use lobbyboy.Base.{
  ℕ, ◌+◌, ◌*◌, ◌/◌, ◌%◌, ◌≡◌, refl, Bool, true, false, String, ◌<>◌, List, [], ◌∷◌, Option, none,
  some, ◌==◌, ◌===◌, if◌then◌else◌, codes,
}
use lobbyboy.Exceptions.{time_str_parse_type, type_error}
use lobbyboy.Act.{Result, ok, raised}
use lobbyboy.Text.Digits.{digit_value, scan_digits}
use lobbyboy.Text.Print.{decimal, two_digits}

abbrev pub unit_sec_pairs : List (ℕ × ℕ)
unit_sec_pairs = (b's', 1) ∷ (b'm', 1 * 60) ∷ (b'h', 1 * 60 * 60) ∷ (b'd', 1 * 60 * 60 * 24) ∷ []

-- `$` matches at the end, and before a newline at the end.
at_end : List ℕ → Bool
at_end [] = true
at_end (c ∷ []) = c == 10
at_end (_ ∷ _ ∷ _) = false

-- What is left behind the digits is the unit and the end.
unit_follows : ℕ → List ℕ → Bool
unfolding at_end
unit_follows unit [] = false
unit_follows unit (c ∷ s) = if c == unit then at_end s else false

-- `re.match(r"^(\d+){unit}$", …)`: the number that the group spells.
match_unit : ℕ → List ℕ → Option ℕ
unfolding scan_digits unit_follows
match_unit unit [] = none
match_unit unit (c ∷ s) = elim (digit_value c) [
  | some d ↦
      let (value, rest) = scan_digits s d in if unit_follows unit rest then some value else none
  | none ↦ none
]

-- The loop over the units.
first_match : List (ℕ × ℕ) → List ℕ → Result ℕ
first_match [] s = raised time_str_parse_type
first_match ((unit, sec) ∷ units) s = elim (match_unit unit s) [
  | some value ↦ ok (value * sec)
  | none ↦ first_match units s
]

-- A configuration value that is not set is `None`, which `re.match` refuses.
unfoldable pub to_seconds : Option String → Result ℕ
unfolding first_match match_unit digit_value
to_seconds none = raised type_error
to_seconds (some time_str) =
    if time_str === "0" then ok 0 else first_match unit_sec_pairs (codes time_str)

-- `str(timedelta(seconds=seconds))`, for a duration that is not negative.
unfoldable pub humanize_seconds : ℕ → String
unfolding decimal two_digits
humanize_seconds seconds =
    let days = seconds / 86400 in
    let left = seconds % 86400 in
    (if days == 0 then "" else decimal days <> (if days == 1 then " day, " else " days, "))
    <> decimal (left / 3600)
    <> ":"
    <> two_digits (left / 60 % 60)
    <> ":"
    <> two_digits (left % 60)

-- The values of tests/test_utils.py.
to_seconds_runs :
    (to_seconds (some "0") ≡ ok 0)
    × (to_seconds (some "59m") ≡ ok 3540)
    × (to_seconds (some "20h") ≡ ok 72000)
    × (to_seconds (some "3d") ≡ ok 259200)
    × (to_seconds (some "-1") ≡ raised time_str_parse_type)
    × (to_seconds (some "2") ≡ raised time_str_parse_type)
    × (to_seconds (some "1min") ≡ raised time_str_parse_type)
unfolding to_seconds
to_seconds_runs = (refl, refl, refl, refl, refl, refl, refl)

humanize_seconds_runs :
    (humanize_seconds 0 ≡ "0:00:00") × (humanize_seconds 364121 ≡ "4 days, 5:08:41")
unfolding humanize_seconds
humanize_seconds_runs = (refl, refl)
