-- ===== src/Duration/Laws.antt =====
-- What `to_seconds` accepts, and what it makes of it.
use lobbyboy.Base.{
  ℕ, ◌+◌, ◌*◌, ◌≡◌, sym, ap, ◌∙◌, ◌≢◌, ◌↔◌, ◌⊎◌, inl, inr, refl, true, false, String, List, [], ◌∷◌,
  ◌++◌, none, some, arith, ◌==◌, ◌===◌, ===_iff, if◌then◌else◌, codes, Option-cases, Bool-cases,
  All,
}
use lobbyboy.Exceptions.{time_str_parse_type}
use lobbyboy.Act.{ok, raised}
use lobbyboy.Text.Digits.{digit_value, scan_digits}
use lobbyboy.Duration.{unit_sec_pairs, at_end, unit_follows, match_unit, first_match, to_seconds}

-- The characters are decimal digits, and spell `value` behind the digits of `acc`.
abbrev pub Reads : List ℕ → ℕ → ℕ → Type 0
Reads [] acc value = acc ≡ value
Reads (c ∷ cs) acc value = (d : ℕ) × (digit_value c ≡ some d) × Reads cs (acc * 10 + d) value

abbrev pub IsUnit : ℕ → ℕ → Type 0
IsUnit unit sec =
    ((unit ≡ b's') × (sec ≡ 1))
    ⊎ ((unit ≡ b'm') × (sec ≡ 60))
    ⊎ ((unit ≡ b'h') × (sec ≡ 3600))
    ⊎ ((unit ≡ b'd') × (sec ≡ 86400))

-- One digit or more, a unit, and perhaps a newline; the number counts units of `sec` seconds.
pub record IsDuration (s : List ℕ) (seconds : ℕ) : Type 0 where
  pub first : ℕ
  pub others : List ℕ
  pub unit : ℕ
  pub tail : List ℕ
  pub sec : ℕ
  pub value : ℕ
  pub split : s ≡ (first ∷ others) ++ unit ∷ tail
  pub reads : Reads (first ∷ others) 0 value
  pub known : IsUnit unit sec
  pub ends : (tail ≡ []) ⊎ (tail ≡ 10 ∷ [])
  pub total : seconds ≡ value * sec

scan_digits-Reads :
    (cs : List ℕ) (c : ℕ) (rest : List ℕ) (acc value : ℕ)
    → Reads cs acc value
    → digit_value c ≡ none
    → scan_digits (cs ++ c ∷ rest) acc ≡ (value, c ∷ rest)
unfolding scan_digits
scan_digits-Reads [] c rest acc value h e = ground arith
scan_digits-Reads (d ∷ cs) c rest acc value (v, e', h) e =
    ground (arith, scan_digits-Reads cs c rest (acc * 10 + v) value h e)

scan_digits_sound :
    (s : List ℕ) (acc : ℕ)
    → (cs : List ℕ) × (s ≡ cs ++ (scan_digits s acc).1) × Reads cs acc (scan_digits s acc).0
unfolding scan_digits
scan_digits_sound [] acc = ([], refl, refl)
scan_digits_sound (c ∷ s) acc = elim (Option-cases (digit_value c)) [
  | inl e ↦ ([], rw (e, scan_digits) refl, rw (e, scan_digits) refl)
  | inr (d, e) ↦
      let (cs, split, reads) = scan_digits_sound s (acc * 10 + d) in
      (c ∷ cs, rw (e, scan_digits) (ap (λ t. c ∷ t) split), (d, e, rw (e, scan_digits) reads))
]

unit_ne_digit : (unit sec : ℕ) → IsUnit unit sec → digit_value unit ≡ none
unfolding digit_value
unit_ne_digit unit sec h = ground arith

module _ (first : ℕ) (others : List ℕ) (unit : ℕ) (tail : List ℕ) (value : ℕ) where
  -- A unit is found exactly where it stands.
  match_unit-Reads :
      (u : ℕ)
      → Reads (first ∷ others) 0 value
      → digit_value unit ≡ none
      → at_end tail ≡ true
      → match_unit u ((first ∷ others) ++ unit ∷ tail) ≡ (if unit == u then some value else none)
  unfolding match_unit
  match_unit-Reads u (d, e, reads) stop end =
      let start : 0 * 10 + d ≡ d = omega arith in
      ground (arith, scan_digits-Reads others unit tail d value (rw start at reads) stop)

  first_match-Reads :
      (sec : ℕ)
      → Reads (first ∷ others) 0 value
      → IsUnit unit sec
      → at_end tail ≡ true
      → first_match unit_sec_pairs ((first ∷ others) ++ unit ∷ tail) ≡ ok (value * sec)
  unfolding first_match
  first_match-Reads sec reads known end =
      let stop = unit_ne_digit unit sec known in
      ground (
        arith,
        match_unit-Reads b's' reads stop end,
        match_unit-Reads b'm' reads stop end,
        match_unit-Reads b'h' reads stop end,
        match_unit-Reads b'd' reads stop end,
      )

ends-at_end : (tail : List ℕ) → (tail ≡ []) ⊎ (tail ≡ 10 ∷ []) → at_end tail ≡ true
unfolding at_end
ends-at_end tail h = ground arith

at_end-ends : (tail : List ℕ) → at_end tail ≡ true → (tail ≡ []) ⊎ (tail ≡ 10 ∷ [])
unfolding at_end
at_end-ends [] h = inl refl
at_end-ends (c ∷ []) h = ground arith
at_end-ends (_ ∷ _ ∷ _) h = cc

unit_follows_sound :
    (unit : ℕ) (rest : List ℕ)
    → unit_follows unit rest ≡ true
    → (tail : List ℕ) × (rest ≡ unit ∷ tail) × ((tail ≡ []) ⊎ (tail ≡ 10 ∷ []))
unfolding unit_follows
unit_follows_sound unit [] h = cc
unit_follows_sound unit (c ∷ s) h = (s, ground arith, at_end-ends s (ground arith))

match_unit_sound :
    (u sec : ℕ) (s : List ℕ) (value : ℕ)
    → IsUnit u sec
    → match_unit u s ≡ some value
    → IsDuration s (value * sec)
unfolding match_unit
match_unit_sound u sec [] value known h = cc
match_unit_sound u sec (c ∷ s) value known h = elim (Option-cases (digit_value c)) [
  | inl e ↦ cc (h, e)
  | inr (d, e) ↦
      let (cs, split, reads) = scan_digits_sound s d in
      let found : unit_follows u (scan_digits s d).1 ≡ true = ground arith in
      let (tail, rest, ends) = unit_follows_sound u (scan_digits s d).1 found in
      let start : 0 * 10 + d ≡ d = omega arith in
      let same : (scan_digits s d).0 ≡ value = ground arith in
      record {
        first = c;
        others = cs;
        unit = u;
        tail = tail;
        sec = sec;
        value = value;
        split = ap (λ t. c ∷ t) (rw rest at split);
        reads = (d, e, rw start (rw same at reads));
        known = known;
        ends = ends;
        total = refl;
      }
]

first_match_sound :
    (units : List (ℕ × ℕ)) (s : List ℕ) (seconds : ℕ)
    → All (λ (u : ℕ × ℕ). IsUnit u.0 u.1) units
    → first_match units s ≡ ok seconds
    → IsDuration s seconds
unfolding first_match
first_match_sound [] s seconds known h = cc
first_match_sound ((u, sec) ∷ units) s seconds (here, there) h =
    elim (Option-cases (match_unit u s)) [
      | inl e ↦ first_match_sound units s seconds there (rw (e, first_match) at h)
      | inr (v, e) ↦
          let same : seconds ≡ v * sec = ground arith in rw same (match_unit_sound u sec s v here e)
    ]

All-units : All (λ (u : ℕ × ℕ). IsUnit u.0 u.1) unit_sec_pairs
All-units = ground arith

longer : (c : ℕ) (cs : List ℕ) (u : ℕ) (tail : List ℕ) → (c ∷ cs) ++ u ∷ tail ≢ codes "0"
longer c [] u tail h = cc
longer c (d ∷ cs) u tail h = cc

not_zero : (t : String) (seconds : ℕ) → IsDuration (codes t) seconds → (t === "0") ≡ false
not_zero t seconds d = elim (Bool-cases (t === "0")) [
  | inl same ↦
      absurd
        (longer d.first d.others d.unit d.tail (sym d.split ∙ ap codes ((===_iff t "0").0 same)))
  | inr differs ↦ differs
]

first_match-IsDuration :
    {s : List ℕ} {n : ℕ} (d : IsDuration s n)
    → first_match unit_sec_pairs ((d.first ∷ d.others) ++ d.unit ∷ d.tail) ≡ ok (d.value * d.sec)
first_match-IsDuration d =
    first_match-Reads d.first d.others d.unit d.tail d.value d.sec d.reads d.known
      (ends-at_end d.tail d.ends)

-- `to_seconds` returns a number exactly for the text "0", which is no seconds, and for a number of
-- seconds, minutes, hours or days, written as decimal digits and the unit.
pub to_seconds_exact :
    (t : String) (seconds : ℕ)
    → (to_seconds (some t) ≡ ok seconds)
      ↔ (((t ≡ "0") × (seconds ≡ 0)) ⊎ IsDuration (codes t) seconds)
unfolding to_seconds
to_seconds_exact t seconds = (forth, back)
  where
    forth :
        to_seconds (some t) ≡ ok seconds
        → ((t ≡ "0") × (seconds ≡ 0)) ⊎ IsDuration (codes t) seconds
    forth h = elim (Bool-cases (t === "0")) [
      | inl same ↦ inl ((===_iff t "0").0 same, ground arith)
      | inr differs ↦
          inr (first_match_sound unit_sec_pairs (codes t) seconds All-units (ground arith))
    ]

    back :
        ((t ≡ "0") × (seconds ≡ 0)) ⊎ IsDuration (codes t) seconds
        → to_seconds (some t) ≡ ok seconds
    back (inl (same, zero)) = rw (same, zero) refl
    back (inr d) = rw (not_zero t seconds d) (rw (d.split, d.total) (first_match-IsDuration d))

-- Any other text is refused by the one exception.
first_match_result :
    (units : List (ℕ × ℕ)) (s : List ℕ)
    → ((n : ℕ) × (first_match units s ≡ ok n)) ⊎ (first_match units s ≡ raised time_str_parse_type)
unfolding first_match
first_match_result [] s = inr refl
first_match_result ((u, sec) ∷ units) s = ground (arith, first_match_result units s)
