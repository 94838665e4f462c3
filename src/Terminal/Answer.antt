-- ===== src/Terminal/Answer.antt =====
-- `choose_option` (lobbyboy/utils.py) over a channel on which the client types whole lines.
use mathlib.Core.Option
use lobbyboy.Base.{
  ◌≡◌, refl, sym, ℕ, zero, suc, ◌+◌, ◌<◌, ◌≤◌, Option, some, none, List, [], ◌∷◌, ◌++◌, length, All,
  arith, ◌∙◌, ap, String, inl, inr, Option-cases, ◌<>◌, given, get_elem?, length-append, codes, ◌≢◌,
}
use lobbyboy.Base.Int.{ℤ, pos, negsuc}
use lobbyboy.Text.Digits.{int_of}
use lobbyboy.Act.{ok, raised, running, Act, Void, ending, returned, threw, still_running}
use lobbyboy.Exceptions.{Exn, plain, value_error}
use lobbyboy.Text.Utf8.{Bytes, encode, IsScalar}
use lobbyboy.World.{Channel, Net}
use lobbyboy.Terminal.{
  str, send_with, ensure_bytes, send_to_channel, send_inline, choose_option, crlf, show_options,
  option_line, range_text, try_select, accept, selected, in_range, default_for, ask, refuse,
}
use lobbyboy.Terminal.Line.{IsInput, kept}
use lobbyboy.Terminal.Read.{IsStream, read_user_input_line-entered}

-- The number that a line stands for: an empty line stands for the default if there is one, and any
-- other line for the integer that it spells.
unfoldable pub number_of : List ℕ → Option ℤ → Option ℤ
unfolding int_of
number_of [] (some z) = some z
number_of [] none = int_of []
number_of (c ∷ line) default = int_of (c ∷ line)

-- The option with a number, which counts from zero.
unfoldable pub option_at : List String → ℤ → Option (ℕ × String)
option_at options (negsuc n) = none
option_at options (pos n) = elim (get_elem? options n) [
  | some option ↦ some (n, option)
  | none ↦ none
]

-- The index that a line chooses, with its option.
unfoldable pub choice : List String → List ℕ → Option ℤ → Option (ℕ × String)
unfolding number_of option_at
choice options line default = elim (number_of line default) [
  | some z ↦ option_at options z
  | none ↦ none
]

-- The choice of the first line that makes one; only the first line can stand for the default.
unfoldable pub first_choice : List String → List (List ℕ) → Option ℤ → Option (ℕ × String)
unfolding choice
first_choice options [] default = none
first_choice options (line ∷ lines) default = elim (choice options line default) [
  | some chosen ↦ some chosen
  | none ↦ first_choice options lines none
]

option_at-in_range : (options : List String) (z : ℤ) → option_at options z ≡ in_range z options
unfolding option_at in_range
option_at-in_range options (negsuc n) = refl
option_at-in_range options (pos n) = elim (Option-cases (get_elem? options n)) [
  | inl e ↦ rw (option_at, e) refl
  | inr (option, e) ↦ rw (option_at, e) refl
]

spelled-ok :
    (o : Option ℤ) (z : ℤ)
    → elim o [ some n ↦ ok n | none ↦ raised value_error ] ≡ ok z
    → o ≡ some z
spelled-ok none z e = absurd (cc e)
spelled-ok (some n) z e = cc e

spelled-raised :
    (o : Option ℤ) (w : Exn)
    → elim o [ some n ↦ ok n | none ↦ raised value_error ] ≡ raised w
    → o ≡ none
spelled-raised none w e = refl
spelled-raised (some n) w e = absurd (cc e)

number_of-ok :
    (line : List ℕ) (default : Option ℤ) (z : ℤ)
    → selected line default ≡ ok z
    → number_of line default ≡ some z
unfolding selected default_for number_of
number_of-ok [] none z e = spelled-ok (int_of []) z e
number_of-ok [] (some n) z e = cc e
number_of-ok (c ∷ line) default z e = spelled-ok (int_of (c ∷ line)) z e

number_of-raised :
    (line : List ℕ) (default : Option ℤ) (w : Exn)
    → selected line default ≡ raised w
    → number_of line default ≡ none
unfolding selected default_for number_of
number_of-raised [] none w e = spelled-raised (int_of []) w e
number_of-raised [] (some n) w e = absurd (cc e)
number_of-raised (c ∷ line) default w e = spelled-raised (int_of (c ∷ line)) w e

choice-ok :
    (options : List String) (line : List ℕ) (default : Option ℤ) (z : ℤ)
    → selected line default ≡ ok z
    → choice options line default ≡ in_range z options
unfolding choice
choice-ok options line default z e =
    rw (choice, number_of-ok line default z e) (option_at-in_range options z)

choice-raised :
    (options : List String) (line : List ℕ) (default : Option ℤ) (w : Exn)
    → selected line default ≡ raised w
    → choice options line default ≡ none
unfolding choice
choice-raised options line default w e = rw (choice, number_of-raised line default w e) refl

selected-ends : (line : List ℕ) (default : Option ℤ) → selected line default ≢ running
unfolding selected
selected-ends line default h = ground arith

first_choice-refused :
    (options : List String) (line : List ℕ) (lines : List (List ℕ)) (default : Option ℤ)
    → choice options line default ≡ none
    → first_choice options (line ∷ lines) default ≡ first_choice options lines none
unfolding first_choice
first_choice-refused options line lines default e = rw (first_choice, e) refl

first_choice-chosen :
    (options : List String) (line : List ℕ) (lines : List (List ℕ)) (default : Option ℤ)
    (chosen : ℕ × String)
    → choice options line default ≡ some chosen
    → first_choice options (line ∷ lines) default ≡ some chosen
unfolding first_choice
first_choice-chosen options line lines default chosen e = rw (first_choice, e) refl

-- A line that is typed as it is: of characters, with no return, control-C, control-D or delete.
abbrev pub IsTyped : List ℕ → Type 0
IsTyped line = All IsScalar line × All IsInput (encode line) × (kept (encode line) ≡ encode line)

-- The bytes of the lines, each with its return.
abbrev pub type_lines : List (List ℕ) → Bytes → Bytes
type_lines [] rest = rest
type_lines (line ∷ lines) rest = encode line ++ 13 ∷ type_lines lines rest

module _ {X : Type 0} (net : Net X) (channel : Channel) (pending : X → Bytes)
    (law : IsStream net channel pending) where
  -- A statement that only sends.
  abbrev Sends : Act X Void → Type 0
  Sends m = (x : X) → (y : X) × (m x ≡ (ok tt, y)) × (pending y ≡ pending x)

  send_to_channel-Sends : (s : String) → Sends (send_to_channel net channel (str s))
  unfolding send_to_channel send_with ensure_bytes
  send_to_channel-Sends s x = law.sendall-all x (encode (codes s) ++ crlf)

  send_inline-Sends : (s : String) → Sends (send_inline net channel (str s))
  unfolding send_inline send_with ensure_bytes
  send_inline-Sends s x = law.sendall-all x (encode (codes s) ++ [])

  show_options-Sends :
      (options : List String) (index : ℕ) → Sends (show_options net channel index options)
  unfolding show_options
  show_options-Sends [] index x = (x, refl, refl)
  show_options-Sends (option ∷ options) index x =
      let (y, e, p) = send_to_channel-Sends (option_line index option) x in
      let (z, f, q) = show_options-Sends options (index + 1) y in (z, rw (e) f, q ∙ p)

  -- A question takes the next line off the channel.
  ask-line :
      (rounds : ℕ) (options : List String) (option_prompt ask_prompt : Option String)
      (line : List ℕ) (rest : Bytes) (x : X)
      → IsTyped line
      → pending x ≡ encode line ++ 13 ∷ rest
      → length (pending x) < rounds
      → (y : X) × (ask net channel rounds options option_prompt ask_prompt x ≡ (ok line, y))
        × (pending y ≡ rest)
  unfolding ask
  ask-line rounds options option_prompt ask_prompt line rest x (scalars, input, k) h l =
      let (y, e, p) =
        send_to_channel-Sends (Option.get_or (given option_prompt) "Available options:") x in
      let (z, f, q) = show_options-Sends options 0 y in
      let (u, g, r) =
        send_inline-Sends
          (Option.get_or (given ask_prompt)
            ("Please enter the number of choice" <> range_text options <> ": "))
          z in
      let same : pending u ≡ pending x = r ∙ (q ∙ p) in
      let (v, i, s) =
        read_user_input_line-entered net channel pending law rounds u (encode line) rest line
          (same ∙ h) input scalars k (rw (same) l) in
      (v, rw (e, f, g) i, s)

  try_select-chosen :
      (options : List String) (line : List ℕ) (default : Option ℤ) (n : ℕ) (option : String) (x : X)
      → choice options line default ≡ some (n, option)
      → (y : X) × (try_select net channel line options default x ≡ (ok n, y))
  unfolding try_select accept choice
  try_select-chosen options line default n option x h = elim (ending (selected line default)) [
    | returned z e ↦
        let found : in_range z options ≡ some (n, option) =
          sym (choice-ok options line default z e) ∙ h in
        let (y, f, _) = send_to_channel-Sends ("You selected: " <> option) x in
        (y, rw (e, found, f) refl)
    | threw w e ↦ absurd (cc (sym (choice-raised options line default w e) ∙ h))
    | still_running e ↦ absurd (selected-ends line default e)
  ]

  try_select-refused :
      (options : List String) (line : List ℕ) (default : Option ℤ) (x : X)
      → choice options line default ≡ none
      → (e : Exn) × (try_select net channel line options default x ≡ (raised e, x))
  unfolding try_select accept choice
  try_select-refused options line default x h = elim (ending (selected line default)) [
    | returned z e ↦
        let found : in_range z options ≡ none = sym (choice-ok options line default z e) ∙ h in
        (plain, rw (e, found) refl)
    | threw w e ↦ (w, rw (e) refl)
    | still_running e ↦ absurd (selected-ends line default e)
  ]

  -- Over a stream on which the client types whole lines, `choose_option` returns the index that the
  -- first line which chooses an option chooses, when there is such a line, the rounds exceed the bytes,
  -- and there are as many questions as lines. The default counts for an empty first line alone.
  pub choose_option-first_choice :
      (rounds : ℕ) (lines : List (List ℕ)) (times : ℕ) (options : List String)
      (option_prompt ask_prompt : Option String) (default : Option ℤ) (rest : Bytes) (x : X) (n : ℕ)
      (option : String)
      → All IsTyped lines
      → pending x ≡ type_lines lines rest
      → length (pending x) < rounds
      → length lines ≤ times
      → first_choice options lines default ≡ some (n, option)
      → (choose_option net channel rounds times options option_prompt ask_prompt default x).0 ≡ ok n
  unfolding choose_option first_choice refuse
  choose_option-first_choice rounds [] times options op ask default rest x n option a h l m c =
      absurd cc
  choose_option-first_choice rounds (line ∷ lines) zero options op ask default rest x n option a h l
        m c =
      absurd (omega arith)
  choose_option-first_choice rounds (line ∷ lines) (suc times) options op ask default rest x n
        option (t, a) h l m c =
      let (y, e, p) = ask-line rounds options op ask line (type_lines lines rest) x t h l in
      elim (Option-cases (choice options line default)) [
        | inl f ↦
            let (w, g) = try_select-refused options line default y f in
            let (z, i, q) =
              send_to_channel-Sends ("unknown choice, please choose again " <> range_text options)
                y in
            let shorter : length (pending z) < rounds =
              rw (q, p)
                (let whole =
                    ap length h ∙ length-append (encode line) (13 ∷ type_lines lines rest) in
                  omega arith) in
            let next =
              choose_option-first_choice rounds lines times options op ask none rest z n option a
                (q ∙ p) shorter (omega arith)
                (sym (first_choice-refused options line lines default f) ∙ c) in
            rw (e, g, i) next
        | inr (chosen, f) ↦
            let same : some chosen ≡ some (n, option) =
              sym (first_choice-chosen options line lines default chosen f) ∙ c in
            let (z, g) = try_select-chosen options line default n option y (f ∙ same) in
            rw (e, g) refl
      ]
