-- ===== src/Terminal.antt =====
-- lobbyboy/utils.py: `ensure_bytes`, `send_to_channel`, `read_user_input_line` and `choose_option`,
-- over the channels of a `Net`.
pub mod Line
pub mod Read
pub mod Choice
pub mod Answer
use mathlib.Core.Option
use lobbyboy.Base.{
  ℕ, zero, suc, ◌+◌, Bool, true, false, ◌&&◌, ◌||◌, String, ◌<>◌, List, [], ◌∷◌, ◌++◌, Option, none,
  some, ◌==◌, if◌then◌else◌, length, get_elem?, is_empty, codes, given,
}
use lobbyboy.Base.Int.{ℤ, pos, negsuc, sub_ℕ}
use lobbyboy.Exceptions.{Exn, user_cancel, cant_ensure_bytes, unicode_decode, value_error, plain}
use lobbyboy.Act.{
  Result, ok, raised, running, Act, Void, skip, raise, pure, lift, try_except, ◌>>=◌, ◌>>◌,
}
use lobbyboy.Text.Digits.{int_of}
use lobbyboy.Text.Print.{decimal, right_3, show_ℤ}
use lobbyboy.Text.Utf8.{Bytes, encode, decode}
use lobbyboy.World.{Channel, Net}

-- A value that is sent: a text, bytes, or anything else.
pub data Message : Type 0 where
  str : String → Message
  bytes : Bytes → Message
  other : Message

unfoldable pub ensure_bytes : Message → Result Bytes
unfolding encode
ensure_bytes (str s) = ok (encode (codes s))
ensure_bytes (bytes b) = ok b
ensure_bytes other = raised cant_ensure_bytes

abbrev pub crlf : Bytes
crlf = 13 ∷ 10 ∷ []

-- `content == bytes([b])`
is_byte : Bytes → ℕ → Bool
is_byte (c ∷ []) b = c == b
is_byte _ b = false

pub data Key : Type 0 where
  cancel enter erase typed : Key

-- The tests of the loop in `read_user_input_line`, in their order.
key : Bytes → Key
unfolding is_byte
key content =
    if is_byte content 4 || is_byte content 3
    then cancel
    else if is_byte content 13
    then enter
    else if is_byte content 127
    then erase
    else typed

-- `b"".join(chars).decode()`
decoded : Option (List ℕ) → Result (List ℕ)
decoded none = raised unicode_decode
decoded (some s) = ok s

module _ {X : Type 0} (net : Net X) (channel : Channel) where
  -- `send_to_channel` with every argument.
  unfoldable pub send_with : Message → Message → Message → Act X Void
  unfolding ensure_bytes
  send_with msg prefix suffix = do
    msg' ← lift (ensure_bytes msg)
    prefix' ← lift (ensure_bytes prefix)
    suffix' ← lift (ensure_bytes suffix)
    net.sendall channel (prefix' ++ (msg' ++ suffix'))

  unfoldable pub send_to_channel : Message → Act X Void
  unfolding send_with
  send_to_channel msg = send_with msg (bytes []) (bytes crlf)

  -- `suffix=b""`
  unfoldable pub send_inline : Message → Act X Void
  unfolding send_with
  send_inline msg = send_with msg (bytes []) (bytes [])

  -- What a round does with the key that it has read; `again` is the rest of the loop.
  on_key : Key → Bytes → Bytes → (Bytes → Act X Bytes) → Act X Bytes
  unfolding send_to_channel send_inline
  on_key cancel content chars again = raise user_cancel
  on_key enter content chars again = do send_to_channel (bytes []); pure chars
  on_key erase content chars again = do send_inline (str "\u{8}\u{1b}[K"); again chars
  on_key typed content chars again = do send_inline (bytes content); again (chars ++ content)

  -- The loop of `read_user_input_line`, for so many rounds, behind `chars`.
  unfoldable pub read_loop : ℕ → Bytes → Act X Bytes
  unfolding key on_key
  read_loop zero chars = lift running
  read_loop (suc rounds) chars = do
    content ← net.recv channel 1
    on_key (key content) content chars (λ more. read_loop rounds more)

  unfoldable pub read_user_input_line : ℕ → Act X (List ℕ)
  unfolding read_loop decoded
  read_user_input_line rounds = do chars ← read_loop rounds []; lift (decoded (decode chars))

-- What the user is shown before the choice.
option_line : ℕ → String → String
unfolding right_3
option_line index option = right_3 index <> " - " <> option

-- `[0-{len(options) - 1}]`
range_text : List String → String
unfolding show_ℤ
range_text options = "[0-" <> show_ℤ (sub_ℕ (length options) 1) <> "]"

-- `result == "" and default is not None`
default_for : List ℕ → Option ℤ → Option ℤ
default_for [] default = default
default_for (_ ∷ _) default = none

-- The number that a line selects: the default, or the line as an integer.
selected : List ℕ → Option ℤ → Result ℤ
unfolding int_of default_for
selected line default = elim (default_for line default) [
  | some n ↦ ok n
  | none ↦ elim (int_of line) [ some n ↦ ok n | none ↦ raised value_error ]
]

-- `if 0 <= num_selected < len(options)`, with the option that it selects.
in_range : ℤ → List String → Option (ℕ × String)
in_range (negsuc n) options = none
in_range (pos n) options = Option.map (λ option. (n, option)) (get_elem? options n)

module _ {X : Type 0} (net : Net X) (channel : Channel) where
  show_options : ℕ → List String → Act X Void
  unfolding option_line send_to_channel
  show_options index [] = skip
  show_options index (option ∷ options) = do
    send_to_channel net channel (str (option_line index option))
    show_options (index + 1) options

  -- The body of `try`.
  accept : Option (ℕ × String) → Act X ℕ
  unfolding send_to_channel
  accept none = raise plain
  accept (some (n, option)) = do
    send_to_channel net channel (str ("You selected: " <> option))
    pure n

  try_select : List ℕ → List String → Option ℤ → Act X ℕ
  unfolding accept selected in_range
  try_select line options default = do
    num_selected ← lift (selected line default)
    accept (in_range num_selected options)

  -- The options and the prompt, and the line that the user answers with.
  ask : ℕ → List String → Option String → Option String → Act X (List ℕ)
  unfolding show_options send_to_channel send_inline read_user_input_line range_text
  ask rounds options option_prompt ask_prompt = do
    send_to_channel net channel (str (Option.get_or (given option_prompt) "Available options:"))
    show_options 0 options
    send_inline net channel (
        str (
          Option.get_or (given ask_prompt)
            ("Please enter the number of choice" <> range_text options <> ": ")))
    read_user_input_line net channel rounds

  refuse : List String → Act X Void
  unfolding send_to_channel range_text
  refuse options =
      send_to_channel net channel
        (str ("unknown choice, please choose again " <> range_text options))

  -- Every line is read in at most `rounds` rounds, and the user is asked at most so many times. A new
  -- question has no default.
  unfoldable pub choose_option :
      ℕ → ℕ → List String → Option String → Option String → Option ℤ → Act X ℕ
  unfolding try_select ask refuse
  choose_option rounds zero options option_prompt ask_prompt default = lift running
  choose_option rounds (suc times) options option_prompt ask_prompt default = do
    line ← ask rounds options option_prompt ask_prompt
    try_except (try_select line options default)
        λ e. do refuse options; choose_option rounds times options option_prompt ask_prompt none
