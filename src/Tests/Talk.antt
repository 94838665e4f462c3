-- ===== src/Tests/Talk.antt =====
-- A user at a channel that is the bytes which the user has still to send.
use lobbyboy.Base.{◌≡◌, refl, ℕ, true, false, String, List, [], ◌∷◌, none, some, get_elem?, arith}
use lobbyboy.Exceptions.{user_cancel}
use lobbyboy.Act.{Result, ok, raised, running, pure}
use lobbyboy.Text.Utf8.{Bytes, encode, decode}
use lobbyboy.Text.Digits.{int_of}
use lobbyboy.World.{Net}
use lobbyboy.Terminal.{choose_option, read_user_input_line}
use lobbyboy.Terminal.Line.{kept}
use lobbyboy.Terminal.Read.{
  IsStream, read_user_input_line-entered, read_user_input_line-cancelled,
  read_user_input_line-never_ends,
}
use lobbyboy.Terminal.Choice.{choose_option-IsIndex}
use lobbyboy.Terminal.Answer.{
  first_choice, choice, number_of, option_at, type_lines, choose_option-first_choice,
}
use lobbyboy.BaseProvider.{System, time_process_action}
use lobbyboy.BaseProvider.Checks.{time_process_action-IsDone}

-- One byte of what is pending.
abbrev pub next_byte : Bytes → Result Bytes × Bytes
next_byte [] = (ok [], [])
next_byte (b ∷ bs) = (ok (b ∷ []), bs)

abbrev pub line : Net Bytes
line = record {
  recv = λ channel n pending. next_byte pending;
  sendall = λ channel bs. pure tt;
  shutdown = λ channel. pure tt;
  get_transport = λ channel. 7;
  getpeername = λ t. pure ("10.0.0.9", t);
  close = λ t. pure tt;
}

line-IsStream : IsStream line 0 (λ x. x)
line-IsStream = record {
  recv-byte = λ x b bs e. (bs, rw e refl, refl);
  recv-closed = λ x e. ([], rw e refl, refl);
  sendall-all = λ x bs. (x, refl, refl);
}

-- "1", a delete, "2" and a return, with one byte more.
abbrev typed : Bytes
typed = 49 ∷ 127 ∷ 50 ∷ 13 ∷ 120 ∷ []

read_user_input_line-entered_example :
    (y : Bytes) × (read_user_input_line line 0 9 typed ≡ (ok (49 ∷ 50 ∷ []), y)) × (y ≡ 120 ∷ [])
unfolding kept encode
read_user_input_line-entered_example =
    read_user_input_line-entered line 0 (λ x. x) line-IsStream 9 typed (49 ∷ 127 ∷ 50 ∷ [])
      (120 ∷ []) (49 ∷ 50 ∷ []) refl ((refl, refl), ((refl, refl), ((refl, refl), tt)))
      (omega arith, (omega arith, tt)) refl (omega arith)

read_user_input_line-cancelled_example :
    (y : Bytes) × (read_user_input_line line 0 9 (49 ∷ 3 ∷ 120 ∷ []) ≡ (raised user_cancel, y))
    × (y ≡ 120 ∷ [])
read_user_input_line-cancelled_example =
    read_user_input_line-cancelled line 0 (λ x. x) line-IsStream 9 (49 ∷ 3 ∷ 120 ∷ []) (49 ∷ [])
      (120 ∷ []) 3 refl ((refl, refl), tt) refl (omega arith)

read_user_input_line-never_ends_example : (read_user_input_line line 0 1000 (49 ∷ [])).0 ≡ running
read_user_input_line-never_ends_example =
    read_user_input_line-never_ends line 0 (λ x. x) line-IsStream 1000 (49 ∷ []) ((refl, refl), tt)
      (omega arith)

abbrev names : List String
names = "a" ∷ "b" ∷ []

-- The lines "x" and "1".
abbrev two_lines : List (List ℕ)
two_lines = (120 ∷ []) ∷ (49 ∷ []) ∷ []

choose_option-first_choice_example :
    (choose_option line 0 20 2 names none none none (type_lines two_lines [])).0 ≡ ok 1
unfolding first_choice choice number_of option_at int_of kept encode
choose_option-first_choice_example =
    choose_option-first_choice line 0 (λ x. x) line-IsStream 20 two_lines 2 names none none none []
      (type_lines two_lines []) 1 "b"
      (
        ((omega arith, tt), ((refl, refl), tt), refl),
        (((omega arith, tt), ((refl, refl), tt), refl), tt),
      )
      refl (omega arith) (omega arith) refl

choose_option-IsIndex_example : (option : String) × (get_elem? names 1 ≡ some option)
unfolding choose_option decode
choose_option-IsIndex_example =
    choose_option-IsIndex line 0 20 2 names none none none (type_lines two_lines []) 1 refl

abbrev clock : System Bytes
clock = record {
  exists = λ path x. false;
  mkdir = λ path. pure tt;
  minute = λ x. "";
  sleep = λ n. pure tt;
  time = λ x. 0;
  elapsed = λ a b. "0.0";
}

time_process_action-IsDone_example : (y : Bytes) × ((pure {S = Bytes} true y).0 ≡ ok true)
unfolding time_process_action
time_process_action-IsDone_example =
    time_process_action-IsDone clock line 0 (pure true) "is server ready" 20 3 [] refl
