-- ===== src/Terminal/Read.antt =====
-- The loop of `read_user_input_line` (lobbyboy/utils.py) over a channel whose client has typed
-- certain bytes and then nothing more.
use lobbyboy.Base.{
  ◌≡◌, refl, sym, ℕ, zero, suc, ◌<◌, true, false, List, [], ◌∷◌, ◌++◌, ◌==◌, length, All, arith,
  ◌∙◌, ap, inl, inr, Bool-cases,
}
use mathlib.Core.List.{append-nil}
use lobbyboy.Exceptions.{user_cancel}
use lobbyboy.Act.{ok, raised, running}
use lobbyboy.Text.Utf8.{Bytes, encode, IsScalar, decode-encode}
use lobbyboy.World.{Channel, Net}
use lobbyboy.Terminal.{
  read_loop, read_user_input_line, send_inline, send_to_channel, on_key, key, crlf, decoded,
  send_with, ensure_bytes, is_byte,
}
use lobbyboy.Terminal.Line.{
  entered, cancelled, unfinished, line_of, rest_of, line_result, is_stop, IsInput, kept,
  line_of-append, rest_of-append,
}

-- `recv(1)` gives the next byte, or no byte once the client has closed; `sendall` sends all it gets.
pub record IsStream {X : Type 0} (net : Net X) (channel : Channel) (pending : X → Bytes)
    : Type 0 where
  pub recv-byte :
      (x : X) (b : ℕ) (bs : Bytes)
      → pending x ≡ b ∷ bs
      → (y : X) × (net.recv channel 1 x ≡ (ok (b ∷ []), y)) × (pending y ≡ bs)
  pub recv-closed :
      (x : X) → pending x ≡ [] → (y : X) × (net.recv channel 1 x ≡ (ok [], y)) × (pending y ≡ [])
  pub sendall-all :
      (x : X) (bs : Bytes)
      → (y : X) × (net.sendall channel bs x ≡ (ok tt, y)) × (pending y ≡ pending x)

module _ {X : Type 0} (net : Net X) (channel : Channel) (pending : X → Bytes)
    (law : IsStream net channel pending) where
  -- Once the client has closed, every round reads no byte and keeps on.
  pub read_loop-closed :
      (rounds : ℕ) (chars : Bytes) (x : X)
      → pending x ≡ []
      → (y : X) × (read_loop net channel rounds chars x ≡ (running, y)) × (pending y ≡ [])
  unfolding read_loop on_key key is_byte encode send_inline send_with ensure_bytes
  read_loop-closed zero chars x h = (x, refl, h)
  read_loop-closed (suc rounds) chars x h =
      let (y, e, p) = law.recv-closed x h in
      let (z, f, q) = law.sendall-all y [] in
      let (u, g, r) = read_loop-closed rounds (chars ++ []) z (q ∙ p) in (u, rw (e, f, g) refl, r)

  -- A round on a byte.
  round_stop :
      (rounds : ℕ) (chars : Bytes) (x y : X) (b : ℕ)
      → net.recv channel 1 x ≡ (ok (b ∷ []), y)
      → is_stop b ≡ true
      → read_loop net channel (suc rounds) chars x ≡ (line_result cancelled, y)
  unfolding read_loop on_key key is_byte encode
  round_stop rounds chars x y b e s = rw (e, s) refl

  round_enter :
      (rounds : ℕ) (chars : Bytes) (x y z : X) (b : ℕ)
      → net.recv channel 1 x ≡ (ok (b ∷ []), y)
      → is_stop b ≡ false
      → (b == 13) ≡ true
      → net.sendall channel crlf y ≡ (ok tt, z)
      → read_loop net channel (suc rounds) chars x ≡ (ok chars, z)
  unfolding read_loop on_key key is_byte encode send_to_channel send_with ensure_bytes
  round_enter rounds chars x y z b e s n f = rw (e, s, n, f) refl

  round_erase :
      (rounds : ℕ) (chars : Bytes) (x y z : X) (b : ℕ)
      → net.recv channel 1 x ≡ (ok (b ∷ []), y)
      → is_stop b ≡ false
      → (b == 13) ≡ false
      → (b == 127) ≡ true
      → net.sendall channel (8 ∷ 27 ∷ 91 ∷ 75 ∷ []) y ≡ (ok tt, z)
      → read_loop net channel (suc rounds) chars x ≡ read_loop net channel rounds chars z
  unfolding read_loop on_key key is_byte encode send_inline send_with ensure_bytes
  round_erase rounds chars x y z b e s n d f = rw (e, s, n, d, f) refl

  round_typed :
      (rounds : ℕ) (chars : Bytes) (x y z : X) (b : ℕ)
      → net.recv channel 1 x ≡ (ok (b ∷ []), y)
      → is_stop b ≡ false
      → (b == 13) ≡ false
      → (b == 127) ≡ false
      → net.sendall channel (b ∷ []) y ≡ (ok tt, z)
      → read_loop net channel (suc rounds) chars x
        ≡ read_loop net channel rounds (chars ++ b ∷ []) z
  unfolding read_loop on_key key is_byte encode send_inline send_with ensure_bytes
  round_typed rounds chars x y z b e s n d f = rw (e, s, n, d, f) refl

  -- The loop gives the line that the pending bytes spell, and takes just those off the channel.
  read_loop-line_of :
      (bs : Bytes) (rounds : ℕ) (chars : Bytes) (x : X)
      → pending x ≡ bs
      → length bs < rounds
      → (y : X) × (read_loop net channel rounds chars x ≡ (line_result (line_of chars bs), y))
        × (pending y ≡ rest_of bs)
  unfolding line_of rest_of
  read_loop-line_of bs zero chars x h l = absurd (omega arith)
  read_loop-line_of [] (suc rounds) chars x h l = read_loop-closed (suc rounds) chars x h
  read_loop-line_of (b ∷ bs) (suc rounds) chars x h l =
      let (y, e, p) = law.recv-byte x b bs h in
      elim (Bool-cases (is_stop b)) [
        | inl s ↦ (y, rw (s) (round_stop rounds chars x y b e s), rw (s) p)
        | inr s ↦ elim (Bool-cases (b == 13)) [
          | inl n ↦
              let (z, f, q) = law.sendall-all y crlf in
              (z, rw (s, n) (round_enter rounds chars x y z b e s n f), rw (s, n) (q ∙ p))
          | inr n ↦ elim (Bool-cases (b == 127)) [
            | inl d ↦
                let (z, f, q) = law.sendall-all y (8 ∷ 27 ∷ 91 ∷ 75 ∷ []) in
                let (u, g, r) = read_loop-line_of bs rounds chars z (q ∙ p) (omega arith) in
                (u, rw (s, n, d) (round_erase rounds chars x y z b e s n d f ∙ g), rw (s, n) r)
            | inr d ↦
                let (z, f, q) = law.sendall-all y (b ∷ []) in
                let (u, g, r) =
                  read_loop-line_of bs rounds (chars ++ b ∷ []) z (q ∙ p) (omega arith) in
                (u, rw (s, n, d) (round_typed rounds chars x y z b e s n d f ∙ g), rw (s, n) r)
          ]
        ]
      ]

  -- Over a stream, when the client types `keys` that hold no return, control-C or control-D, and then
  -- a return, the read with more rounds than there are bytes gives the text that the keys without the
  -- deletes encode, and leaves on the channel just what follows the return.
  pub read_user_input_line-entered :
      (rounds : ℕ) (x : X) (keys rest : Bytes) (s : List ℕ)
      → pending x ≡ keys ++ 13 ∷ rest
      → All IsInput keys
      → All IsScalar s
      → kept keys ≡ encode s
      → length (pending x) < rounds
      → (y : X) × (read_user_input_line net channel rounds x ≡ (ok s, y)) × (pending y ≡ rest)
  unfolding read_user_input_line decoded line_of rest_of
  read_user_input_line-entered rounds x keys rest s h a scalars k l =
      let (y, f, p) = read_loop-line_of (pending x) rounds [] x refl l in
      let line : line_of [] (pending x) ≡ entered (kept keys) =
        rw (h) (line_of-append keys [] (13 ∷ rest) a) in
      let left : rest_of (pending x) ≡ rest = rw (h) (rest_of-append keys (13 ∷ rest) a) in
      (y, rw (f, line, k, decode-encode s scalars) refl, p ∙ left)

  -- Over a stream, a control-C or control-D that the client types before any return cancels the read
  -- with more rounds than there are bytes: it raises `UserCancelException`, and takes the key with it.
  pub read_user_input_line-cancelled :
      (rounds : ℕ) (x : X) (keys rest : Bytes) (b : ℕ)
      → pending x ≡ keys ++ b ∷ rest
      → All IsInput keys
      → is_stop b ≡ true
      → length (pending x) < rounds
      → (y : X) × (read_user_input_line net channel rounds x ≡ (raised user_cancel, y))
        × (pending y ≡ rest)
  unfolding read_user_input_line line_of rest_of
  read_user_input_line-cancelled rounds x keys rest b h a stop l =
      let (y, f, p) = read_loop-line_of (pending x) rounds [] x refl l in
      let line : line_of [] (pending x) ≡ cancelled =
        rw (h) (line_of-append keys [] (b ∷ rest) a ∙ rw (stop) refl) in
      let left : rest_of (pending x) ≡ rest =
        rw (h) (rest_of-append keys (b ∷ rest) a ∙ rw (stop) refl) in
      (y, rw (f, line) refl, p ∙ left)

  -- Over a stream, when the client closes the channel before it has typed a return, control-C or
  -- control-D, the read goes on whatever number of rounds beyond its bytes it is given: it neither
  -- returns nor raises.
  pub read_user_input_line-never_ends :
      (rounds : ℕ) (x : X)
      → All IsInput (pending x)
      → length (pending x) < rounds
      → (read_user_input_line net channel rounds x).0 ≡ running
  unfolding read_user_input_line line_of
  read_user_input_line-never_ends rounds x a l =
      let (y, f, p) = read_loop-line_of (pending x) rounds [] x refl l in
      let line : line_of [] (pending x) ≡ unfinished =
        ap (line_of []) (sym (append-nil (pending x))) ∙ line_of-append (pending x) [] [] a in
      rw (f, line) refl
