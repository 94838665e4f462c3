-- ===== src/Terminal/Choice.antt =====
-- `choose_option` (lobbyboy/utils.py): what it returns, and which line of the user's decides it.
use mathlib.Core.Option
use lobbyboy.Base.{◌≡◌, refl, ℕ, zero, suc, Option, some, none, List, get_elem?, ap, String, ◌<>◌}
use lobbyboy.Base.Int.{ℤ, pos, negsuc}
use lobbyboy.Act.{
  ok, Act, pure, ◌>>=◌, Returns, follow-Returns, try_except-Returns, try_except, lift,
}
use lobbyboy.World.{Channel, Net}
use lobbyboy.Terminal.{
  str, send_to_channel, choose_option, try_select, ask, refuse, accept, selected, in_range,
}

map-some :
    {A B : Type 0} (f : A → B) (o : Option A) {b : B}
    → Option.map f o ≡ some b
    → (a : A) × (o ≡ some a) × (f a ≡ b)
map-some f none h = absurd cc
map-some f (some a) h = (a, refl, cc h)

in_range-IsIndex :
    (z : ℤ) (options : List String) (n : ℕ) (option : String)
    → in_range z options ≡ some (n, option)
    → get_elem? options n ≡ some option
unfolding in_range
in_range-IsIndex (negsuc z) options n option h = absurd cc
in_range-IsIndex (pos z) options n option h =
    let (o, e, f) = map-some (λ (o : String). (z, o)) (get_elem? options z) h in
    let at : z ≡ n = ap (λ (p : ℕ × String). p.0) f in
    let this : o ≡ option = ap (λ (p : ℕ × String). p.1) f in rw (← at, ← this) e

module _ {X : Type 0} (net : Net X) (channel : Channel) (options : List String) where
  abbrev IsIndex : ℕ → Type 0
  IsIndex n = (option : String) × (get_elem? options n ≡ some option)

  accept-Returns :
      (found : Option (ℕ × String))
      → ((n : ℕ) (option : String) → found ≡ some (n, option) → IsIndex n)
      → Returns IsIndex (accept net channel found)
  unfolding accept
  accept-Returns none p = λ x n h. absurd cc
  accept-Returns (some (m, option)) p =
      follow-Returns IsIndex (send_to_channel net channel (str ("You selected: " <> option)))
        (λ _. pure m) λ _ x n h. p n option (let e : m ≡ n = cc h in rw (e) refl)

  try_select-Returns :
      (line : List ℕ) (default : Option ℤ)
      → Returns IsIndex (try_select net channel line options default)
  unfolding try_select
  try_select-Returns line default =
      follow-Returns IsIndex (lift (selected line default))
        (λ z. accept net channel (in_range z options))
        λ z.
          accept-Returns (in_range z options)
            λ n option e. (option, in_range-IsIndex z options n option e)

module _ {X : Type 0} (net : Net X) (channel : Channel) (rounds : ℕ) where
  -- A number that `choose_option` returns is the index of one of the options, whatever the channel
  -- does, the default is, and however often the user has to be asked.
  pub choose_option-IsIndex :
      (times : ℕ) (options : List String) (option_prompt ask_prompt : Option String)
      (default : Option ℤ) (x : X) (n : ℕ)
      → (choose_option net channel rounds times options option_prompt ask_prompt default x).0 ≡ ok n
      → (option : String) × (get_elem? options n ≡ some option)
  unfolding choose_option
  choose_option-IsIndex zero options option_prompt ask_prompt default = λ x n h. absurd cc
  choose_option-IsIndex (suc times) options option_prompt ask_prompt default =
      let P : ℕ → Type 0 = IsIndex net channel options in
      let again : Act X ℕ =
        choose_option net channel rounds times options option_prompt ask_prompt none in
      follow-Returns P (ask net channel rounds options option_prompt ask_prompt)
        (λ line.
          try_except (try_select net channel line options default)
            λ e. refuse net channel options >>= λ _. again)
        λ line.
          try_except-Returns P (try_select net channel line options default)
            (λ e. refuse net channel options >>= λ _. again)
            (try_select-Returns net channel options line default)
            λ e.
              follow-Returns P (refuse net channel options) (λ _. again)
                λ _. choose_option-IsIndex times options option_prompt ask_prompt none
