-- ===== src/Handler/Pipe.antt =====
-- The loop of `user_using` (lobbyboy/socket_handle.py) between the user's channel and the proxy's terminal.
use mathlib.Core.List.{append-nil}
use lobbyboy.Base.{◌≡◌, refl, ℕ, zero, suc, Bool, true, false, Option, none, some}
use lobbyboy.Act.{ok, Act, Void, skip, ◌>>◌}
use lobbyboy.Text.Utf8.{Bytes}
use lobbyboy.World.{Channel}
use lobbyboy.Terminal.{bytes, ensure_bytes, send_with, send_inline}
use lobbyboy.Handler.Menu.{Site}
use lobbyboy.Handler.Shell.{Line, pass_on, select_round, use_loop}
use lobbyboy.Handler.Stream.{View, Unraised, Takes, Shows, Hears, Wrote, Calls, IsPipe}
use lobbyboy.Handler.Carried.{
  Carried, Carries, Stays-Carried, follow-Carries, shown-Carried, passed-Carried, both-Carried,
  dropped-Calls,
}

module _ {X : Type 0} (view : View X) (site : Site X) (line : Line X) (channel : Channel)
    (master : ℕ) (pipe : IsPipe view site line channel master) where
  send-Shows :
      (bs : Bytes) (x : X)
      → Calls view (λ _. Shows view bs) x (send_inline site.net channel (bytes bs) x)
  unfolding send_inline send_with ensure_bytes
  send-Shows bs x = rw (append-nil) (pipe.sendall-Shows bs x)

  stays : (x : X) → Carried view line master x x
  stays x = Stays-Carried view line master x x (refl, refl, refl, refl)

  pass_on-Carries :
      (ready : Bool × Bool) → Carries view line master (pass_on site line channel master ready)
  unfolding pass_on
  pass_on-Carries (true, _) x =
      both-Carried view line master (Takes view) (λ bs _. Shows view bs) x
        (line.read master 10240 x) (λ bs. send_inline site.net channel (bytes bs))
        (pipe.read-Takes x) (λ bs y _. send-Shows bs y)
        λ bs _ y z t s. shown-Carried view line master bs x y z t s
  pass_on-Carries (false, true) x =
      both-Carried view line master (Hears view)
        (λ bs _ y z. (n : ℕ) × ((line.write master bs y).0 ≡ ok n) × Wrote view bs n y z) x
        (site.net.recv channel 10240 x) (λ bs. line.write master bs >> skip) (pipe.recv-Hears x)
        (λ bs y _.
          dropped-Calls view line master (Wrote view bs) (line.write master bs) y
            (line.write master bs y) refl (pipe.write-Wrote bs y))
        λ bs _ y z t (n, made, s). passed-Carried view line master bs n x y z made t s
  pass_on-Carries (false, false) x = λ u. stays x

  round-Carries :
      (channel_fd : ℕ)
      → Carries view line master (select_round site line channel (some master) channel_fd)
  unfolding select_round
  round-Carries channel_fd =
      follow-Carries view line master (line.select master channel_fd)
        (λ r. pass_on site line channel master r)
        (λ x _.
          Stays-Carried view line master x (line.select master channel_fd x).1
            (pipe.select-Stays channel_fd x))
        pass_on-Carries

  polled-Carries :
      (channel_fd : ℕ) (rest : Act X Void) (returncode : Option ℕ)
      → Carries view line master rest
      → Carries view line master (elim returncode [
        | none ↦ select_round site line channel (some master) channel_fd >> rest
        | some _ ↦ skip
      ])
  polled-Carries channel_fd rest none p =
      follow-Carries view line master (select_round site line channel (some master) channel_fd)
        (λ _. rest) (round-Carries channel_fd) λ _. p
  polled-Carries channel_fd rest (some code) p = λ x u. stays x

  -- While the loop of `user_using` goes on, and when it ends without an exception, whatever number of
  -- rounds it has made: the proxy's output that has been read has been shown, all of it, once and in
  -- its order, and what it has still to say when the loop ends stays unshown. The user's input that
  -- has been read is a sequence of messages, and the proxy has been passed of each, in their order, the
  -- front that `os.write`, called with the whole message, says it wrote, with nothing else; the rest of
  -- a message that is not written in full is lost. The channel takes every message in full or raises.
  pub use_loop-Carries :
      (rounds pid channel_fd : ℕ) (x : X)
      → Unraised view (use_loop site line channel rounds pid (some master) channel_fd x).0
      → Carried view line master x
          (use_loop site line channel rounds pid (some master) channel_fd x).1
  unfolding use_loop
  use_loop-Carries zero pid channel_fd x u = stays x
  use_loop-Carries (suc rounds) pid channel_fd x u =
      let rest = use_loop site line channel rounds pid (some master) channel_fd in
      follow-Carries view line master (line.poll pid) _
        (λ x _. Stays-Carried view line master x (line.poll pid x).1 (pipe.poll-Stays pid x))
        (λ returncode.
          polled-Carries channel_fd rest returncode (use_loop-Carries rounds pid channel_fd))
        x u
