-- ===== src/Handler/Run.antt =====
-- lobbyboy/socket_handle.py: `run`, from the transport on.

use lobbyboy.Base.{ℕ, true, false, String, ◌<>◌, Option, none, some}
use lobbyboy.Act.{Act, Void, gets, modify, try_except, ◌>>=◌, ◌>>◌}
use lobbyboy.Config.Types.{ServerMeta}
use lobbyboy.World.{Channel, Transport, World, outside}
use lobbyboy.Handler.Menu.{Site, tell}
use lobbyboy.Handler.Shell.{Line, prepare_server, prepare_shell_env, user_using}
use lobbyboy.Handler.Close.{cleanup}

-- The shared world, and `self.channel`.
pub record Thread (X : Type 0) : Type 0 where
  pub world : World X
  pub channel : Option Channel

module _ {X A : Type 0} where
  abbrev pub shared : Act (World X) A → Act (Thread X) A
  shared m s = let (r, w) = m s.world in (r, record s { world = w })

unfoldable pub welcome_text : String → String
welcome_text version = "Welcome to LobbyBoy " <> version <> "!"

unfoldable pub closed_text : String → String
closed_text name = "LobbyBoy: SSH to remote server " <> name <> " closed."

module _ {X : Type 0} (site : Site X) (line : Line X) (t : Transport) where
  -- The part of `try` behind `prepare_shell_env`, on what it gives.
  unfoldable pub use_shell : Channel → Option (ℕ × ServerMeta) → Act (World X) Void
  unfolding cleanup user_using tell closed_text
  use_shell channel none = cleanup site (some channel) (some t) none false
  use_shell channel (some (pid, lb_server)) = do
    user_using site line channel pid
    tell site channel (closed_text lb_server.server_name)
    cleanup site (some channel) (some t) (some lb_server) true

  -- The part of `try` behind `prepare_server`.
  unfoldable pub serve : Option Channel → Act (World X) Void
  unfolding cleanup use_shell prepare_shell_env tell welcome_text
  serve none = cleanup site none (some t) none false
  serve (some channel) = do
    tell site channel (welcome_text line.version)
    made ← prepare_shell_env site line channel t
    use_shell channel made

  -- The `except` clause has no `lb_server` to clean up after.
  unfoldable pub run : Act (Thread X) Void
  unfolding prepare_server serve cleanup
  run =
      try_except
        (do
          shared (outside (line.set_gss_host t))
          opened ← shared (prepare_server site line t)
          modify (λ s. record s { channel = opened })
          shared (serve opened))
        (λ _. do channel ← gets (λ s. s.channel); shared (cleanup site channel (some t) none false))
