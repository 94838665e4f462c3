-- ===== src/Handler/Shell.antt =====
-- lobbyboy/socket_handle.py: `prepare_server`, `prepare_shell_env` and `user_using`.

use lobbyboy.Base.{ℕ, zero, suc, Bool, true, false, String, ◌<>◌, Option, none, some, if◌then◌else◌}
use lobbyboy.Exceptions.{Exn, is_provider_exception, type_error, is_user_cancel}
use lobbyboy.Act.{
  running, Act, Void, skip, raise, pure, lift, gets, modify, try_except, ◌>>=◌, ◌>>◌,
}
use lobbyboy.Text.Utf8.{Bytes}
use lobbyboy.Config.Types.{ServerMeta}
use lobbyboy.Paths.{FilePath}
use lobbyboy.KeyFiles.{Files, rsa, confirm_ssh_key_pair}
use lobbyboy.World.{Channel, Transport, World, outside}
use lobbyboy.Terminal.{bytes, send_inline}
use lobbyboy.Server.{Session, new_session, master_fd, slave_fd}
use lobbyboy.Handler.Menu.{Site, tell, create_proxy_process}

-- What the thread has of its own: the `Server` of the connection, the calls that set it up, and the
-- system calls that pass bytes between the user and the proxy.
pub record Line (X : Type 0) : Type 0 where
  pub version : String
  pub set_gss_host : Transport → Act X Void
  pub load_server_moduli : Transport → Act X Void
  pub files : Files X
  pub data_dir : FilePath
  pub add_server_key : Transport → String → Act X Void
  pub start_server : Transport → Act X Bool
  pub accept : Transport → Act X (Option Channel)
  pub session : X → Session
  pub put_session : Session → X → X
  pub wait_shell : Act X Bool
  pub poll : ℕ → Act X (Option ℕ)
  pub fileno : Channel → Act X ℕ
  pub select : ℕ → ℕ → Act X (Bool × Bool)
  pub read : ℕ → ℕ → Act X Bytes
  -- `os.write`, which gives how many of the bytes it has written.
  pub write : ℕ → Bytes → Act X ℕ
  pub describe : Exn → String

-- `n * "="`
unfoldable pub bar : ℕ → String
bar zero = ""
bar (suc n) = "=" <> bar n

module _ {X : Type 0} (site : Site X) (line : Line X) where
  -- The channel that is accepted, once `start_server` has not raised `SSHException`.
  unfoldable pub accept_channel : Transport → Bool → Act X (Option Channel)
  accept_channel t true = line.accept t
  accept_channel t false = pure none

  -- The channel that the thread keeps from here on, when the client has opened one.
  unfoldable pub prepare_server : Transport → Act (World X) (Option Channel)
  unfolding accept_channel confirm_ssh_key_pair
  prepare_server t = do
    outside (line.load_server_moduli t)
    pair ←
        outside (confirm_ssh_key_pair line.files line.data_dir rsa none (some "ssh_host_rsa_key"))
    outside (line.add_server_key t pair.0)
    outside (modify (line.put_session new_session))
    started ← outside (line.start_server t)
    outside (accept_channel t started)

module _ {X : Type 0} (site : Site X) (line : Line X) (channel : Channel) where
  -- A message, and no proxy.
  unfoldable pub apologize : String → Act (World X) (Option (ℕ × ServerMeta))
  unfolding tell
  apologize s = do tell site channel s; pure none

  unfoldable pub report : String → Exn → Act (World X) (Option (ℕ × ServerMeta))
  unfolding tell
  report s e = do tell site channel s; raise e

  -- What the `except` clauses of `prepare_shell_env` do: tell the user, and raise again what is
  -- neither the user's nor a provider's.
  unfoldable pub on_failure : Exn → Act (World X) (Option (ℕ × ServerMeta))
  unfolding apologize report
  on_failure e =
      if is_user_cancel e
      then apologize "Got EOF, closing session..."
      else if is_provider_exception e
      then apologize ("LobbyBoy got exceptions from provider: " <> line.describe e)
      else report ("LobbyBoy got exceptions: " <> line.describe e) e

  unfoldable pub try_proxy : Act (World X) (Option (ℕ × ServerMeta))
  unfolding create_proxy_process
  try_proxy = do
    session ← gets (λ w. line.session w.env)
    made ← create_proxy_process site channel (slave_fd session)
    pure (some made)

  unfoldable pub set_pid : ℕ → X → X
  set_pid pid x = line.put_session (record (line.session x) { proxy_subprocess_pid = some pid }) x

  -- The end of `prepare_shell_env`, on what has been made.
  unfoldable pub open_shell : Option (ℕ × ServerMeta) → Act (World X) (Option (ℕ × ServerMeta))
  unfolding tell set_pid bar
  open_shell none = pure none
  open_shell (some (pid, meta)) = do
    outside (modify (set_pid pid))
    session ← gets (λ w. line.session w.env)
    tell site channel (bar session.window_width)
    pure (some (pid, meta))

  unfoldable pub start_shell : Transport → Act (World X) (Option (ℕ × ServerMeta))
  unfolding try_proxy on_failure open_shell
  start_shell t = do
    outside (site.net.getpeername t)
    made ← try_except try_proxy on_failure
    open_shell made

  -- The part behind the wait for the shell's event.
  unfoldable pub shell_if : Transport → Bool → Act (World X) (Option (ℕ × ServerMeta))
  unfolding start_shell apologize
  shell_if t true = start_shell t
  shell_if t false = apologize "*** Client never asked for a shell. Server will end session..."

  unfoldable pub prepare_shell_env : Transport → Act (World X) (Option (ℕ × ServerMeta))
  unfolding shell_if
  prepare_shell_env t = do is_set ← outside line.wait_shell; shell_if t is_set

  -- What a round passes on: the proxy's bytes to the user, or else the user's to the proxy.
  unfoldable pub pass_on : ℕ → Bool × Bool → Act X Void
  unfolding send_inline
  pass_on master (true, _) = do
    data_read ← line.read master 10240
    send_inline site.net channel (bytes data_read)
  pass_on master (false, true) = do
    content ← site.net.recv channel 10240
    line.write master content
    skip
  pass_on master (false, false) = skip

  unfoldable pub select_round : Option ℕ → ℕ → Act X Void
  unfolding pass_on
  select_round none channel_fd = raise type_error
  select_round (some master) channel_fd = do r ← line.select master channel_fd; pass_on master r

  -- The loop, for so many rounds, while `poll` gives no return code.
  unfoldable pub use_loop : ℕ → ℕ → Option ℕ → ℕ → Act X Void
  unfolding select_round
  use_loop zero pid master channel_fd = lift running
  use_loop (suc rounds) pid master channel_fd = do
    returncode ← line.poll pid
    elim returncode [
      | none ↦ (do select_round master channel_fd; use_loop rounds pid master channel_fd)
      | some _ ↦ skip
    ]

  unfoldable pub user_using : ℕ → Act (World X) Void
  unfolding use_loop
  user_using pid = do
    channel_fd ← outside (line.fileno channel)
    session ← gets (λ w. line.session w.env)
    outside (use_loop site.rounds pid (master_fd session) channel_fd)
