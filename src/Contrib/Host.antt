-- ===== src/Contrib/Host.antt =====
-- lobbyboy/provider.py and lobbyboy/utils.py: what the providers of lobbyboy/contrib/provider share,
-- over the files, the network, the clock and the programs of the host.
pub mod Kept
use mathlib.Core.Option
use lobbyboy.Base.{
  ℕ, zero, Bool, true, false, String, ◌<>◌, List, [], ◌∷◌, ◌++◌, Option, none, some, if◌then◌else◌,
}
use lobbyboy.Base.Int.{ℤ, pos, negsuc}
use lobbyboy.Base.Dict.{Dict}
use lobbyboy.Exceptions.{Exn, file_not_found, attribute_error, type_error}
use lobbyboy.Act.{
  Result, ok, raised, running, Act, Void, skip, raise, pure, lift, gets, try_except, ◌>>=◌, ◌>>◌,
}
use lobbyboy.Paths.{FilePath, joinpath, show_path}
use lobbyboy.Config.Json.{Raw}
use lobbyboy.Config.Types.{ConfigProvider, ServerMeta}
use lobbyboy.World.{Channel, Net}
use lobbyboy.Terminal.{str, send_to_channel}
use lobbyboy.BaseProvider.{System, time_process_action}
use lobbyboy.KeyFiles.{Files, rsa, confirm_ssh_key_pair}

-- The calls of `socket` for a connection with a time limit.
pub record Sockets (X : Type 0) : Type 0 where
  pub socket : Act X ℕ
  pub settimeout : ℕ → ℕ → Act X Void
  pub connect_ex : ℕ → String → ℕ → Act X ℤ
  pub close : ℕ → Act X Void

-- The host: `json.dump` and `json.load` on a file that holds an object, `int(time.time())` and
-- `os.getenv`, and how often a user is asked and heard.
pub record Host (X : Type 0) : Type 0 where
  pub net : Net X
  pub system : System X
  pub files : Files X
  pub sockets : Sockets X
  pub write_json : FilePath → Raw → Act X Void
  pub read_json : FilePath → Act X Raw
  pub now : X → ℤ
  pub getenv : String → X → Option String
  pub rounds : ℕ
  pub times : ℕ

-- What `BaseProvider.__init__` keeps.
pub record Base : Type 0 where
  pub name : String
  pub provider_config : ConfigProvider
  pub workspace : FilePath

abbrev server_file : String
server_file = "server.json"

-- `workspace.joinpath(SERVER_FILE)`
unfoldable pub server_path : FilePath → FilePath
unfolding joinpath
server_path workspace = joinpath workspace server_file

unfoldable pub get_server_workspace : Base → String → FilePath
unfolding joinpath
get_server_workspace self server_name = joinpath self.workspace server_name

-- An `LBServerMeta` made with its first four fields.
unfoldable pub server_meta : ℤ → String → String → FilePath → String → ServerMeta
server_meta now provider_name server_name workspace server_host = record {
  provider_name = provider_name;
  workspace = some workspace;
  server_name = server_name;
  server_host = server_host;
  server_user = "root";
  server_port = pos 22;
  created_timestamp = now;
  ssh_extra_args = [];
  manage = true;
}

unfoldable pub workspace_text : String → FilePath → String
unfolding show_path
workspace_text server_name server_workspace =
    "Generate server " <> server_name <> " workspace " <> show_path server_workspace <> " done."

-- `meta.workspace`, where it is used as a path.
unfoldable pub workspace_or_raise : {X : Type 0} → Option FilePath → Act X FilePath
workspace_or_raise none = raise attribute_error
workspace_or_raise (some p) = pure p

abbrev pub is_zero : ℤ → Bool
is_zero (pos zero) = true
is_zero _ = false

module _ {X : Type 0} (host : Host X) where
  unfoldable pub tell : Channel → String → Act X Void
  unfolding send_to_channel
  tell channel s = send_to_channel host.net channel (str s)

  -- `if channel:`
  unfoldable pub tell_if : Option Channel → String → Act X Void
  unfolding tell
  tell_if none s = skip
  tell_if (some channel) s = tell channel s

  unfoldable pub save_raw_server : Raw → FilePath → Act X FilePath
  unfolding server_path
  save_raw_server server_obj server_workspace = do
    host.write_json (server_path server_workspace) server_obj
    pure (server_path server_workspace)

  unfoldable pub load_raw_server : Option FilePath → Act X Raw
  unfolding server_path workspace_or_raise
  load_raw_server server_workspace = do
    workspace ← workspace_or_raise server_workspace
    host.read_json (server_path workspace)

  -- With `generate`.
  unfoldable pub collection_ssh_keys : Base → Option FilePath → Act X (List String)
  unfolding confirm_ssh_key_pair joinpath
  collection_ssh_keys self save_path = do
    pair ←
        confirm_ssh_key_pair host.files (joinpath (Option.get_or save_path self.workspace) ".ssh")
          rsa none none
    pure (self.provider_config.extra_ssh_keys ++ pair.1 ∷ [])

  unfoldable pub port_is_open : String → ℕ → Act X Bool
  port_is_open ip port = do
    a_socket ← host.sockets.socket
    host.sockets.settimeout a_socket 2
    result ← host.sockets.connect_ex a_socket ip port
    host.sockets.close a_socket
    pure (is_zero result)

  -- The timed check of a provider.
  unfoldable pub time_process : Channel → String → Act X Bool → ℕ → Act X Bool
  unfolding time_process_action
  time_process channel action_name action interval =
      time_process_action host.system host.net channel action_name action 20 interval

  -- How every `create_server` begins, with a name: the workspace of the server.
  unfoldable pub open_workspace : Channel → Base → String → Act X FilePath
  unfolding get_server_workspace tell workspace_text
  open_workspace channel self server_name =
      let server_workspace = get_server_workspace self server_name in
      do
        host.files.mkdir server_workspace
        tell channel (workspace_text server_name server_workspace)
        pure server_workspace

  -- How every `create_server` ends.
  unfoldable pub finish : Base → String → FilePath → String → Act X ServerMeta
  unfolding server_meta
  finish self server_name workspace server_host = do
    now ← gets host.now
    pure (server_meta now self.name server_name workspace server_host)
