-- ===== src/Contrib/Multipass.antt =====
-- lobbyboy/contrib/provider/multipass.py, over the programs of the host.
use lobbyboy.Base.{ℕ, Bool, true, false, String, ◌<>◌, List, [], ◌∷◌, ◌===◌, none, some}
use lobbyboy.Act.{Act, pure, ◌>>=◌, ◌>>◌}
use lobbyboy.Base.Int.{ℤ}
use lobbyboy.Text.Print.{show_ℤ}
use lobbyboy.Paths.{FilePath}
use lobbyboy.Config.Types.{ConfigProvider, ServerMeta}
use lobbyboy.World.{Channel, Provider}
use lobbyboy.Contrib.Host.{Host, Base, time_process, finish}
use lobbyboy.Contrib.Local.{
  Programs, has_ended, show_workspace, place, is_available, ensure_success, delete_with,
}

pub record MultipassConfig : Type 0 where
  pub base : ConfigProvider
  pub image : String
  pub cpu : ℤ
  pub mem : String
  pub disk : String

-- The command that makes a server.
unfoldable pub create_command : MultipassConfig → String → List String
unfolding show_ℤ
create_command config server_name =
    "multipass"
    ∷ "launch"
    ∷ config.image
    ∷ "--name"
    ∷ server_name
    ∷ "--cpus"
    ∷ show_ℤ config.cpu
    ∷ "--mem"
    ∷ config.mem
    ∷ "--disk"
    ∷ config.disk
    ∷ []

unfoldable pub ssh_server_command : ServerMeta → List String
unfolding show_workspace
ssh_server_command meta =
    ("cd " <> show_workspace meta.workspace <> " && multipass shell " <> meta.server_name) ∷ []

module _ {X : Type 0} (host : Host X) (programs : Programs X) where
  -- `is_available`
  unfoldable pub is_multipass_available : Act X Bool
  unfolding is_available
  is_multipass_available =
      is_available programs "multipass"
        "multipass executable is not exist! Please install it via `snap install multipass`"

  -- The state of a server whose process has ended.
  unfoldable pub if_ended : String → Bool → Act X Bool
  if_ended server_name false = pure false
  if_ended server_name true = do
    state ←
        programs.state_of ("multipass" ∷ "info" ∷ "--format" ∷ "json" ∷ server_name ∷ [])
          server_name
    pure (state === "running")

  unfoldable pub multipass_create_done : String → ℕ → Act X Bool
  unfolding has_ended if_ended
  multipass_create_done server_name multipass_create = do
    code ← programs.poll multipass_create
    if_ended server_name (has_ended code)

  unfoldable pub create_server : Base → MultipassConfig → Channel → Act X ServerMeta
  unfolding place create_command time_process multipass_create_done ensure_success finish
  create_server self config channel = do
    (server_name, server_workspace) ← place host channel self
    multipass_create ←
        programs.popen (create_command config server_name) (some server_workspace) none
    time_process host channel "multipass create done"
        (multipass_create_done server_name multipass_create) 3
    ensure_success programs "MultipassException" multipass_create
    finish host self server_name server_workspace "127.0.0.1"

  unfoldable pub destroy_server : ServerMeta → Act X Bool
  unfolding delete_with
  destroy_server meta =
      delete_with programs ("multipass" ∷ "delete" ∷ "--purge" ∷ meta.server_name ∷ [])

unfoldable pub multipass_provider :
    {X : Type 0} → Host X → Programs X → String → MultipassConfig → FilePath → Provider X
unfolding create_server destroy_server ssh_server_command
multipass_provider host programs name config workspace =
    let self : Base = record {
      name = name;
      provider_config = config.base;
      workspace = workspace;
    } in
    record {
      name = name;
      config = config.base;
      create_server = create_server host programs self config;
      destroy_server = λ meta channel. destroy_server host programs meta;
      ssh_server_command = λ meta. pure (ssh_server_command meta);
    }
