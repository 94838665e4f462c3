-- ===== src/Contrib/Ignite.antt =====
-- lobbyboy/contrib/provider/ignite.py, over the programs of the host.
use lobbyboy.Base.{ℕ, Bool, String, ◌<>◌, List, [], ◌∷◌, none, some}
use lobbyboy.Act.{Act, pure, ◌>>=◌, ◌>>◌}
use lobbyboy.Base.Int.{ℤ}
use lobbyboy.Text.Print.{show_ℤ}
use lobbyboy.Paths.{FilePath}
use lobbyboy.Config.Types.{ConfigProvider, ServerMeta}
use lobbyboy.World.{Channel, Provider}
use lobbyboy.Contrib.Host.{Host, Base, time_process, finish}
use lobbyboy.Contrib.Local.{
  Programs, has_ended, show_workspace, place, is_available, ensure_success, delete_with,
}

pub record IgniteConfig : Type 0 where
  pub base : ConfigProvider
  pub image : String
  pub cpu : ℤ
  pub mem : String
  pub disk : String

-- The command that makes a server.
unfoldable pub create_command : IgniteConfig → String → List String
unfolding show_ℤ
create_command config server_name =
    "ignite"
    ∷ "run"
    ∷ config.image
    ∷ "--name"
    ∷ server_name
    ∷ "--cpus"
    ∷ show_ℤ config.cpu
    ∷ "--memory"
    ∷ config.mem
    ∷ "--size"
    ∷ config.disk
    ∷ "--ssh"
    ∷ []

unfoldable pub ssh_server_command : ServerMeta → List String
unfolding show_workspace
ssh_server_command meta =
    ("cd " <> show_workspace meta.workspace <> " && ignite ssh " <> meta.server_name) ∷ []

module _ {X : Type 0} (host : Host X) (programs : Programs X) where
  -- `is_available`
  unfoldable pub is_ignite_available : Act X Bool
  unfolding is_available
  is_ignite_available =
      is_available programs "ignite"
        "ignite executable is not exist! Please install ignite via the instrution on https://ignite.readthedocs.io/en/stable/installation/"

  unfoldable pub ignite_create_done : ℕ → Act X Bool
  unfolding has_ended
  ignite_create_done ignite_create = do code ← programs.poll ignite_create; pure (has_ended code)

  unfoldable pub create_server : Base → IgniteConfig → Channel → Act X ServerMeta
  unfolding place create_command time_process ignite_create_done ensure_success finish
  create_server self config channel = do
    (server_name, server_workspace) ← place host channel self
    ignite_create ← programs.popen (create_command config server_name) (some server_workspace) none
    time_process host channel "ignite create done" (ignite_create_done ignite_create) 3
    ensure_success programs "IgniteException" ignite_create
    finish host self server_name server_workspace "127.0.0.1"

  unfoldable pub destroy_server : ServerMeta → Act X Bool
  unfolding delete_with
  destroy_server meta = delete_with programs ("ignite" ∷ "rm" ∷ "-f" ∷ meta.server_name ∷ [])

unfoldable pub ignite_provider :
    {X : Type 0} → Host X → Programs X → String → IgniteConfig → FilePath → Provider X
unfolding create_server destroy_server ssh_server_command
ignite_provider host programs name config workspace =
    let self : Base = record {
      name = name;
      provider_config = config.base;
      workspace = workspace;
    } in
    record {
      name = name;
      config = config.base;
      create_server = create_server host programs self config;
      destroy_server = λ meta channel. destroy_server host programs meta;
      ssh_server_command = λ meta. pure (ssh_server_command meta);
    }
