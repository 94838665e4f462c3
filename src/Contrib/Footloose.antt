-- ===== src/Contrib/Footloose.antt =====
-- lobbyboy/contrib/provider/footloose.py, over the programs of the host.
use lobbyboy.Base.{ℕ, Bool, String, ◌<>◌, List, [], ◌∷◌, none, some}
use lobbyboy.Act.{Act, pure, lift, ◌>>=◌, ◌>>◌}
use lobbyboy.Paths.{FilePath, joinpath, show_path}
use lobbyboy.Config.Types.{ConfigProvider, ServerMeta}
use lobbyboy.World.{Channel, Provider}
use lobbyboy.Contrib.Host.{Host, Base, time_process, finish, workspace_or_raise}
use lobbyboy.Contrib.Local.{
  Programs, has_ended, show_workspace, place, is_available, ensure_success, delete_with,
}

pub record FootlooseConfig : Type 0 where
  pub base : ConfigProvider
  pub footloose_config : String

-- `workspace.joinpath("footloose.yaml")`
unfoldable pub config_file : FilePath → FilePath
unfolding joinpath
config_file workspace = joinpath workspace "footloose.yaml"

unfoldable pub ssh_server_command : ServerMeta → List String
unfolding show_workspace
ssh_server_command meta =
    ("cd " <> show_workspace meta.workspace <> " && footloose ssh root@" <> meta.server_name <> "0")
    ∷ []

module _ {X : Type 0} (host : Host X) (programs : Programs X) where
  -- `is_available`
  unfoldable pub is_footloose_available : Act X Bool
  unfolding is_available
  is_footloose_available =
      is_available programs "footloose"
        "footloose executable is not exist! Please install footloose via `GO111MODULE=on go get github.com/weaveworks/footloose`"

  unfoldable pub footloose_create_done : ℕ → Act X Bool
  unfolding has_ended
  footloose_create_done footloose_create = do
    code ← programs.poll footloose_create
    pure (has_ended code)

  -- The file is there, and empty, before the template is filled in.
  unfoldable pub create_server : Base → FootlooseConfig → Channel → Act X ServerMeta
  unfolding place config_file time_process footloose_create_done ensure_success finish
  create_server self config channel = do
    (server_name, server_workspace) ← place host channel self
    host.files.write (config_file server_workspace) ""
    text ← lift (programs.format config.footloose_config "server_name" server_name)
    host.files.write (config_file server_workspace) text
    footloose_create ← programs.popen ("footloose" ∷ "create" ∷ []) (some server_workspace) none
    time_process host channel "footloose create done" (footloose_create_done footloose_create) 3
    ensure_success programs "FootlooseException" footloose_create
    finish host self server_name server_workspace "127.0.0.1"

  unfoldable pub destroy_server : ServerMeta → Act X Bool
  unfolding workspace_or_raise config_file delete_with
  destroy_server meta = do
    workspace ← workspace_or_raise meta.workspace
    delete_with programs ("footloose" ∷ "delete" ∷ "-c" ∷ show_path (config_file workspace) ∷ [])

unfoldable pub footloose_provider :
    {X : Type 0} → Host X → Programs X → String → FootlooseConfig → FilePath → Provider X
unfolding create_server destroy_server ssh_server_command
footloose_provider host programs name config workspace =
    let self : Base = record {
      name = name;
      provider_config = config.base;
      workspace = workspace;
    } in
    record {
      name = name;
      config = config.base;
      create_server = create_server host programs self config;
      destroy_server = λ meta channel. destroy_server host programs meta;
      ssh_server_command = λ meta. pure (ssh_server_command meta);
    }
