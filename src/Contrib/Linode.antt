-- ===== src/Contrib/Linode.antt =====
-- lobbyboy/contrib/provider/linode.py, over the client of `linode_api4` as a parameter.
pub mod Wait
use mathlib.Core.Option
use lobbyboy.Base.{
  ℕ, Bool, true, false, String, ◌<>◌, List, [], ◌∷◌, map, Option, none, some, ◌===◌, if◌then◌else◌,
}
use lobbyboy.Base.Int.{ℤ}
use lobbyboy.Base.Dict.{insert}
use lobbyboy.Exceptions.{attribute_error}
use lobbyboy.Act.{
  Result, ok, raised, running, Act, Void, raise, pure, gets, try_except, ◌>>=◌, ◌>>◌,
}
use lobbyboy.Text.Print.{decimal, pad_right, pad_left}
use lobbyboy.Paths.{FilePath}
use lobbyboy.Config.Json.{Json, text, number, Raw}
use lobbyboy.Config.Types.{ConfigProvider, ServerMeta}
use lobbyboy.World.{Channel, Provider}
use lobbyboy.BaseProvider.{ssh_server_command}
pub use lobbyboy.Contrib.Library.Linode.{
  Instance, Created, Region, LinodeType, Image, Client, alone, with_password,
}
use lobbyboy.Contrib.Host.{
  Host, Base, tell, tell_if, time_process, save_raw_server, load_raw_server, port_is_open, finish,
}
use lobbyboy.Contrib.Cloud.{
  CloudConfig, Choice, token, choose_item, item, ask_user_customize, prepare, booted_text, member,
}

abbrev pub LinodeConfig : Type 0
LinodeConfig = CloudConfig

abbrev pub env_token_name : String
env_token_name = "LINODE_TOKEN"

-- `value == "running"`
unfoldable pub is_running : Json → Bool
is_running (text s) = s === "running"
is_running _ = false

unfoldable pub instance_of : Created → Instance
instance_of (alone instance) = instance
instance_of (with_password instance password) = instance

-- A list of addresses as Python writes it.
quoted : List String → String
quoted [] = ""
quoted (a ∷ []) = "'" <> a <> "'"
quoted (a ∷ b ∷ rest) = "'" <> a <> "', " <> quoted (b ∷ rest)

show_addresses : List String → String
unfolding quoted
show_addresses ipv4 = "[" <> quoted ipv4 <> "]"

unfoldable pub created_text : String → Instance → String
unfolding show_addresses
created_text server_name instance =
    "New server " <> server_name <> " (IP: " <> show_addresses instance.ipv4 <> ") created!"

-- The lines of the menus.
region_slug : Region → String
unfolding pad_right
region_slug r =
    pad_right 15 r.id <> " - " <> pad_right 3 r.country <> " | status: " <> pad_right 5 r.status

size_slug : LinodeType → String
unfolding pad_right pad_left decimal
size_slug t =
    pad_right 18 t.id
    <> " | Disk: "
    <> pad_left 10 (decimal t.disk)
    <> " | Mem: "
    <> pad_left 10 (decimal t.memory)
    <> " | Label: "
    <> pad_right 35 t.label
    <> " | Price($): hourly: "
    <> pad_left 8 t.hourly
    <> ", monthly: "
    <> pad_left 8 t.monthly

-- A Boolean with a width is written as a number.
image_option : Image → String
unfolding pad_right pad_left
image_option i =
    pad_right 30 i.id
    <> " | size: "
    <> pad_left 5 i.gigabytes
    <> "G | created: "
    <> i.created
    <> " | Deprecated: "
    <> pad_left 3 (if i.deprecated then "1" else "0")
    <> " | Provider: "
    <> pad_right 8 i.created_by

module _ {X : Type 0} (host : Host X) (client : Client X) where
  -- The log asks for the statistics once more.
  unfoldable pub linode_is_up : Instance → Act X Bool
  unfolding is_running
  linode_is_up node =
      try_except (do stats ← client.stats node; client.stats node; pure (is_running stats))
        λ e. pure false

  unfoldable pub prepare_after_server_created :
      Channel → Base → Instance → FilePath → String → Act X ServerMeta
  unfolding tell created_text save_raw_server insert item booted_text port_is_open finish
  prepare_after_server_created channel self instance workspace server_name = do
    tell host channel (created_text server_name instance)
    save_raw_server host (insert "id" (number instance.id) instance.serialized) workspace
    tell host channel "Waiting for server to boot..."
    ip ← item instance.ipv4 0
    time_process host channel "port is open" (port_is_open host ip 22) 3
    tell host channel (booted_text server_name)
    finish host self server_name workspace ip

  unfoldable pub manually_create_new_node : Channel → Act X Choice
  unfolding tell choose_item region_slug size_slug image_option
  manually_create_new_node channel = do
    tell host channel "Fetching metadata from linode..."
    regions ← client.regions
    types ← client.types
    images ← client.images
    region ← choose_item host channel regions (map region_slug regions) "Please choose region: "
    size ← choose_item host channel types (map size_slug types) "Please choose linode size: "
    image ← choose_item host channel images (map image_option images) "Please choose linode image: "
    pure (region.id, size.id, image.id)

  unfoldable pub ask_user_customize_server : Channel → List String → Act X Choice
  unfolding ask_user_customize manually_create_new_node
  ask_user_customize_server channel favorites =
      ask_user_customize host channel "Manually choose a new linode to create.."
        "Please choose new linode to create: " favorites (manually_create_new_node channel)

  -- From the keys on, with the choice of the user.
  unfoldable pub create_node :
      Channel → Base → Choice → String × FilePath × List String → Act X ServerMeta
  unfolding tell instance_of time_process linode_is_up prepare_after_server_created
  create_node channel self (region_id, type_id, image_id) (server_name, workspace, ssh_keys) = do
    tell host channel "Waiting for server to created..."
    created ← client.instance_create type_id region_id image_id server_name ssh_keys
    time_process host channel "linode is up" (linode_is_up (instance_of created)) 5
    prepare_after_server_created channel self (instance_of created) workspace server_name

  unfoldable pub create_server : Base → List String → Channel → Act X ServerMeta
  unfolding ask_user_customize_server prepare create_node
  create_server self favorites channel = do
    choice ← ask_user_customize_server channel favorites
    prepared ← prepare host channel self
    create_node channel self choice prepared

  -- `instance.delete()`
  unfoldable pub delete_found : Option Instance → Act X Bool
  delete_found none = raise attribute_error
  delete_found (some instance) = client.delete instance

  unfoldable pub destroy_server : ServerMeta → Option Channel → Act X Bool
  unfolding tell_if load_raw_server member delete_found
  destroy_server meta channel = do
    tell_if host channel ("Destroy server " <> meta.server_name <> "...")
    contents ← load_raw_server host meta.workspace
    id ← member "id" contents
    instance ← client.find id
    result ← delete_found instance
    tell_if host channel ("Destroy server " <> meta.server_name <> " done.")
    pure result

-- `LinodeProvider(name, config, workspace)` at the state `x`, with `LinodeClient` as `connect`.
unfoldable pub linode_provider :
    {X : Type 0}
    → Host X
    → (Option String → Client X)
    → X
    → String
    → LinodeConfig
    → FilePath
    → Provider X
unfolding token create_server destroy_server ssh_server_command
linode_provider host connect x name config workspace =
    let client = connect (token host env_token_name config.base x) in
    let self : Base = record {
      name = name;
      provider_config = config.base;
      workspace = workspace;
    } in
    record {
      name = name;
      config = config.base;
      create_server = create_server host client self config.favorite_instance_types;
      destroy_server = destroy_server host client;
      ssh_server_command = λ meta. pure (ssh_server_command workspace meta none);
    }
