-- ===== src/Contrib/Vultr.antt =====
-- lobbyboy/contrib/provider/vultr.py, over the client of `pyvultr` as a parameter.
pub mod Recorded
pub mod Chosen
pub mod Trip
use mathlib.Core.Option
use lobbyboy.Base.{
  ℕ, zero, suc, ◌+◌, Bool, true, false, not, String, ◌<>◌, List, [], ◌∷◌, ◌++◌, map, Option, none,
  some, ◌===◌, codes, is_empty, if◌then◌else◌,
}
use lobbyboy.Base.Int.{ℤ}
use lobbyboy.Exceptions.{value_error}
use lobbyboy.Act.{Result, ok, raised, running, Act, Void, raise, pure, try_except, ◌>>=◌, ◌>>◌}
use lobbyboy.Text.Digits.{int_of}
use lobbyboy.Text.Print.{decimal, show_ℤ, pad_right, pad_left}
use lobbyboy.Paths.{FilePath}
use lobbyboy.Config.Json.{Json, Raw}
use lobbyboy.Config.Types.{ConfigProvider, ServerMeta}
use lobbyboy.World.{Channel, Provider}
use lobbyboy.BaseProvider.{ssh_server_command}
pub use lobbyboy.Contrib.Library.Vultr.{Instance, Region, Plan, Os, ReqInstance, Client}
use lobbyboy.Contrib.Host.{
  Host, Base, tell, tell_if, time_process, save_raw_server, load_raw_server, port_is_open, finish,
}
use lobbyboy.Contrib.Cloud.{
  CloudConfig, Choice, token, choose_item, ask_user_customize, prepare, wait_for_boot, member,
}

abbrev pub VultrConfig : Type 0
VultrConfig = CloudConfig

abbrev pub env_token_name : String
env_token_name = "VULTR_TOKEN"

-- The lines of the menus.
region_slug : Region → String
unfolding pad_right
region_slug r =
    pad_right 3 r.id
    <> " - "
    <> pad_right 15 r.city
    <> " | country: "
    <> pad_right 3 r.country
    <> " | Position: "
    <> pad_right 5 r.continent

size_slug : Plan → String
unfolding pad_right pad_left decimal
size_slug t =
    pad_right 15 t.id
    <> " | Disk: "
    <> pad_left 5 (decimal t.disk)
    <> " GB, Disk count: "
    <> decimal t.disk_count
    <> " | Mem: "
    <> pad_left 6 (decimal t.ram)
    <> " MB | Month Price($): "
    <> pad_left 5 t.monthly_cost

os_option : Os → String
unfolding pad_right pad_left show_ℤ
os_option i =
    pad_left 4 (show_ℤ i.id)
    <> " | arch: "
    <> pad_right 5 i.arch
    <> " | family: "
    <> pad_right 15 i.family
    <> " | name: "
    <> i.name

unfoldable pub created_text : String → Instance → String
created_text server_name instance =
    "New server " <> server_name <> " (IP: " <> instance.main_ip <> ") created!"

-- `int(image_id)`
unfoldable pub int_or_raise : {X : Type 0} → String → Act X ℤ
unfolding int_of
int_or_raise s = elim (int_of (codes s)) [ none ↦ raise value_error | some n ↦ pure n ]

-- `ssh_key_ids or None`
ids_or_none : List String → Option (List String)
ids_or_none [] = none
ids_or_none (i ∷ ids) = some (i ∷ ids)

-- `ReqInstance(…)`
unfoldable pub request : String → String → ℤ → String → List String → ReqInstance
unfolding ids_or_none
request region_id plan_id os_id server_name ssh_key_ids = record {
  region = region_id;
  plan = plan_id;
  os_id = os_id;
  label = server_name;
  tag = server_name;
  sshkey_id = ids_or_none ssh_key_ids;
}

module _ {X : Type 0} (host : Host X) (client : Client X) where
  unfoldable pub instance_is_up : String → Act X Bool
  instance_is_up node_id =
      try_except (do node ← client.get_instance node_id; pure (node.status === "active"))
        λ e. pure false

  unfoldable pub prepare_after_server_created :
      Channel → Base → Instance → FilePath → String → Act X ServerMeta
  unfolding tell created_text save_raw_server wait_for_boot port_is_open finish
  prepare_after_server_created channel self instance workspace server_name = do
    instance ← client.get_instance instance.id
    tell host channel (created_text server_name instance)
    save_raw_server host instance.contents workspace
    wait_for_boot host channel server_name (port_is_open host instance.main_ip 22)
    finish host self server_name workspace instance.main_ip

  unfoldable pub manually_create_new_node : Channel → Act X Choice
  unfolding tell choose_item region_slug size_slug os_option show_ℤ
  manually_create_new_node channel = do
    tell host channel "Fetching metadata from vultr..."
    regions ← client.regions
    plans ← client.plans
    oses ← client.operating_systems
    region ← choose_item host channel regions (map region_slug regions) "Please choose region: "
    plan ← choose_item host channel plans (map size_slug plans) "Please choose vultr plan: "
    image ← choose_item host channel oses (map os_option oses) "Please choose vultr image: "
    pure (region.id, plan.id, show_ℤ image.id)

  unfoldable pub ask_user_customize_server : Channel → List String → Act X Choice
  unfolding ask_user_customize manually_create_new_node
  ask_user_customize_server channel favorites =
      ask_user_customize host channel "Manually choose a new vultr to create.."
        "Please choose new vultr to create: " favorites (manually_create_new_node channel)

  -- The loop that registers the keys, from the index `idx` on.
  unfoldable pub create_keys : String → ℕ → List String → Act X (List String)
  unfolding decimal
  create_keys server_name idx [] = pure []
  create_keys server_name idx (ssh_key ∷ ssh_keys) = do
    id ← client.create_key (server_name <> "-" <> decimal idx) ssh_key
    ids ← create_keys server_name (idx + 1) ssh_keys
    pure (id ∷ ids)

  -- From the keys on, with the choice of the user.
  unfoldable pub create_node :
      Channel → Base → Choice → String × FilePath × List String → Act X ServerMeta
  unfolding tell create_keys int_or_raise request time_process instance_is_up
      prepare_after_server_created
  create_node channel self (region_id, plan_id, image_id) (server_name, workspace, ssh_keys) = do
    tell host channel "Waiting for server to created..."
    ssh_key_ids ← create_keys server_name 0 ssh_keys
    os_id ← int_or_raise image_id
    instance ← client.create_instance (request region_id plan_id os_id server_name ssh_key_ids)
    time_process host channel "instance is up" (instance_is_up instance.id) 5
    prepare_after_server_created channel self instance workspace server_name

  unfoldable pub create_server : Base → List String → Channel → Act X ServerMeta
  unfolding ask_user_customize_server prepare create_node
  create_server self favorites channel = do
    choice ← ask_user_customize_server channel favorites
    prepared ← prepare host channel self
    create_node channel self choice prepared

  unfoldable pub destroy_server : ServerMeta → Option Channel → Act X Bool
  unfolding tell_if load_raw_server member
  destroy_server meta channel = do
    tell_if host channel ("Destroy server " <> meta.server_name <> "...")
    contents ← load_raw_server host meta.workspace
    id ← member "id" contents
    failed ← client.delete_instance id
    tell_if host channel ("Destroy server " <> meta.server_name <> " done.")
    pure (not failed)

-- `VultrProvider(name, config, workspace)` at the state `x`, with `VultrV2` as `connect`.
unfoldable pub vultr_provider :
    {X : Type 0}
    → Host X
    → (Option String → Client X)
    → X
    → String
    → VultrConfig
    → FilePath
    → Provider X
unfolding token create_server destroy_server ssh_server_command
vultr_provider host connect x name config workspace =
    let client = connect (token host env_token_name config.base x) in
    let self : Base = record {
      name = name;
      provider_config = config.base;
      workspace = workspace;
    } in
    record {
      name = name;
      config = config.base;
      create_server = create_server host client self config.favorite_instance_types;
      destroy_server = destroy_server host client;
      ssh_server_command = λ meta. pure (ssh_server_command workspace meta none);
    }
