-- ===== src/Contrib/DigitalOcean.antt =====
-- lobbyboy/contrib/provider/digitalocean.py, over the library `digitalocean` as a parameter.

use Prim.Native.Char.{code}
use lobbyboy.Base.{
  ℕ, Bool, true, false, String, ◌<>◌, List, [], ◌∷◌, map, Option, none, some, ◌===◌, ◌==◌,
  if◌then◌else◌,
}
use lobbyboy.Exceptions.{type_error}
use lobbyboy.Act.{Act, raise, pure, lift, ◌>>=◌, ◌>>◌}
use lobbyboy.Paths.{FilePath}
use lobbyboy.Config.Types.{ServerMeta}
use lobbyboy.World.{Channel, Provider}
use lobbyboy.BaseProvider.{ssh_server_command}
use lobbyboy.Convert.{dict_factory}
pub use lobbyboy.Contrib.Library.DigitalOcean.{Droplet, Region, Image, Client}
use lobbyboy.Contrib.Host.{
  Host, Base, tell, tell_if, time_process, save_raw_server, load_raw_server, port_is_open, finish,
}
use lobbyboy.Contrib.Cloud.{
  CloudConfig, Choice, token, choose_item, ask_user_customize, prepare, wait_for_boot, member,
}

abbrev pub DigitaloceanConfig : Type 0
DigitaloceanConfig = CloudConfig

abbrev pub env_token_name : String
env_token_name = "DIGITALOCEAN_TOKEN"

-- The images with a slug, and the slugs.
usable : List Image → List (Image × String)
usable [] = []
usable (i ∷ is) = let rest = usable is in elim i.slug [ none ↦ rest | some slug ↦ (i, slug) ∷ rest ]

-- The lines of the menus.
region_slug : Region → String
region_slug r = r.name <> " (" <> r.slug <> ")"

image_option : Image × String → String
image_option (i, slug) = i.distribution <> ": " <> i.name <> " (" <> slug <> ")"

-- `x.startswith("_")`
unfoldable pub is_private : String → Bool
is_private String.[] = false
is_private (String.◌∷◌ c s) = code c == b'_'

-- An address in a message.
unfoldable pub show_address : Option String → String
show_address none = "None"
show_address (some ip) = ip

unfoldable pub created_text : String → Droplet → String
unfolding show_address
created_text server_name droplet =
    "New server " <> server_name <> " (IP: " <> show_address droplet.ip_address <> ") created!"

module _ {X : Type 0} (host : Host X) (client : Client X) where
  -- The loop over the actions.
  unfoldable pub any_completed : List ℕ → Act X Bool
  any_completed [] = pure false
  any_completed (action ∷ actions) = client.load_action action >>= λ status.
      let rest = any_completed actions in if status === "completed" then pure true else rest

  unfoldable pub droplet_is_up : Droplet → Act X Bool
  unfolding any_completed
  droplet_is_up uninitialized_droplet = do
    actions ← client.get_actions uninitialized_droplet
    any_completed actions

  -- `port_is_open(ip)`, which refuses an address that is `None`.
  unfoldable pub is_open : Option String → Act X Bool
  unfolding port_is_open
  is_open none = do
    a_socket ← host.sockets.socket
    host.sockets.settimeout a_socket 2
    raise type_error
  is_open (some ip) = port_is_open host ip 22

  -- Without an address, the wait for the port has raised.
  unfoldable pub prepare_after_server_created :
      Channel → Base → Droplet → FilePath → String → Act X ServerMeta
  unfolding tell dict_factory is_private save_raw_server wait_for_boot is_open created_text
      show_address finish
  prepare_after_server_created channel self created workspace server_name = do
    droplet ← client.load created
    tell host channel (created_text server_name droplet)
    droplet_meta ←
        lift (dict_factory (some ("tokens" ∷ [])) (some is_private) none droplet.attributes)
    save_raw_server host droplet_meta workspace
    wait_for_boot host channel server_name (is_open droplet.ip_address)
    finish host self server_name workspace (show_address droplet.ip_address)

  unfoldable pub manually_create_new_droplet : Channel → Act X Choice
  unfolding tell choose_item usable region_slug image_option
  manually_create_new_droplet channel = do
    tell host channel "Fetching metadata from digitalocean..."
    regions ← client.all_regions
    sizes ← client.all_sizes
    images ← client.all_images
    region ← choose_item host channel regions (map region_slug regions) "Please choose region: "
    size ← choose_item host channel sizes sizes "Please choose droplet size: "
    image ←
        choose_item host channel (usable images) (map image_option (usable images))
          "Please choose droplet image: "
    pure (region.slug, size, image.1)

  unfoldable pub ask_user_customize_server : Channel → List String → Act X Choice
  unfolding ask_user_customize manually_create_new_droplet
  ask_user_customize_server channel favorites =
      ask_user_customize host channel "Manually choose a new droplet to create.."
        "Please choose new droplet to create: " favorites (manually_create_new_droplet channel)

  -- From the keys on, with the choice of the user.
  unfoldable pub create_droplet :
      Channel → Base → Choice → String × FilePath × List String → Act X ServerMeta
  unfolding tell time_process droplet_is_up prepare_after_server_created
  create_droplet channel self (region, size, image) (server_name, workspace, ssh_keys) = do
    tell host channel "Waiting for server to created..."
    droplet ← client.create server_name region image size ssh_keys
    time_process host channel "droplet is up" (droplet_is_up droplet) 3
    prepare_after_server_created channel self droplet workspace server_name

  unfoldable pub create_server : Base → List String → Channel → Act X ServerMeta
  unfolding ask_user_customize_server prepare create_droplet
  create_server self favorites channel = do
    choice ← ask_user_customize_server channel favorites
    prepared ← prepare host channel self
    create_droplet channel self choice prepared

  unfoldable pub destroy_server : ServerMeta → Option Channel → Act X Bool
  unfolding tell_if load_raw_server member
  destroy_server meta channel = do
    tell_if host channel ("Destroy server " <> meta.server_name <> "...")
    contents ← load_raw_server host meta.workspace
    id ← member "id" contents
    droplet ← client.get_object id
    result ← client.destroy droplet
    tell_if host channel ("Destroy server " <> meta.server_name <> " done.")
    pure result

-- `DigitalOceanProvider(name, config, workspace)` at the state `x`, with the library's classes as
-- `connect`.
unfoldable pub digitalocean_provider :
    {X : Type 0}
    → Host X
    → (Option String → Client X)
    → X
    → String
    → DigitaloceanConfig
    → FilePath
    → Provider X
unfolding token create_server destroy_server ssh_server_command
digitalocean_provider host connect x name config workspace =
    let client = connect (token host env_token_name config.base x) in
    let self : Base = record {
      name = name;
      provider_config = config.base;
      workspace = workspace;
    } in
    record {
      name = name;
      config = config.base;
      create_server = create_server host client self config.favorite_instance_types;
      destroy_server = destroy_server host client;
      ssh_server_command = λ meta. pure (ssh_server_command workspace meta none);
    }
