-- ===== src/Contrib/Own/BuiltIn.antt =====
-- lobbyboy/contrib/provider: the seven providers, each with its configuration, as one type.
use lobbyboy.Base.{◌≡◌, true, String, Option, some}
use lobbyboy.Act.{ok}
use lobbyboy.Paths.{FilePath, joinpath}
use lobbyboy.Config.Types.{ConfigProvider, ServerMeta}
use lobbyboy.World.{Channel, Provider}
use lobbyboy.Contrib.Host.{Host, Base, get_server_workspace}
use lobbyboy.Contrib.Cloud.{CloudConfig, token}
use lobbyboy.Contrib.Local.{Programs}
use lobbyboy.Contrib.Vultr
use lobbyboy.Contrib.Linode
use lobbyboy.Contrib.DigitalOcean
use lobbyboy.Contrib.Footloose
use lobbyboy.Contrib.Ignite
use lobbyboy.Contrib.Multipass
use lobbyboy.Contrib.Vagrant
use lobbyboy.Contrib.Own.Cloud.{vultr-Returns, linode-Returns, digitalocean-Returns}
use lobbyboy.Contrib.Own.Local.{
  footloose-Returns, ignite-Returns, multipass-Returns, vagrant-Returns,
}

-- A cloud comes with its library's client for each token.
pub data BuiltIn (X : Type 0) : Type 0 where
  vultr : (Option String → Vultr.Client X) → CloudConfig → BuiltIn X
  linode : (Option String → Linode.Client X) → CloudConfig → BuiltIn X
  digitalocean : (Option String → DigitalOcean.Client X) → CloudConfig → BuiltIn X
  footloose : Footloose.FootlooseConfig → BuiltIn X
  ignite : Ignite.IgniteConfig → BuiltIn X
  multipass : Multipass.MultipassConfig → BuiltIn X
  vagrant : Vagrant.Memory X → Vagrant.VagrantConfig → BuiltIn X

module _ {X : Type 0} (host : Host X) (programs : Programs X) (x : X) where
  -- The provider that its class makes at the state `x`.
  unfoldable pub built_in : String → BuiltIn X → FilePath → Provider X
  unfolding Vultr.vultr_provider Linode.linode_provider DigitalOcean.digitalocean_provider
      Footloose.footloose_provider Ignite.ignite_provider Multipass.multipass_provider
      Vagrant.vagrant_provider
  built_in name (vultr connect config) workspace =
      Vultr.vultr_provider host connect x name config workspace
  built_in name (linode connect config) workspace =
      Linode.linode_provider host connect x name config workspace
  built_in name (digitalocean connect config) workspace =
      DigitalOcean.digitalocean_provider host connect x name config workspace
  built_in name (footloose config) workspace =
      Footloose.footloose_provider host programs name config workspace
  built_in name (ignite config) workspace =
      Ignite.ignite_provider host programs name config workspace
  built_in name (multipass config) workspace =
      Multipass.multipass_provider host programs name config workspace
  built_in name (vagrant memory config) workspace =
      Vagrant.vagrant_provider host programs memory name config workspace

  abbrev self_of : String → ConfigProvider → FilePath → Base
  self_of name config workspace = record {
    name = name;
    provider_config = config;
    workspace = workspace;
  }

  -- Whichever of the seven providers a server is created by, and whatever the cloud, the programs and
  -- the user do: a server that `create_server` returns carries the name of that provider, is managed,
  -- and has the directory of its own name in the workspace of the provider as its workspace.
  pub create_server-IsOwn :
      (provider : BuiltIn X) (name : String) (workspace : FilePath) (channel : Channel) (y : X)
      (meta : ServerMeta)
      → ((built_in name provider workspace).create_server channel y).0 ≡ ok meta
      → (meta.provider_name ≡ name)
        × (meta.workspace ≡ some (joinpath workspace meta.server_name))
        × (meta.manage ≡ true)
  unfolding built_in get_server_workspace
  create_server-IsOwn (vultr connect config) name workspace channel y meta h =
      vultr-Returns host channel (self_of name config.base workspace)
        (connect (token host Vultr.env_token_name config.base x)) config.favorite_instance_types y
        meta h
  create_server-IsOwn (linode connect config) name workspace channel y meta h =
      linode-Returns host channel (self_of name config.base workspace)
        (connect (token host Linode.env_token_name config.base x)) config.favorite_instance_types y
        meta h
  create_server-IsOwn (digitalocean connect config) name workspace channel y meta h =
      digitalocean-Returns host channel (self_of name config.base workspace)
        (connect (token host DigitalOcean.env_token_name config.base x))
        config.favorite_instance_types y meta h
  create_server-IsOwn (footloose config) name workspace channel y meta h =
      footloose-Returns host programs channel (self_of name config.base workspace) config y meta h
  create_server-IsOwn (ignite config) name workspace channel y meta h =
      ignite-Returns host programs channel (self_of name config.base workspace) config y meta h
  create_server-IsOwn (multipass config) name workspace channel y meta h =
      multipass-Returns host programs channel (self_of name config.base workspace) config y meta h
  create_server-IsOwn (vagrant memory config) name workspace channel y meta h =
      vagrant-Returns host programs channel (self_of name config.base workspace) memory config y
        meta h
