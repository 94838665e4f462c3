-- ===== src/Contrib/Own/Placed.antt =====
-- lobbyboy/contrib/provider: the steps that the providers share, and the servers that they lead to.
use mathlib.Core.Path.{subst}
use lobbyboy.Base.{◌≡◌, refl, true, String, List, some}
use lobbyboy.Act.{pure, Returns, follow-Returns, then-Returns}
use lobbyboy.Paths.{FilePath}
use lobbyboy.Config.Types.{ServerMeta}
use lobbyboy.World.{Channel}
use lobbyboy.BaseProvider.{generate_default_server_name}
use lobbyboy.Contrib.Host.{
  Host, Base, get_server_workspace, workspace_text, open_workspace, finish, server_meta, tell,
  collection_ssh_keys,
}
use lobbyboy.Contrib.Local.{place}
use lobbyboy.Contrib.Cloud.{prepare}

module _ (self : Base) where
  -- The server is of this provider, managed, and in its own directory of the provider's workspace.
  abbrev pub IsOwn : ServerMeta → Type 0
  IsOwn meta =
      (meta.provider_name ≡ self.name)
      × (meta.workspace ≡ some (get_server_workspace self meta.server_name))
      × (meta.manage ≡ true)

module _ {X : Type 0} (host : Host X) (channel : Channel) (self : Base) where
  pub finish-Returns :
      (server_name server_host : String)
      → Returns
          (IsOwn self)
          (finish host self server_name (get_server_workspace self server_name) server_host)
  unfolding finish server_meta
  finish-Returns server_name server_host x meta e =
      let workspace = get_server_workspace self server_name in
      let made : server_meta (host.now x) self.name server_name workspace server_host ≡ meta =
        cc e in
      subst (IsOwn self) made (refl, refl, refl)

  pub open_workspace-Returns :
      (server_name : String)
      → Returns
          (λ (p : FilePath). p ≡ get_server_workspace self server_name)
          (open_workspace host channel self server_name)
  unfolding open_workspace
  open_workspace-Returns server_name =
      let workspace = get_server_workspace self server_name in
      follow-Returns (λ (p : FilePath). p ≡ workspace) (host.files.mkdir workspace) _
        λ _.
          follow-Returns (λ (p : FilePath). p ≡ workspace)
            (tell host channel (workspace_text server_name workspace)) (λ _. pure workspace)
            λ _ x p e. cc e

  abbrev pub IsPlaced : String × FilePath × List String → Type 0
  IsPlaced (server_name, workspace, ssh_keys) = workspace ≡ get_server_workspace self server_name

  pub prepare-Returns : Returns IsPlaced (prepare host channel self)
  unfolding prepare
  prepare-Returns =
      follow-Returns IsPlaced
        (generate_default_server_name host.system self.workspace
          self.provider_config.server_name_prefix)
        _
        λ server_name.
          then-Returns (λ (p : FilePath). p ≡ get_server_workspace self server_name) IsPlaced
            (open_workspace host channel self server_name) _ (open_workspace-Returns server_name)
            λ workspace e.
              follow-Returns IsPlaced (collection_ssh_keys host self (some workspace))
                (λ keys. pure (server_name, workspace, keys))
                λ keys x a f.
                  let g : (server_name, workspace, keys) ≡ a = cc f in subst IsPlaced g e

  abbrev pub IsLocated : String × FilePath → Type 0
  IsLocated (server_name, workspace) = workspace ≡ get_server_workspace self server_name

  pub place-Returns : Returns IsLocated (place host channel self)
  unfolding place
  place-Returns =
      follow-Returns IsLocated
        (generate_default_server_name host.system self.workspace
          self.provider_config.server_name_prefix)
        _
        λ server_name.
          then-Returns (λ (p : FilePath). p ≡ get_server_workspace self server_name) IsLocated
            (open_workspace host channel self server_name) _ (open_workspace-Returns server_name)
            λ workspace e x a f. let g : (server_name, workspace) ≡ a = cc f in subst IsLocated g e
