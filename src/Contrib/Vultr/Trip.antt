-- ===== src/Contrib/Vultr/Trip.antt =====
-- A server of lobbyboy/contrib/provider/vultr.py from its creation to its destruction.
use lobbyboy.Base.{◌≡◌, refl, ◌∙◌, Bool, not, String, List, Option, none, some}
use lobbyboy.Base.Dict.{lookup}
use lobbyboy.Act.{ok, Act, pure, ◌>>=◌, Triple, follow-returned}
use lobbyboy.Paths.{FilePath}
use lobbyboy.Config.Json.{Json, Raw, text}
use lobbyboy.Config.Types.{ServerMeta}
use lobbyboy.World.{Channel}
use lobbyboy.Contrib.Host.{Host, Base, server_path, load_raw_server, workspace_or_raise, tell_if}
use lobbyboy.Contrib.Host.Kept.{IsKeeper}
use lobbyboy.Contrib.Cloud.{member}
use lobbyboy.Contrib.Vultr.{Client, Instance, ReqInstance, create_server, destroy_server}
use lobbyboy.Contrib.Vultr.Recorded.{IsSaved, server-IsCreated}

module _ {X : Type 0} (contents : FilePath → X → Option Raw) (host : Host X)
    (keeper : IsKeeper contents host) (client : Client X) where
  -- The data of the instance that has an id holds that id.
  abbrev pub GivesIds : Type 0
  GivesIds =
      (id : String)
      → Triple (λ _. Unit) (client.get_instance id) (λ i _. lookup "id" i.contents ≡ some (text id))

  workspace-some :
      (o : Option FilePath) (workspace : FilePath) (y : X)
      → o ≡ some workspace
      → workspace_or_raise o y ≡ (ok workspace, y)
  unfolding workspace_or_raise
  workspace-some o workspace y e = rw (e) refl

  member-some :
      (key : String) (r : Raw) (j : Json) (y : X)
      → lookup key r ≡ some j
      → member key r y ≡ (ok j, y)
  unfolding member
  member-some key r j y e = rw (member, e) refl

  load-saved :
      (o : Option FilePath) (workspace : FilePath) (r : Raw) (y : X)
      → o ≡ some workspace
      → IsSaved contents host keeper client workspace r y
      → load_raw_server host o y ≡ (ok r, y)
  unfolding load_raw_server
  load-saved o workspace r y e saved =
      follow-returned (workspace_or_raise o) (λ w. host.read_json (server_path w)) y y workspace
        (workspace-some o workspace y e)
      ∙ keeper.read_json-contents (server_path workspace) r y saved

  delete_recorded : Json → Act X Bool
  delete_recorded id = do failed ← client.delete_instance id; pure (not failed)

  destroy-recorded :
      (meta : ServerMeta) (workspace : FilePath) (r : Raw) (j : Json) (y : X)
      → meta.workspace ≡ some workspace
      → IsSaved contents host keeper client workspace r y
      → lookup "id" r ≡ some j
      → destroy_server host client meta none y ≡ delete_recorded j y
  unfolding destroy_server tell_if delete_recorded
  destroy-recorded meta workspace r j y e saved has =
      follow-returned (load_raw_server host meta.workspace)
        (λ contents. member "id" contents >>= delete_recorded) y y r
        (load-saved meta.workspace workspace r y e saved)
      ∙ follow-returned (member "id" r) delete_recorded y y j (member-some "id" r j y has)

  -- On a host that keeps the files of its servers, and a cloud whose data of an instance holds its
  -- id, a server that `create_server` has returned stands for an instance that the cloud has
  -- created, and `destroy_server` without a channel, as the killer calls it, deletes that very
  -- instance by its id, with nothing else done before, and answers whether the cloud did not report
  -- a failure.
  pub created_is_destroyed :
      GivesIds
      → (self : Base) (favorites : List String) (channel : Channel) (x : X) (meta : ServerMeta)
      → (create_server host client self favorites channel x).0 ≡ ok meta
      → let y = (create_server host client self favorites channel x).1 in
        (req : ReqInstance) × (z : X) × (c : Instance) × ((client.create_instance req z).0 ≡ ok c)
        × (destroy_server host client meta none y
            ≡ (client.delete_instance (text c.id) >>= λ failed. pure (not failed)) y)
  unfolding delete_recorded
  created_is_destroyed ids self favorites channel x meta h =
      let y = (create_server host client self favorites channel x).1 in
      let (req, z, c, e, (i, workspace, z', e', at, saved)) =
        server-IsCreated contents host keeper client self favorites channel x tt meta h in
      (
        req,
        z,
        c,
        e,
        destroy-recorded meta workspace i.contents (text c.id) y at saved (ids c.id z' tt i e'),
      )
