-- ===== src/Contrib/Vultr/Recorded.antt =====
-- What `create_server` of lobbyboy/contrib/provider/vultr.py leaves in the file of the new server.
use mathlib.Core.Path.{subst}
use lobbyboy.Base.{◌≡◌, refl, String, List, Option, some}
use lobbyboy.Act.{ok, Act, pure, ◌>>◌, Triple, follow-Triple, after-Triple}
use lobbyboy.Paths.{FilePath}
use lobbyboy.Config.Json.{Raw}
use lobbyboy.Config.Types.{ServerMeta}
use lobbyboy.World.{Channel}
use lobbyboy.Contrib.Host.{
  Host, Base, server_path, save_raw_server, finish, tell, time_process, port_is_open, server_meta,
}
use lobbyboy.Contrib.Host.Kept.{
  Keeps, IsKeeper, follow-Keeps, tell-Keeps, time_process-Keeps, port_is_open-Keeps,
}
use lobbyboy.Contrib.Cloud.{Choice, prepare, wait_for_boot, booted_text}
use lobbyboy.Contrib.Vultr.{
  Client, Instance, ReqInstance, request, created_text, prepare_after_server_created,
  ask_user_customize_server, create_keys, int_or_raise, instance_is_up, create_node, create_server,
}

module _ {X : Type 0} (contents : FilePath → X → Option Raw) (host : Host X)
    (keeper : IsKeeper contents host) (client : Client X) where
  abbrev pub IsSaved : FilePath → Raw → X → Type 0
  IsSaved workspace r y = contents (server_path workspace) y ≡ some r

  save-IsSaved :
      (workspace : FilePath) (r : Raw)
      → Triple (λ _. Unit) (save_raw_server host r workspace) (λ _ y. IsSaved workspace r y)
  unfolding save_raw_server
  save-IsSaved workspace r =
      follow-Triple (λ _ y. IsSaved workspace r y) (λ _. Unit) (λ _ y. IsSaved workspace r y)
        (host.write_json (server_path workspace) r) (λ _. pure (server_path workspace))
        (keeper.write_json-contents (server_path workspace) r) λ _ y saved p e. saved

  wait-Keeps :
      (channel : Channel) (server_name ip : String)
      → Keeps contents (wait_for_boot host channel server_name (port_is_open host ip 22))
  unfolding wait_for_boot
  wait-Keeps channel server_name ip =
      follow-Keeps contents (tell host channel "Waiting for server to boot...") _
        (tell-Keeps contents host keeper channel "Waiting for server to boot...")
        λ _.
          follow-Keeps contents
            (time_process host channel "port is open" (port_is_open host ip 22) 3)
            (λ _. tell host channel (booted_text server_name))
            (time_process-Keeps contents host keeper channel "port is open"
              (port_is_open host ip 22) 3 (port_is_open-Keeps contents host keeper ip 22))
            λ _. tell-Keeps contents host keeper channel (booted_text server_name)

  -- The data of an instance, as the cloud gives it for the id, is in the file of the server.
  abbrev pub IsRecorded : String → ServerMeta → X → Type 0
  IsRecorded id meta y =
      (i : Instance) × (workspace : FilePath) × (z : X) × ((client.get_instance id z).0 ≡ ok i)
      × (meta.workspace ≡ some workspace)
      × IsSaved workspace i.contents y

  finish-IsRecorded :
      (self : Base) (server_name : String) (workspace : FilePath) (id : String) (i : Instance)
      (z : X)
      → (client.get_instance id z).0 ≡ ok i
      → Triple
          (IsSaved workspace i.contents)
          (finish host self server_name workspace i.main_ip)
          (IsRecorded id)
  unfolding finish server_meta
  finish-IsRecorded self server_name workspace id i z e y saved meta h =
      let made : server_meta (host.now y) self.name server_name workspace i.main_ip ≡ meta = cc h in
      subst (λ (m : ServerMeta). IsRecorded id m y) made (i, workspace, z, e, refl, saved)

  prepare-IsRecorded :
      (channel : Channel) (self : Base) (instance : Instance) (workspace : FilePath)
      (server_name : String)
      → Triple
          (λ _. Unit)
          (prepare_after_server_created host client channel self instance workspace server_name)
          (IsRecorded instance.id)
  unfolding prepare_after_server_created
  prepare-IsRecorded channel self instance workspace server_name =
      let Q = IsRecorded instance.id in
      follow-Triple Q (λ _. Unit) (λ i _. (z : X) × ((client.get_instance instance.id z).0 ≡ ok i))
        (client.get_instance instance.id) _ (λ z _ i e. (z, e))
        λ i x (z, e).
          let end : Act X ServerMeta = finish host self server_name workspace i.main_ip in
          let wait = wait_for_boot host channel server_name (port_is_open host i.main_ip 22) in
          let save = save_raw_server host i.contents workspace in
          let rest : Act X ServerMeta = save >> (wait >> end) in
          after-Triple Q (tell host channel (created_text server_name i)) (λ _. rest)
            (λ _.
              follow-Triple Q (λ _. Unit) (λ _. IsSaved workspace i.contents) save
                (λ _. wait >> end) (save-IsSaved workspace i.contents)
                λ _.
                  follow-Triple Q (IsSaved workspace i.contents) (λ _. IsSaved workspace i.contents)
                    wait (λ _. end)
                    (wait-Keeps channel server_name i.main_ip (server_path workspace) i.contents)
                    λ _. finish-IsRecorded self server_name workspace instance.id i z e)
            x tt

  -- An instance that the cloud has created is the one that the server's file records.
  abbrev pub IsCreated : ServerMeta → X → Type 0
  IsCreated meta y =
      (req : ReqInstance) × (z : X) × (c : Instance) × ((client.create_instance req z).0 ≡ ok c)
      × IsRecorded c.id meta y

  node-IsCreated :
      (channel : Channel) (self : Base) (choice : Choice)
      (prepared : String × FilePath × List String)
      → Triple (λ _. Unit) (create_node host client channel self choice prepared) IsCreated
  unfolding create_node
  node-IsCreated channel self (region_id, plan_id, image_id) (server_name, workspace, keys) =
      after-Triple IsCreated (tell host channel "Waiting for server to created...") _ λ _.
        after-Triple IsCreated (create_keys host client server_name 0 keys) _ λ ids.
          after-Triple IsCreated (int_or_raise image_id) _ λ os_id.
            let req = request region_id plan_id os_id server_name ids in
            follow-Triple IsCreated (λ _. Unit)
              (λ c _. (z : X) × ((client.create_instance req z).0 ≡ ok c))
              (client.create_instance req) _ (λ z _ c e. (z, e))
              λ c x (z, e).
                let rest : Act X ServerMeta =
                  prepare_after_server_created host client channel self c workspace server_name in
                after-Triple IsCreated
                  (time_process host channel "instance is up" (instance_is_up host client c.id) 5)
                  (λ _. rest)
                  (λ _ y _ meta h. (
                    req,
                    z,
                    c,
                    e,
                    prepare-IsRecorded channel self c workspace server_name y tt meta h,
                  ))
                  x tt

  pub server-IsCreated :
      (self : Base) (favorites : List String) (channel : Channel)
      → Triple (λ _. Unit) (create_server host client self favorites channel) IsCreated
  unfolding create_server
  server-IsCreated self favorites channel =
      after-Triple IsCreated (ask_user_customize_server host client channel favorites) _ λ choice.
        after-Triple IsCreated (prepare host channel self) _ (node-IsCreated channel self choice)
