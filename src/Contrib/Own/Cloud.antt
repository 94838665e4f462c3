-- ===== src/Contrib/Own/Cloud.antt =====
-- `create_server` of vultr.py, linode.py and digitalocean.py: whose the new server is, and where.
use lobbyboy.Base.{◌≡◌, String, List, [], ◌∷◌, none, some}
use lobbyboy.Base.Dict.{insert}
use lobbyboy.Act.{lift, Returns, follow-Returns, then-Returns}
use lobbyboy.Paths.{FilePath}
use lobbyboy.Config.Json.{number}
use lobbyboy.Convert.{dict_factory}
use lobbyboy.World.{Channel}
use lobbyboy.Contrib.Host.{
  Host, Base, get_server_workspace, tell, save_raw_server, port_is_open, time_process,
}
use lobbyboy.Contrib.Cloud.{booted_text, Choice, prepare, wait_for_boot, item}
use lobbyboy.Contrib.Vultr
use lobbyboy.Contrib.Linode
use lobbyboy.Contrib.DigitalOcean
use lobbyboy.Contrib.Own.Placed.{IsOwn, IsPlaced, finish-Returns, prepare-Returns}

module _ {X : Type 0} (host : Host X) (channel : Channel) (self : Base) where
  module _ (client : Vultr.Client X) where
    vultr_prepare-Returns :
        (instance : Vultr.Instance) (workspace : FilePath) (server_name : String)
        → workspace ≡ get_server_workspace self server_name
        → Returns (IsOwn self) (
            Vultr.prepare_after_server_created host client channel self instance workspace
              server_name)
    unfolding Vultr.prepare_after_server_created
    vultr_prepare-Returns instance workspace server_name e =
        let P = IsOwn self in
        follow-Returns P (client.get_instance instance.id) _ λ i.
          follow-Returns P (tell host channel (Vultr.created_text server_name i)) _ λ _.
            follow-Returns P (save_raw_server host i.contents workspace) _ λ _.
              follow-Returns P
                (wait_for_boot host channel server_name (port_is_open host i.main_ip 22)) _
                λ _. rw (e) (finish-Returns host channel self server_name i.main_ip)

    vultr_node-Returns :
        (choice : Choice) (prepared : String × FilePath × List String)
        → IsPlaced host channel self prepared
        → Returns (IsOwn self) (Vultr.create_node host client channel self choice prepared)
    unfolding Vultr.create_node
    vultr_node-Returns (region_id, plan_id, image_id) (server_name, workspace, ssh_keys) e =
        let P = IsOwn self in
        follow-Returns P (tell host channel "Waiting for server to created...") _ λ _.
          follow-Returns P (Vultr.create_keys host client server_name 0 ssh_keys) _ λ ids.
            follow-Returns P (Vultr.int_or_raise image_id) _ λ os_id.
              follow-Returns P
                (client.create_instance (Vultr.request region_id plan_id os_id server_name ids)) _
                λ i.
                  follow-Returns P
                    (time_process host channel "instance is up"
                      (Vultr.instance_is_up host client i.id) 5)
                    _ λ _. vultr_prepare-Returns i workspace server_name e

    pub vultr-Returns :
        (favorites : List String)
        → Returns (IsOwn self) (Vultr.create_server host client self favorites channel)
    unfolding Vultr.create_server
    vultr-Returns favorites =
        follow-Returns (IsOwn self) (Vultr.ask_user_customize_server host client channel favorites)
          _
          λ choice.
            then-Returns (IsPlaced host channel self) (IsOwn self) (prepare host channel self) _
              (prepare-Returns host channel self) (vultr_node-Returns choice)

  module _ (client : Linode.Client X) where
    linode_prepare-Returns :
        (instance : Linode.Instance) (workspace : FilePath) (server_name : String)
        → workspace ≡ get_server_workspace self server_name
        → Returns (IsOwn self) (
            Linode.prepare_after_server_created host client channel self instance workspace
              server_name)
    unfolding Linode.prepare_after_server_created
    linode_prepare-Returns i workspace server_name e =
        let P = IsOwn self in
        follow-Returns P (tell host channel (Linode.created_text server_name i)) _ λ _.
          follow-Returns P (save_raw_server host (insert "id" (number i.id) i.serialized) workspace)
            _
            λ _. follow-Returns P (tell host channel "Waiting for server to boot...") _ λ _.
              follow-Returns P (item i.ipv4 0) _ λ ip.
                follow-Returns P
                  (time_process host channel "port is open" (port_is_open host ip 22) 3) _
                  λ _.
                    follow-Returns P (tell host channel (booted_text server_name)) _
                      λ _. rw (e) (finish-Returns host channel self server_name ip)

    linode_node-Returns :
        (choice : Choice) (prepared : String × FilePath × List String)
        → IsPlaced host channel self prepared
        → Returns (IsOwn self) (Linode.create_node host client channel self choice prepared)
    unfolding Linode.create_node
    linode_node-Returns (region_id, type_id, image_id) (server_name, workspace, ssh_keys) e =
        let P = IsOwn self in
        follow-Returns P (tell host channel "Waiting for server to created...") _ λ _.
          follow-Returns P (client.instance_create type_id region_id image_id server_name ssh_keys)
            _
            λ created.
              let i = Linode.instance_of created in
              follow-Returns P
                (time_process host channel "linode is up" (Linode.linode_is_up host client i) 5) _
                λ _. linode_prepare-Returns i workspace server_name e

    pub linode-Returns :
        (favorites : List String)
        → Returns (IsOwn self) (Linode.create_server host client self favorites channel)
    unfolding Linode.create_server
    linode-Returns favorites =
        follow-Returns (IsOwn self) (Linode.ask_user_customize_server host client channel favorites)
          _
          λ choice.
            then-Returns (IsPlaced host channel self) (IsOwn self) (prepare host channel self) _
              (prepare-Returns host channel self) (linode_node-Returns choice)

  module _ (client : DigitalOcean.Client X) where
    droplet_prepare-Returns :
        (created : DigitalOcean.Droplet) (workspace : FilePath) (server_name : String)
        → workspace ≡ get_server_workspace self server_name
        → Returns (IsOwn self) (
            DigitalOcean.prepare_after_server_created host client channel self created workspace
              server_name)
    unfolding DigitalOcean.prepare_after_server_created
    droplet_prepare-Returns created workspace server_name e =
        let P = IsOwn self in
        follow-Returns P (client.load created) _ λ d.
          follow-Returns P (tell host channel (DigitalOcean.created_text server_name d)) _ λ _.
            follow-Returns P
              (lift (
                dict_factory (some ("tokens" ∷ [])) (some DigitalOcean.is_private) none
                  d.attributes))
              _
              λ kept. follow-Returns P (save_raw_server host kept workspace) _ λ _.
                follow-Returns P
                  (wait_for_boot host channel server_name
                    (DigitalOcean.is_open host client d.ip_address))
                  _
                  λ _. rw (e) (
                    finish-Returns host channel self server_name
                      (DigitalOcean.show_address d.ip_address))

    droplet_node-Returns :
        (choice : Choice) (prepared : String × FilePath × List String)
        → IsPlaced host channel self prepared
        → Returns
            (IsOwn self)
            (DigitalOcean.create_droplet host client channel self choice prepared)
    unfolding DigitalOcean.create_droplet
    droplet_node-Returns (region, size, image) (server_name, workspace, ssh_keys) e =
        let P = IsOwn self in
        follow-Returns P (tell host channel "Waiting for server to created...") _ λ _.
          follow-Returns P (client.create server_name region image size ssh_keys) _ λ d.
            follow-Returns P
              (time_process host channel "droplet is up" (DigitalOcean.droplet_is_up host client d)
                3)
              _ λ _. droplet_prepare-Returns d workspace server_name e

    pub digitalocean-Returns :
        (favorites : List String)
        → Returns (IsOwn self) (DigitalOcean.create_server host client self favorites channel)
    unfolding DigitalOcean.create_server
    digitalocean-Returns favorites =
        follow-Returns (IsOwn self)
          (DigitalOcean.ask_user_customize_server host client channel favorites) _
          λ choice.
            then-Returns (IsPlaced host channel self) (IsOwn self) (prepare host channel self) _
              (prepare-Returns host channel self) (droplet_node-Returns choice)
