-- ===== src/Contrib/Own/Local.antt =====
-- `create_server` of footloose.py, ignite.py, multipass.py and vagrant.py: whose the new server is, and
-- where.
use lobbyboy.Base.{ℕ, ◌≡◌, String, ◌<>◌, [], ◌∷◌, none, some}
use lobbyboy.Act.{lift, modify, ◌>>◌, Returns, follow-Returns, then-Returns}
use lobbyboy.Paths.{FilePath, joinpath}
use lobbyboy.World.{Channel}
use lobbyboy.Contrib.Host.{
  Host, Base, get_server_workspace, open_workspace, finish, tell, time_process,
}
use lobbyboy.Contrib.Local.{Programs, place, ensure_success}
use lobbyboy.Contrib.Footloose
use lobbyboy.Contrib.Ignite
use lobbyboy.Contrib.Multipass
use lobbyboy.Contrib.Vagrant
use lobbyboy.Contrib.Own.Placed.{
  IsOwn, IsLocated, finish-Returns, place-Returns, open_workspace-Returns,
}

module _ {X : Type 0} (host : Host X) (programs : Programs X) (channel : Channel)
    (self : Base) where
  pub ignite-Returns :
      (config : Ignite.IgniteConfig)
      → Returns (IsOwn self) (Ignite.create_server host programs self config channel)
  unfolding Ignite.create_server
  ignite-Returns config =
      let P = IsOwn self in
      then-Returns (IsLocated host channel self) P (place host channel self) _
        (place-Returns host channel self)
        λ (server_name, workspace) e.
          follow-Returns P
            (programs.popen (Ignite.create_command config server_name) (some workspace) none) _
            λ p.
              follow-Returns P
                (time_process host channel "ignite create done"
                  (Ignite.ignite_create_done host programs p) 3)
                _
                λ _.
                  follow-Returns P (ensure_success programs "IgniteException" p) _
                    λ _. rw (e) (finish-Returns host channel self server_name "127.0.0.1")

  pub multipass-Returns :
      (config : Multipass.MultipassConfig)
      → Returns (IsOwn self) (Multipass.create_server host programs self config channel)
  unfolding Multipass.create_server
  multipass-Returns config =
      let P = IsOwn self in
      then-Returns (IsLocated host channel self) P (place host channel self) _
        (place-Returns host channel self)
        λ (server_name, workspace) e.
          follow-Returns P
            (programs.popen (Multipass.create_command config server_name) (some workspace) none) _
            λ p.
              follow-Returns P
                (time_process host channel "multipass create done"
                  (Multipass.multipass_create_done host programs server_name p) 3)
                _
                λ _.
                  follow-Returns P (ensure_success programs "MultipassException" p) _
                    λ _. rw (e) (finish-Returns host channel self server_name "127.0.0.1")

  pub footloose-Returns :
      (config : Footloose.FootlooseConfig)
      → Returns (IsOwn self) (Footloose.create_server host programs self config channel)
  unfolding Footloose.create_server
  footloose-Returns config =
      let P = IsOwn self in
      then-Returns (IsLocated host channel self) P (place host channel self) _
        (place-Returns host channel self)
        λ (server_name, workspace) e.
          follow-Returns P (host.files.write (Footloose.config_file workspace) "") _ λ _.
            follow-Returns P
              (lift (programs.format config.footloose_config "server_name" server_name)) _
              λ text.
                follow-Returns P (host.files.write (Footloose.config_file workspace) text) _ λ _.
                  follow-Returns P
                    (programs.popen ("footloose" ∷ "create" ∷ []) (some workspace) none) _
                    λ p.
                      follow-Returns P
                        (time_process host channel "footloose create done"
                          (Footloose.footloose_create_done host programs p) 3)
                        _
                        λ _.
                          follow-Returns P (ensure_success programs "FootlooseException" p) _
                            λ _. rw (e) (finish-Returns host channel self server_name "127.0.0.1")

  -- The steps behind the start of `vagrant up`.
  vagrant_up-Returns :
      (memory : Vagrant.Memory X) (server_name : String) (p : ℕ)
      → Returns (IsOwn self) (
          Vagrant.bring_up host programs memory channel self server_name
            (get_server_workspace self server_name)
            p)
  unfolding Vagrant.bring_up
  vagrant_up-Returns memory server_name p =
      let P = IsOwn self in
      let workspace = get_server_workspace self server_name in
      let config = joinpath workspace "ssh_config" in
      follow-Returns P (time_process host channel "vagrant up" (Vagrant.vagrant_up programs p) 3) _
        λ _.
          follow-Returns P (tell host channel ("New server " <> server_name <> " created!")) _ λ _.
            follow-Returns P (modify (memory.set_tmp_ssh_config_file config))
              (λ _.
                Vagrant.run_vagrant programs ("vagrant" ∷ "ssh-config" ∷ server_name ∷ [])
                  (some workspace) (some config)
                >> finish host self server_name workspace "127.0.0.1")
              λ _.
                follow-Returns P
                  (Vagrant.run_vagrant programs ("vagrant" ∷ "ssh-config" ∷ server_name ∷ [])
                    (some workspace) (some config))
                  (λ _. finish host self server_name workspace "127.0.0.1")
                  λ _. finish-Returns host channel self server_name "127.0.0.1"

  pub vagrant-Returns :
      (memory : Vagrant.Memory X) (config : Vagrant.VagrantConfig)
      → Returns (IsOwn self) (Vagrant.create_server host programs memory self config channel)
  unfolding Vagrant.create_server
  vagrant-Returns memory config =
      let P = IsOwn self in
      follow-Returns P (Vagrant.generate_server_name host self) _ λ server_name.
        then-Returns (λ (p : FilePath). p ≡ get_server_workspace self server_name) P
          (open_workspace host channel self server_name) _
          (open_workspace-Returns host channel self server_name)
          λ workspace e.
            follow-Returns P (host.files.write (Vagrant.vagrantfile_path workspace) "") _ λ _.
              follow-Returns P (lift (programs.format config.vagrantfile "boxname" server_name)) _
                λ text.
                  follow-Returns P (host.files.write (Vagrant.vagrantfile_path workspace) text) _
                    λ _.
                      follow-Returns P
                        (programs.popen ("vagrant" ∷ "up" ∷ []) (some workspace) none) _
                        λ p. rw (e) (vagrant_up-Returns memory server_name p)
