-- ===== src/Contrib/Vagrant.antt =====
-- lobbyboy/contrib/provider/vagrant.py, over the programs of the host.
pub mod Names
pub mod Stuck
use mathlib.Core.Option
use lobbyboy.Base.{
  ℕ, zero, suc, ◌+◌, Bool, true, false, String, ◌<>◌, List, [], ◌∷◌, ◌++◌, Option, none, some,
  given, if◌then◌else◌,
}
use lobbyboy.Base.Int.{ℤ}
use lobbyboy.Exceptions.{plain, attribute_error, no_available_name, vagrant}
use lobbyboy.Act.{
  Result, ok, raised, running, Act, Void, skip, raise, pure, lift, gets, modify, ◌>>=◌, ◌>>◌,
}
use lobbyboy.Text.Print.{decimal}
use lobbyboy.Text.Split.{split}
use lobbyboy.Text.Find.{contains, first_word}
use lobbyboy.Paths.{FilePath, joinpath, show_path}
use lobbyboy.Config.Types.{ConfigProvider, ServerMeta}
use lobbyboy.World.{Channel, Provider}
use lobbyboy.Contrib.Host.{Host, Base, is_zero, tell, time_process, open_workspace, finish}
use lobbyboy.Contrib.Local.{Programs, is_success, has_ended}

pub record VagrantConfig : Type 0 where
  pub base : ConfigProvider
  pub vagrantfile : String

-- The name of the candidate `idx`.
unfoldable pub vm_name : Option String → ℕ → String
unfolding decimal
vm_name none idx = decimal idx
vm_name (some server_name_prefix) idx = server_name_prefix <> "-" <> decimal idx

-- `_tmp_ssh_config_file`, a field of the provider that is kept in the state.
pub record Memory (X : Type 0) : Type 0 where
  pub tmp_ssh_config_file : X → Option FilePath
  pub set_tmp_ssh_config_file : FilePath → X → X

-- `str(path)` of a path that may be `None`.
unfoldable pub show_file : Option FilePath → String
unfolding show_path
show_file none = "None"
show_file (some p) = show_path p

-- The name and the file that the template is written to.
unfoldable pub vagrantfile_path : FilePath → FilePath
unfolding joinpath
vagrantfile_path workspace = joinpath workspace "Vagrantfile"

-- `stdout.decode()`, on what `_run_vagrant` has decoded: neither a text nor `None` has that method.
unfoldable pub decode_again : {X : Type 0} → Option String → Act X String
decode_again none = raise attribute_error
decode_again (some stdout) = raise attribute_error

-- The loop over the lines.
unfoldable pub find_machine : {X : Type 0} → String → List String → Act X String
unfolding contains first_word
find_machine server_name [] = raise vagrant
find_machine server_name (line ∷ lines) =
    let rest = find_machine server_name lines in
    if contains server_name line then pure (first_word line) else rest

module _ {X : Type 0} (host : Host X) (self : Base) where
  -- The loop over the indices, from `idx` on, with so many left.
  unfoldable pub find_vm_name : ℕ → ℕ → Act X String
  unfolding vm_name joinpath
  find_vm_name zero idx = raise no_available_name
  find_vm_name (suc left) idx =
      let later = find_vm_name left (idx + 1) in
      let name = vm_name (given self.provider_config.server_name_prefix) idx in
      λ x. if host.system.exists (joinpath self.workspace name) x then later x else (ok name, x)

  -- `range(1, 99)`
  unfoldable pub generate_server_name : Act X String
  unfolding find_vm_name
  generate_server_name = find_vm_name 98 1

module _ {X : Type 0} (programs : Programs X) where
  -- The end of `_run_vagrant`.
  unfoldable pub outcome :
      ℤ → Option String → Option String → Act X (ℤ × Option String × Option String)
  outcome returncode stdout stderr =
      if is_zero returncode then pure (returncode, stdout, stderr) else raise plain

  unfoldable pub run_vagrant :
      List String → Option FilePath → Option FilePath → Act X (ℤ × Option String × Option String)
  unfolding outcome
  run_vagrant command_exec cwd output = do
    p ← programs.popen command_exec cwd output
    returncode ← programs.wait p
    stdout ← programs.stdout p
    stderr ← programs.stderr p
    outcome returncode stdout stderr

  unfoldable pub get_vagrant_machine_id : String → Act X String
  unfolding run_vagrant decode_again find_machine split
  get_vagrant_machine_id server_name = do
    (_, stdout, _) ← run_vagrant ("vagrant" ∷ "global-status" ∷ []) none none
    text ← decode_again stdout
    find_machine server_name (split b'\n' text)

  unfoldable pub destroyed : ℤ → Act X Bool
  destroyed return_code = if is_zero return_code then pure true else raise vagrant

  unfoldable pub destroy_server : ServerMeta → Act X Bool
  unfolding get_vagrant_machine_id run_vagrant destroyed
  destroy_server meta = do
    vid ← get_vagrant_machine_id meta.server_name
    (return_code, _, _) ← run_vagrant ("vagrant" ∷ "destroy" ∷ "-f" ∷ vid ∷ []) none none
    destroyed return_code

  -- `vagrant_up`
  unfoldable pub vagrant_up : ℕ → Act X Bool
  unfolding is_success
  vagrant_up process = do code ← programs.poll process; pure (is_success code)

module _ {X : Type 0} (host : Host X) (programs : Programs X) (memory : Memory X) where
  -- The steps behind the start of `vagrant up`.
  unfoldable pub bring_up : Channel → Base → String → FilePath → ℕ → Act X ServerMeta
  unfolding time_process vagrant_up tell run_vagrant joinpath finish
  bring_up channel self server_name server_workspace vagrant_up_process = do
    time_process host channel "vagrant up" (vagrant_up programs vagrant_up_process) 3
    tell host channel ("New server " <> server_name <> " created!")
    modify (memory.set_tmp_ssh_config_file (joinpath server_workspace "ssh_config"))
    run_vagrant programs ("vagrant" ∷ "ssh-config" ∷ server_name ∷ []) (some server_workspace)
        (some (joinpath server_workspace "ssh_config"))
    finish host self server_name server_workspace "127.0.0.1"

  unfoldable pub create_server : Base → VagrantConfig → Channel → Act X ServerMeta
  unfolding generate_server_name open_workspace vagrantfile_path bring_up
  create_server self config channel = do
    server_name ← generate_server_name host self
    server_workspace ← open_workspace host channel self server_name
    host.files.write (vagrantfile_path server_workspace) ""
    text ← lift (programs.format config.vagrantfile "boxname" server_name)
    host.files.write (vagrantfile_path server_workspace) text
    vagrant_up_process ← programs.popen ("vagrant" ∷ "up" ∷ []) (some server_workspace) none
    bring_up channel self server_name server_workspace vagrant_up_process

  -- The units as `str` writes them.
  unfoldable pub ssh_server_command : ServerMeta → Act X (List String)
  unfolding show_file
  ssh_server_command meta = do
    file ← gets memory.tmp_ssh_config_file
    pure ("ssh" ∷ "-F" ∷ show_file file ∷ (meta.ssh_extra_args ++ meta.server_name ∷ []))

unfoldable pub vagrant_provider :
    {X : Type 0} → Host X → Programs X → Memory X → String → VagrantConfig → FilePath → Provider X
unfolding create_server destroy_server ssh_server_command
vagrant_provider host programs memory name config workspace =
    let self : Base = record {
      name = name;
      provider_config = config.base;
      workspace = workspace;
    } in
    record {
      name = name;
      config = config.base;
      create_server = create_server host programs memory self config;
      destroy_server = λ meta channel. destroy_server programs meta;
      ssh_server_command = ssh_server_command host programs memory;
    }
