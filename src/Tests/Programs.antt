-- ===== src/Tests/Programs.antt =====
-- Vagrant, Linode and the local programs at concrete inputs, and a filter of a dictionary.
use lobbyboy.Base.{ℕ, zero, ◌≡◌, ◌≢◌, refl, true, false, List, [], ◌∷◌, ◌++◌, none, some, All, ◌⊎◌}
use lobbyboy.Base.Int.{pos}
use lobbyboy.Base.Dict.{Dict, lookup}
use lobbyboy.Exceptions.{no_available_name, type_error}
use lobbyboy.Act.{Result, ok, raised, pure}
use lobbyboy.Text.Utf8.{Bytes}
use lobbyboy.Paths.{joinpath}
use lobbyboy.Config.Json.{compound}
use lobbyboy.Config.Types.{ServerMeta}
use lobbyboy.Convert.{dict_factory}
use lobbyboy.Convert.Filter.{Filtered, dict_factory-Filtered}
use lobbyboy.Killer.{destroy}
use lobbyboy.Contrib.Host.{Base, time_process, server_meta}
use lobbyboy.Contrib.Local.{is_success}
use lobbyboy.Contrib.Local.Started.{ignite, create_with, command_of, create_server-IsStarted}
use lobbyboy.Contrib.Ignite.{IgniteConfig, create_server}
use lobbyboy.Contrib.Vagrant.{VagrantConfig, Memory, generate_server_name, vagrant_provider}
use lobbyboy.Contrib.Vagrant.Names.{indices, name_of, is_taken, IsTaken, generate_server_name-first}
use lobbyboy.Contrib.Vagrant.Stuck.{destroy_never_returns}
use lobbyboy.Contrib.Linode.{Client, Instance, alone, linode_is_up, is_running}
use lobbyboy.Contrib.Linode.Wait.{AreFigures, wait_never_up}
use lobbyboy.Tests.Fixtures.{by_the_hour, web, world}
use lobbyboy.Tests.Clouds.{host, programs, workspace}

abbrev self : Base
self = record { name = "local"; provider_config = by_the_hour; workspace = workspace }

abbrev ignite_config : IgniteConfig
ignite_config = record {
  base = by_the_hour;
  image = "weaveworks/ignite-ubuntu";
  cpu = pos 1;
  mem = "1GB";
  disk = "5GB";
}

abbrev started : ServerMeta
started =
    server_meta (pos 7000) "local" "2024-05-01-1200" (joinpath workspace "2024-05-01-1200")
      "127.0.0.1"

started_test : (create_with host programs 0 self (ignite ignite_config) []).0 ≡ ok started
unfolding create_server
started_test = refl

create_server-IsStarted_example :
    (p : ℕ) × (y : Bytes) × (z : Bytes) × ((programs.popen
        (command_of host programs 0 self (ignite ignite_config) started.server_name)
        started.workspace
        none
        y).0
      ≡ ok p)
    × (is_success (programs.returncode p z) ≡ true)
create_server-IsStarted_example =
    create_server-IsStarted host programs 0 self (ignite ignite_config) [] started started_test

abbrev memory : Memory Bytes
memory = record { tmp_ssh_config_file = λ x. none; set_tmp_ssh_config_file = λ p x. x }

abbrev vagrant_config : VagrantConfig
vagrant_config = record { base = by_the_hour; vagrantfile = "{boxname}" }

destroy_never_returns_example :
    ((destroy
        (λ x. pos 7000)
        (vagrant_provider host programs memory "local" vagrant_config workspace)
        web
        none
        (world [])).0
      ≢ ok tt)
    × ((destroy
          (λ x. pos 7000)
          (vagrant_provider host programs memory "local" vagrant_config workspace)
          web
          none
          (world [])).1.db
        ≡ (world {X = Bytes} []).db)
destroy_never_returns_example =
    destroy_never_returns host programs memory "local" vagrant_config workspace (λ x. pos 7000) web
      none (world [])

generate_server_name-first_example :
    ((before : List ℕ) × (i : ℕ) × (after : List ℕ) × (indices 98 1 ≡ before ++ i ∷ after)
      × All (IsTaken host self []) before
      × (is_taken host self [] i ≡ false)
      × (generate_server_name host self [] ≡ (ok (name_of host self [] i), [])))
    ⊎ (All (IsTaken host self []) (indices 98 1)
        × (generate_server_name host self [] ≡ (raised no_available_name, [])))
generate_server_name-first_example = generate_server_name-first host self []

abbrev node : Instance
node = record { id = pos 7; ipv4 = "10.0.0.8" ∷ []; serialized = [] }

abbrev linode : Client Bytes
linode = record {
  instance_create = λ type_id region_id image_id label keys. pure (alone node);
  stats = λ i. pure (compound "{'cpu': []}");
  find = λ id. pure none;
  delete = λ i. pure true;
  regions = pure [];
  types = pure [];
  images = pure [];
}

linode-AreFigures : AreFigures host linode
unfolding is_running
linode-AreFigures i x j e = let same : compound "{'cpu': []}" ≡ j = cc e in rw (← same) refl

wait_never_up_example :
    (time_process host 0 "linode is up" (linode_is_up host linode node) 5 []).0 ≢ ok true
wait_never_up_example = wait_never_up host linode linode-AreFigures 0 node []

abbrev refuse_zero : ℕ → Result ℕ
refuse_zero zero = raised type_error
refuse_zero n = ok n

abbrev entries : Dict ℕ
entries = ("id", 3) ∷ ("tokens", 0) ∷ ("size", 1) ∷ []

dict_factory-Filtered_example :
    Filtered
      (some ("tokens" ∷ []))
      none
      (some refuse_zero)
      entries
      (dict_factory (some ("tokens" ∷ [])) none (some refuse_zero) entries)
unfolding lookup
dict_factory-Filtered_example =
    dict_factory-Filtered (some ("tokens" ∷ [])) none (some refuse_zero) entries
      (refl, (refl, (refl, tt)))

filtered_test :
    dict_factory
      (some ("tokens" ∷ []))
      none
      (some refuse_zero)
      (("id", 3) ∷ ("tokens", 0) ∷ ("size", 1) ∷ [])
    ≡ ok (("id", 3) ∷ ("size", 1) ∷ [])
unfolding dict_factory
filtered_test = refl
