-- ===== src/Tests/Clouds.antt =====
-- Servers of Vultr, made over a line on which the user chooses the first favourite.
use mathlib.Core.Option
use lobbyboy.Base.{
  ◌≡◌, refl, true, false, ◌&&◌, String, [], ◌∷◌, Option, none, some, ◌===◌, if◌then◌else◌, ◌⊎◌,
}
use lobbyboy.Base.Int.{pos}
use lobbyboy.Base.Dict.{lookup, Dict, keys}
use lobbyboy.Exceptions.{type_error}
use lobbyboy.Act.{Result, ok, raised, pure}
use lobbyboy.Text.Utf8.{Bytes, decode}
use lobbyboy.Paths.{FilePath, path_of, joinpath}
use lobbyboy.KeyFiles.{Files}
use lobbyboy.BaseProvider.{System}
use lobbyboy.Convert.{object, table}
use lobbyboy.World.{Provider}
use lobbyboy.Config.Json.{flag, text, Raw}
use lobbyboy.Config.Types.{ConfigUser, ServerMeta}
use lobbyboy.Config.File.{RawConfig, Config, directory, empty, load}
use lobbyboy.Config.File.On.{AreEnabled}
use lobbyboy.Main.{ProviderClass, new_providers}
use lobbyboy.Main.Made.{load-AreMade}
use lobbyboy.Main.Own.{created_server_is_found}
use lobbyboy.Contrib.Host.{Host, Base, Sockets, server_meta}
use lobbyboy.Contrib.Local.{Programs}
use lobbyboy.Contrib.Cloud.{CloudConfig, choose}
use lobbyboy.Contrib.Vultr.{Client, Instance, create_server}
use lobbyboy.Contrib.Vultr.Chosen.{IsRequested, favorite_is_created}
use lobbyboy.Contrib.Own.BuiltIn.{BuiltIn, vultr, built_in, create_server-IsOwn}
use lobbyboy.Tests.Fixtures.{by_the_hour}
use lobbyboy.Tests.Talk.{line}

abbrev pub system : System Bytes
system = record {
  exists = λ p x. false;
  mkdir = λ p. pure tt;
  minute = λ x. "2024-05-01-1200";
  sleep = λ n. pure tt;
  time = λ x. 0;
  elapsed = λ a b. "0.0";
}

abbrev pub files : Files Bytes
files = record {
  exists = λ p x. true;
  read = λ p. pure "KEY";
  write = λ p s. pure tt;
  mkdir = λ p. pure tt;
  chmod = λ p mode. pure tt;
  generate = λ key_type bits. pure ("PRIVATE", "ssh-rsa PUBLIC");
}

abbrev pub sockets : Sockets Bytes
sockets = record {
  socket = pure 5;
  settimeout = λ s n. pure tt;
  connect_ex = λ s ip port. pure (pos 0);
  close = λ s. pure tt;
}

abbrev pub saved : Raw
saved = ("id", text "cb676a46") ∷ []

abbrev pub host : Host Bytes
host = record {
  net = line;
  system = system;
  files = files;
  sockets = sockets;
  write_json = λ p r. pure tt;
  read_json = λ p. pure saved;
  now = λ x. pos 7000;
  getenv = λ name x. none;
  rounds = 9;
  times = 2;
}

abbrev pub programs : Programs Bytes
programs = record {
  run = λ command. pure (pos 0);
  popen = λ command cwd output. pure 42;
  poll = λ p. pure (some (pos 0));
  wait = λ p. pure (pos 0);
  returncode = λ p x. some (pos 0);
  stdout = λ p. pure (some "");
  stderr = λ p. pure (some "");
  state_of = λ command name. pure "running";
  format = λ template key value. ok value;
  print_error = λ s. pure tt;
}

abbrev pub instance : Instance
instance = record { id = "cb676a46"; status = "active"; main_ip = "10.0.0.7"; contents = saved }

abbrev pub client : Client Bytes
client = record {
  create_key = λ name key. pure "key-1";
  create_instance = λ request. pure instance;
  get_instance = λ id. pure instance;
  delete_instance = λ id. pure false;
  regions = pure [];
  plans = pure [];
  operating_systems = pure [];
}

abbrev pub vultr_config : CloudConfig
vultr_config = record { base = by_the_hour; favorite_instance_types = "ewr:vc2:270" ∷ [] }

abbrev pub workspace : FilePath
workspace = path_of "/data/vultr"

abbrev pub made : ServerMeta
made =
    server_meta (pos 7000) "vultr" "2024-05-01-1200" (joinpath workspace "2024-05-01-1200")
      "10.0.0.7"

-- "1" and a return.
abbrev pub first_favorite : Bytes
first_favorite = 49 ∷ 13 ∷ []

created_test :
    ((built_in host programs [] "vultr"
        (vultr (λ token. client) vultr_config)
        workspace).create_server
      0 first_favorite).0
    ≡ ok made
unfolding built_in decode
created_test = refl

create_server-IsOwn_example :
    (made.provider_name ≡ "vultr")
    × (made.workspace ≡ some (joinpath workspace made.server_name))
    × (made.manage ≡ true)
create_server-IsOwn_example =
    create_server-IsOwn host programs [] (vultr (λ token. client) vultr_config) "vultr" workspace 0
      first_favorite made created_test

-- A configuration with that provider, read from a file.
abbrev pub table_of_vultr : Raw
table_of_vultr = ("load_module", text "lobbyboy.contrib.provider.vultr::VultrProvider") ∷ []

-- A provider that is switched off.
abbrev pub table_of_old : Raw
table_of_old = ("enable", flag false) ∷ []

abbrev pub raw_config : RawConfig (BuiltIn Bytes)
raw_config = record {
  data_dir = some "/data";
  listen_port = some (pos 12345);
  listen_ip = some "0.0.0.0";
  min_destroy_interval = some "10m";
  servers_file = some "servers.json";
  log_level = none;
  user = none;
  provider = some (("vultr", table table_of_vultr) ∷ ("old", table table_of_old) ∷ []);
}

abbrev pub vultr_class : ProviderClass Bytes (BuiltIn Bytes)
vultr_class = record {
  config = λ t. ok (vultr (λ token. client) vultr_config);
  new = λ name b workspace. ok (built_in host programs [] name b workspace);
}

abbrev pub import_test : String → Result String
import_test module_path = ok module_path

abbrev pub getattr_test : String → String → Option (ProviderClass Bytes (BuiltIn Bytes))
getattr_test m cls_name =
    if (m === "lobbyboy.contrib.provider.vultr") && (cls_name === "VultrProvider")
    then some vultr_class
    else none

abbrev pub user_test : Raw → Result ConfigUser
user_test t = raised type_error

abbrev pub loaded : Config (BuiltIn Bytes) (ProviderClass Bytes (BuiltIn Bytes))
loaded = record {
  file = path_of "/etc/lobbyboy.toml";
  data_dir = directory (path_of "/data");
  listen_port = some (pos 12345);
  listen_ip = some "0.0.0.0";
  min_destroy_interval = some "10m";
  servers_file = some "servers.json";
  log_level = none;
  user = [];
  provider =
      ("vultr", object (vultr (λ token. client) vultr_config)) ∷ ("old", table table_of_old) ∷ [];
  provider_cls = ("vultr", vultr_class) ∷ [];
}

load_test :
    (load import_test getattr_test
      (λ (cls : ProviderClass Bytes (BuiltIn Bytes)). cls.config)
      (λ p. pure raw_config)
      user_test
      (path_of "/etc/lobbyboy.toml")
      first_favorite).0
    ≡ ok loaded
unfolding load path_of
load_test = refl

load-AreMade_example :
    (loaded.data_dir ≡ empty)
    ⊎ ((ps : Dict (Provider Bytes)) × (new_providers loaded loaded.provider_cls ≡ ok ps)
        × AreEnabled (Option.get_or raw_config.provider []) (keys ps))
unfolding lookup
load-AreMade_example =
    load-AreMade import_test getattr_test (λ p. pure raw_config) user_test
      (path_of "/etc/lobbyboy.toml") first_favorite first_favorite raw_config loaded refl
      (refl, (refl, tt)) load_test
      ((λ b workspace. (built_in host programs [] "vultr" b workspace, refl)), tt)

abbrev pub vultr_of : Provider Bytes
vultr_of =
    built_in host programs [] "vultr" (vultr (λ token. client) vultr_config)
      (joinpath (path_of "/data") "vultr")

made_test : new_providers loaded loaded.provider_cls ≡ ok (("vultr", vultr_of) ∷ [])
unfolding new_providers
made_test = refl

found_test : lookup "vultr" (("vultr", vultr_of) ∷ []) ≡ some vultr_of
unfolding lookup
found_test = refl

created_by_test : (vultr_of.create_server 0 first_favorite).0 ≡ ok made
unfolding built_in decode
created_by_test = refl

created_server_is_found_example :
    lookup made.provider_name (("vultr", vultr_of) ∷ []) ≡ some vultr_of
created_server_is_found_example =
    created_server_is_found host programs [] loaded (("vultr", vultr_of) ∷ []) "vultr" vultr_of 0
      first_favorite made (refl, tt) made_test found_test created_by_test

-- The choice of that favourite.
chosen_test :
    choose host 0
      ("Manually choose a new vultr to create.." ∷ "ewr:vc2:270" ∷ [])
      "Please choose new vultr to create: "
      first_favorite
    ≡ (ok 1, [])
unfolding choose decode
chosen_test = refl

abbrev vultr_base : Base
vultr_base = record { name = "vultr"; workspace = workspace; provider_config = by_the_hour }

asked_test :
    (create_server host client vultr_base ("ewr:vc2:270" ∷ []) 0 first_favorite).0 ≡ ok made
unfolding create_server decode
asked_test = refl

favorite_is_created_example : IsRequested host client "ewr" "vc2" "270" made
favorite_is_created_example =
    favorite_is_created host client vultr_base ("ewr:vc2:270" ∷ []) 0 first_favorite [] 0 "ewr"
      "vc2" "270" made chosen_test refl refl refl refl asked_test
