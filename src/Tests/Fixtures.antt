-- ===== src/Tests/Fixtures.antt =====
-- Servers, providers and worlds for the tests.
use lobbyboy.Base.{true, [], ◌∷◌, none, some}
use lobbyboy.Base.Int.{pos}
use lobbyboy.Base.Dict.{Dict}
use lobbyboy.Act.{pure}
use lobbyboy.Config.Types.{ConfigProvider, ServerMeta}
use lobbyboy.Config.Servers.{dump}
use lobbyboy.World.{Provider, World}

-- A server lives for an hour at least, is billed by the hour, and goes five minutes before.
abbrev pub by_the_hour : ConfigProvider
by_the_hour = record {
  load_module = none;
  enable = true;
  min_life_to_live = some "1h";
  bill_time_unit = some "1h";
  destroy_safe_time = some "5m";
  server_name_prefix = none;
  api_token = none;
  extra_ssh_keys = [];
}

abbrev pub web : ServerMeta
web = record {
  provider_name = "cloud";
  workspace = none;
  server_name = "web";
  server_host = "10.0.0.1";
  server_user = "root";
  server_port = pos 22;
  created_timestamp = pos 0;
  ssh_extra_args = [];
  manage = true;
}

abbrev pub db : ServerMeta
db = record web { server_name = "db" }

abbrev pub cloud : {X : Type 0} → ConfigProvider → Provider X
cloud config = record {
  name = "cloud";
  config = config;
  create_server = λ channel. pure web;
  destroy_server = λ meta channel. pure true;
  ssh_server_command = λ meta. pure ("ssh" ∷ "10.0.0.1" ∷ []);
}

abbrev pub clouds : {X : Type 0} → Dict (Provider X)
clouds = ("cloud", cloud by_the_hour) ∷ []

abbrev pub two_servers : Dict ServerMeta
two_servers = ("web", web) ∷ ("db", db) ∷ []

-- The file with the two servers, the second one with a session.
abbrev pub world : {X : Type 0} → X → World X
world x = record { db = dump two_servers; sessions = ("db", 7 ∷ []) ∷ []; env = x }
