-- ===== src/Tests/Visits.antt =====
-- A visit of a server, for a user who takes the first server of the file.
use lobbyboy.Base.{false, ◌≡◌, refl, Option, ◌++◌, ℕ, true, [], ◌∷◌, none, some}
use lobbyboy.Base.Int.{pos}
use lobbyboy.Base.Dict.{Dict, lookup}
use lobbyboy.Exceptions.{os_error}
use lobbyboy.Act.{ok, pure, raise}
use lobbyboy.Text.Utf8.{Bytes, decode}
use lobbyboy.KeyFiles.{Files}
use lobbyboy.World.{World, sessions_of}
use lobbyboy.Server.{new_session}
use lobbyboy.Handler.Menu.{
  Site, create_proxy_process, tell, nth_or_raise, provider_or_raise, ask_user_to_create_server,
}
use lobbyboy.Handler.Created.{created_server_is_listed}
use lobbyboy.Config.Types.{ServerMeta}
use lobbyboy.Config.Servers.{load_local_servers, dump}
use lobbyboy.Handler.Shell.{Line, prepare_server, prepare_shell_env, user_using}
use lobbyboy.Handler.Close.{Peer, cleanup}
use lobbyboy.Handler.Run.{run}
use lobbyboy.Handler.Registry.{Registered, create_proxy_process-Registered}
use lobbyboy.Handler.Leave.{Removed, cleanup-Removed, HasPeers}
use lobbyboy.Handler.Visit.{visit_restores}
use lobbyboy.Handler.Failed.{Opened}
use lobbyboy.Handler.Stranded.{dropped_server_stays}
use lobbyboy.Killer.{check_all_live_servers}
use lobbyboy.Handler.Leak.{run_keeps_dropped_session}
use lobbyboy.Tests.Fixtures.{web, clouds, two_servers, world}
use lobbyboy.Tests.Timing.{two_servers-IsStored}
use lobbyboy.Tests.Talk.{line}

abbrev site : Site Bytes
site = record {
  now = λ x. pos 7000;
  net = line;
  providers = clouds;
  popen = λ command fd. pure 42;
  rounds = 9;
  times = 2;
}

-- Every transport has its own port.
abbrev peer_of : ℕ → Bytes → Option Peer
peer_of t x = some ("10.0.0.9", t)

line-HasPeers : HasPeers line peer_of
line-HasPeers = record {
  connected = λ t x p e. (x, cc e, λ u. refl);
  closed = λ t x e. absurd (cc e);
}

-- "1" and a return.
abbrev first_server : Bytes
first_server = 49 ∷ 13 ∷ []

abbrev start : World Bytes
start = world first_server

abbrev visited : World Bytes
visited = (create_proxy_process site 0 (some 4) start).1

create_proxy_process_test : (create_proxy_process site 0 (some 4) start).0 ≡ ok (42, web)
unfolding create_proxy_process nth_or_raise provider_or_raise decode lookup
create_proxy_process_test = refl

create_proxy_process-Registered_example :
    Registered 7 (create_proxy_process site 0 (some 4) start).0 start visited
create_proxy_process-Registered_example = create_proxy_process-Registered site 0 (some 4) start

cleanup-Removed_example :
    Removed peer_of 7 "web" visited
      (cleanup site (some 0) (some 7) (some web) true visited).0
      (cleanup site (some 0) (some 7) (some web) true visited).1
cleanup-Removed_example = cleanup-Removed site peer_of line-HasPeers (some 0) 7 web true visited

visit_restores_example :
    sessions_of "db" (cleanup site (some 0) (some 7) (some web) true visited).1
    ≡ sessions_of "db" start
unfolding create_proxy_process nth_or_raise provider_or_raise decode sessions_of lookup
visit_restores_example =
    visit_restores site peer_of line-HasPeers 0 (some 4) 42 web true start visited visited
      ("10.0.0.9", 7) refl refl refl tt "db"

-- A connection whose user has a terminal, and whose `select` raises.
abbrev no_files : Files Bytes
no_files = record {
  exists = λ p x. false;
  read = λ p. pure "";
  write = λ p s. pure tt;
  mkdir = λ p. pure tt;
  chmod = λ p mode. pure tt;
  generate = λ key_type bits. pure ("PRIVATE", "ssh-rsa PUBLIC");
}

abbrev dropped : Line Bytes
dropped = record {
  version = "0.3";
  set_gss_host = λ t. pure tt;
  load_server_moduli = λ t. pure tt;
  files = no_files;
  data_dir = record { root = "/"; parts = [] };
  add_server_key = λ t pri. pure tt;
  start_server = λ t. pure true;
  accept = λ t. pure (some 0);
  session = λ x. record new_session { fds = some (3, 4) };
  put_session = λ s x. x;
  wait_shell = pure true;
  poll = λ pid. pure none;
  fileno = λ channel. pure 5;
  select = λ a b. raise os_error;
  read = λ fd n. pure [];
  write = λ fd bs. pure 0;
  describe = λ e. "";
}

run_keeps_dropped_session_example :
    sessions_of "web" (run site dropped 7 (record { world = start; channel = none })).1.world
    ≡ sessions_of "web" start ++ line.get_transport 0 ∷ []
unfolding create_proxy_process nth_or_raise provider_or_raise decode lookup prepare_server
    prepare_shell_env user_using tell
run_keeps_dropped_session_example =
    run_keeps_dropped_session site dropped 7 0 42 web os_error first_server
      (record { world = start; channel = none }) start start visited visited refl refl refl refl
      refl

-- The same file, an age after that run.
abbrev later : World Bytes
later = record (world []) {
  sessions = (run site dropped 7 (record { world = start; channel = none })).1.world.sessions;
}

dropped_server_stays_example :
    (left : Dict ServerMeta) × ((check_all_live_servers site.now site.providers later).1.db
      ≡ dump left)
    × (lookup "web" left ≡ some web)
unfolding create_proxy_process nth_or_raise provider_or_raise decode lookup prepare_server
    prepare_shell_env user_using tell
dropped_server_stays_example =
    dropped_server_stays site dropped 7 0 42 web os_error first_server
      (record { world = start; channel = none }) start start visited visited later two_servers refl
      refl refl refl refl refl refl two_servers-IsStored refl

-- A return takes the default, the one provider.
created_test : (ask_user_to_create_server site 0 (world (13 ∷ []))).0 ≡ ok web
unfolding ask_user_to_create_server nth_or_raise decode
created_test = refl

created_server_is_listed_example :
    (d : Dict ServerMeta) × (load_local_servers
        (pos 9000)
        (ask_user_to_create_server site 0 (world (13 ∷ []))).1.db
      ≡ ok d)
    × (lookup "web" d ≡ some web)
created_server_is_listed_example =
    created_server_is_listed site 0 (world (13 ∷ [])) web (pos 9000) created_test tt
