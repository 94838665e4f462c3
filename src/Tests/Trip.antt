-- ===== src/Tests/Trip.antt =====
-- A server of Vultr on a host whose files of server data are a function, created and destroyed.
use lobbyboy.Base.{◌≡◌, refl, true, false, not, String, [], ◌∷◌, Option, none, some, if◌then◌else◌}
use lobbyboy.Base.Int.{pos}
use lobbyboy.Base.Dict.{lookup}
use lobbyboy.Exceptions.{file_not_found}
use lobbyboy.Act.{Result, ok, raised, Act, pure, ◌>>=◌}
use lobbyboy.Text.Utf8.{Bytes, decode}
use lobbyboy.Paths.{FilePath}
use lobbyboy.World.{Net}
use lobbyboy.Config.Json.{text, Raw}
use lobbyboy.Contrib.Host.{Host, Base}
use lobbyboy.Contrib.Host.Kept.{IsKeeper}
use lobbyboy.Contrib.Vultr.{Client, Instance, ReqInstance, create_server, destroy_server}
use lobbyboy.Contrib.Vultr.Trip.{GivesIds, created_is_destroyed}
use lobbyboy.Tests.Fixtures.{by_the_hour}
use lobbyboy.Tests.Talk.{next_byte}
use lobbyboy.Tests.Disk.{same_path, same_path_self}
use lobbyboy.Tests.Clouds.{made, workspace, first_favorite}

-- The bytes that the user still has to send, and the files.
abbrev Place : Type 0
Place = Bytes × (FilePath → Option Raw)

abbrev heard : Result Bytes × Bytes → (FilePath → Option Raw) → Result Bytes × Place
heard (r, bs) d = (r, (bs, d))

abbrev read_from : Option Raw → Act Place Raw
read_from none x = (raised file_not_found, x)
read_from (some r) x = (ok r, x)

abbrev net : Net Place
net = record {
  recv = λ channel n x. heard (next_byte x.0) x.1;
  sendall = λ channel bs. pure tt;
  shutdown = λ channel. pure tt;
  get_transport = λ channel. 7;
  getpeername = λ t. pure ("10.0.0.9", t);
  close = λ t. pure tt;
}

abbrev host : Host Place
host = record {
  net = net;
  system = record {
    exists = λ p x. false;
    mkdir = λ p. pure tt;
    minute = λ x. "2024-05-01-1200";
    sleep = λ n. pure tt;
    time = λ x. 0;
    elapsed = λ a b. "0.0";
  };
  files = record {
    exists = λ p x. true;
    read = λ p. pure "KEY";
    write = λ p s. pure tt;
    mkdir = λ p. pure tt;
    chmod = λ p mode. pure tt;
    generate = λ key_type bits. pure ("PRIVATE", "ssh-rsa PUBLIC");
  };
  sockets = record {
    socket = pure 5;
    settimeout = λ s n. pure tt;
    connect_ex = λ s ip port. pure (pos 0);
    close = λ s. pure tt;
  };
  write_json = λ p r x. (ok tt, (x.0, λ q. if same_path p q then some r else x.1 q));
  read_json = λ p x. read_from (x.1 p) x;
  now = λ x. pos 7000;
  getenv = λ name x. none;
  rounds = 9;
  times = 2;
}

abbrev contents : FilePath → Place → Option Raw
contents p x = x.1 p

keeper : IsKeeper contents host
keeper = record {
  write_json-contents = λ p r x u a e. rw (same_path_self p) refl;
  read_json-contents = λ p r x e. rw (e) refl;
  sendall-Keeps = λ channel b p r x h a e. h;
  socket-Keeps = λ p r x h a e. h;
  settimeout-Keeps = λ s n p r x h a e. h;
  connect_ex-Keeps = λ s ip port p r x h a e. h;
  close-Keeps = λ s p r x h a e. h;
  sleep-Keeps = λ n p r x h a e. h;
}

-- A cloud that gives an instance for every id.
abbrev instance_of : String → Instance
instance_of id = record {
  id = id;
  status = "active";
  main_ip = "10.0.0.7";
  contents = ("id", text id) ∷ [];
}

abbrev client : Client Place
client = record {
  create_key = λ name key. pure "key-1";
  create_instance = λ request. pure (instance_of "cb676a46");
  get_instance = λ id. pure (instance_of id);
  delete_instance = λ id. pure false;
  regions = pure [];
  plans = pure [];
  operating_systems = pure [];
}

gives_ids : GivesIds contents host keeper client
unfolding lookup
gives_ids id x u i e = let same : instance_of id ≡ i = cc e in rw (← same) refl

abbrev self : Base
self = record { name = "vultr"; provider_config = by_the_hour; workspace = workspace }

abbrev start : Place
start = (first_favorite, λ p. none)

created_test : (create_server host client self ("ewr:vc2:270" ∷ []) 0 start).0 ≡ ok made
unfolding create_server decode
created_test = refl

created_is_destroyed_example :
    let y = (create_server host client self ("ewr:vc2:270" ∷ []) 0 start).1 in
    (req : ReqInstance) × (z : Place) × (c : Instance) × ((client.create_instance req z).0 ≡ ok c)
    × (destroy_server host client made none y
        ≡ (client.delete_instance (text c.id) >>= λ failed. pure (not failed)) y)
created_is_destroyed_example =
    created_is_destroyed contents host keeper client gives_ids self ("ewr:vc2:270" ∷ []) 0 start
      made created_test
