-- ===== src/Tests/Storage.antt =====
-- The file of servers, durations, logins, channels and names at concrete inputs.
use mathlib.Core.List.{Mem}
use lobbyboy.Base.{
  ◌≡◌, refl, ℕ, Bool, true, false, String, [], ◌∷◌, none, some, ◌↔◌, ◌⊎◌, ◌===◌, if◌then◌else◌,
  codes, given,
}
use lobbyboy.Base.Int.{pos}
use lobbyboy.Base.Dict.{Dict, lookup}
use lobbyboy.Act.{ok, pure}
use lobbyboy.Duration.{to_seconds}
use lobbyboy.Duration.Laws.{IsDuration, to_seconds_exact}
use lobbyboy.Paths.{FilePath}
use lobbyboy.Config.Types.{ServerMeta, ConfigUser}
use lobbyboy.Config.Users.{auth_key_pairs, key_pair}
use lobbyboy.Config.Servers.{dump, load_local_servers, update_local_servers}
use lobbyboy.Config.Servers.Stored.{IsStored, load_local_servers-dump, load_local_servers-IsStored}
use lobbyboy.Config.Servers.Update.{update_local_servers-lookup, is_named, last_named, first_of_two}
use lobbyboy.Server.{
  Keys, auth_successful, check_auth_password, check_auth_publickey, Terminals, Serving, new_session,
  check_channel_pty_request, check_channel_shell_request, get_key_class,
}
use lobbyboy.Server.Login.{Accepts, check_auth_password_exact, check_auth_publickey_sound}
use lobbyboy.Server.Channel.{IsSound, begun, stepped, pty_request, shell_request, Reachable-IsSound}
use lobbyboy.BaseProvider.{System, suffixes, stem, generate_default_server_name}
use lobbyboy.BaseProvider.Names.{Found, generate_default_server_name-Found}
use lobbyboy.Tests.Fixtures.{db, two_servers}

two_servers-IsStored : IsStored two_servers
unfolding lookup
two_servers-IsStored = record {
  entries = (refl, tt, (refl, tt, tt));
  distinct = (refl, (refl, tt));
}

load_local_servers-dump_example : load_local_servers (pos 9) (dump two_servers) ≡ ok two_servers
load_local_servers-dump_example = load_local_servers-dump (pos 9) two_servers two_servers-IsStored

load_local_servers-IsStored_example : IsStored two_servers
load_local_servers-IsStored_example =
    load_local_servers-IsStored (pos 9) (dump two_servers) two_servers
      (load_local_servers-dump (pos 9) two_servers two_servers-IsStored)

update_local_servers-lookup_example :
    (d' : Dict ServerMeta) × ((update_local_servers (pos 9) [] (db ∷ []) (dump two_servers)).0
      ≡ ok d')
    × (load_local_servers (pos 9) (update_local_servers (pos 9) [] (db ∷ []) (dump two_servers)).1
        ≡ ok d')
    × ((j : String)
        → lookup j d' ≡ (
            if is_named j (db ∷ [])
            then none
            else first_of_two (last_named j []) (lookup j two_servers)))
update_local_servers-lookup_example =
    update_local_servers-lookup (pos 9) (pos 9) [] (db ∷ []) (dump two_servers) two_servers
      (load_local_servers-dump (pos 9) two_servers two_servers-IsStored) tt

abbrev ninety_minutes : String
ninety_minutes = "90m"

abbrev seconds : ℕ
seconds = 5400

abbrev zero_text : String
zero_text = "0"

to_seconds_exact_example :
    (to_seconds (some ninety_minutes) ≡ ok seconds)
    ↔ (((ninety_minutes ≡ zero_text) × (seconds ≡ 0)) ⊎ IsDuration (codes ninety_minutes) seconds)
to_seconds_exact_example = to_seconds_exact ninety_minutes seconds

abbrev users : Dict ConfigUser
users = ("ann", record { authorized_keys = some "ssh-rsa AAA"; password = some "pw" }) ∷ []

-- Keys whose data is themselves.
abbrev plain_keys : Keys String
plain_keys = record {
  get_name = λ k. "ssh-rsa";
  lower = λ s. s;
  from_data = λ cls s. ok s;
  same_key = λ a b. a === b;
}

check_auth_password_exact_example :
    (check_auth_password users "ann" "pw" ≡ auth_successful)
    ↔ ((user : ConfigUser) × (lookup "ann" users ≡ some user) × (user.password ≡ some "pw"))
check_auth_password_exact_example = check_auth_password_exact users "ann" "pw"

check_auth_publickey_sound_example :
    (user : ConfigUser) × (lookup "ann" users ≡ some user)
    × (data_text : String) × Mem (key_pair "ssh-rsa" data_text) (auth_key_pairs user)
    × Accepts plain_keys "AAA" data_text
unfolding check_auth_publickey auth_key_pairs lookup get_key_class
check_auth_publickey_sound_example = check_auth_publickey_sound plain_keys users "ann" "AAA" refl

abbrev terminals : Terminals ℕ
terminals = record {
  openpty = pure (3, 4);
  ioctl = λ fd row col xpix ypix. pure tt;
  kill_winch = λ pid. pure tt;
}

abbrev connected : Serving ℕ
connected = record { session = new_session; host = 0 }

abbrev with_terminal : Serving ℕ
with_terminal = (check_channel_pty_request terminals 80 24 0 0 connected).1

with_shell_test : (check_channel_shell_request with_terminal).1.session.shell_event ≡ true
unfolding check_channel_pty_request check_channel_shell_request
with_shell_test = refl

Reachable-IsSound_example : IsSound (check_channel_shell_request with_terminal).1.session
Reachable-IsSound_example =
    Reachable-IsSound terminals (check_channel_shell_request with_terminal).1
      (stepped (stepped (begun 0) (pty_request connected 80 24 0 0)) (shell_request with_terminal))

-- A disk on which nothing is, or where what was asked for last is.
abbrev disk : System Bool
disk = record {
  exists = λ path made. made;
  mkdir = λ path made. (ok tt, true);
  minute = λ made. "2024-01-01-0000";
  sleep = λ n. pure tt;
  time = λ made. 0;
  elapsed = λ a b. "0.0";
}

abbrev no_path : FilePath
no_path = record { root = "/"; parts = [] }

generate_default_server_name-Found_example :
    Found disk no_path
      (stem (given (some "lb")) "2024-01-01-0000")
      false
      suffixes
      (generate_default_server_name disk no_path (some "lb") false)
generate_default_server_name-Found_example =
    generate_default_server_name-Found disk no_path (λ path x e. (true, refl, refl)) (some "lb")
      false
