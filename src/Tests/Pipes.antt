-- ===== src/Tests/Pipes.antt =====
-- A proxy that has two bytes to say, and a user who has typed one.
use mathlib.Core.List.{append-nil}
use lobbyboy.Base.{
  ◌≡◌, ◌≢◌, refl, sym, length, ℕ, zero, suc, true, [], ◌∷◌, ◌++◌, Option, none, some, is_empty, not,
}
use lobbyboy.Base.Int.{pos}
use lobbyboy.Act.{Result, ok, pure}
use lobbyboy.Exceptions.{Exn}
use lobbyboy.Text.Utf8.{Bytes}
use lobbyboy.World.{Net}
use lobbyboy.KeyFiles.{Files}
use lobbyboy.Server.{new_session}
use lobbyboy.Handler.Menu.{Site}
use lobbyboy.Handler.Shell.{Line, use_loop}
use lobbyboy.Handler.Stream.{View, Stays, IsPipe, gave}
use lobbyboy.Handler.Carried.{Carried}
use lobbyboy.Handler.Pipe.{use_loop-Carries}

-- The rounds that the proxy still lives, and the four streams.
record Place : Type 0 where
  left : ℕ
  said : Bytes
  shown : Bytes
  typed : Bytes
  passed : Bytes

abbrev view : View Place
view = record {
  said = λ x. x.said;
  shown = λ x. x.shown;
  typed = λ x. x.typed;
  passed = λ x. x.passed;
}

abbrev alive : ℕ → Place → Result (Option ℕ) × Place
alive zero x = (ok (some 0), x)
alive (suc n) x = (ok none, record x { left = n })

abbrev net : Net Place
net = record {
  recv = λ channel n x. (ok x.typed, record x { typed = [] });
  sendall = λ channel bs x. (ok tt, record x { shown = x.shown ++ bs });
  shutdown = λ channel. pure tt;
  get_transport = λ channel. 7;
  getpeername = λ t. pure ("10.0.0.9", t);
  close = λ t. pure tt;
}

abbrev site : Site Place
site = record {
  now = λ x. pos 0;
  net = net;
  providers = [];
  popen = λ command fd. pure 42;
  rounds = 9;
  times = 2;
}

abbrev files : Files Place
files = record {
  exists = λ p x. true;
  read = λ p. pure "KEY";
  write = λ p s. pure tt;
  mkdir = λ p. pure tt;
  chmod = λ p mode. pure tt;
  generate = λ key_type bits. pure ("PRIVATE", "PUBLIC");
}

abbrev line : Line Place
line = record {
  version = "0.3";
  set_gss_host = λ t. pure tt;
  load_server_moduli = λ t. pure tt;
  files = files;
  data_dir = record { root = "/"; parts = [] };
  add_server_key = λ t pri. pure tt;
  start_server = λ t. pure true;
  accept = λ t. pure (some 0);
  session = λ x. new_session;
  put_session = λ s x. x;
  wait_shell = pure true;
  poll = λ pid x. alive x.left x;
  fileno = λ channel. pure 5;
  select = λ a b x. (ok (not (is_empty x.said), not (is_empty x.typed)), x);
  read = λ fd n x. (ok x.said, record x { said = [] });
  write = λ fd bs x. (ok (length bs), record x { passed = x.passed ++ bs });
  describe = λ e. "";
}

alive-Stays : (n : ℕ) (x : Place) → Stays view x (alive n x).1
alive-Stays zero x = (refl, refl, refl, refl)
alive-Stays (suc n) x = (refl, refl, refl, refl)

pipe : IsPipe view site line 0 3
pipe = record {
  read-Takes = λ x. gave x.said (record x { said = [] }) (rw append-nil refl, refl, refl, refl);
  sendall-Shows = λ bs x. gave tt (record x { shown = x.shown ++ bs }) (refl, refl, refl, refl);
  recv-Hears = λ x. gave x.typed (record x { typed = [] }) (refl, refl, rw append-nil refl, refl);
  write-Wrote = λ bs x.
      gave (length bs) (record x { passed = x.passed ++ bs })
        (bs, [], sym (append-nil bs), refl, (refl, refl, refl, refl));
  poll-Stays = λ pid x. alive-Stays x.left x;
  select-Stays = λ fd x. (refl, refl, refl, refl);
}

abbrev start : Place
start = record { left = 3; said = 104 ∷ 105 ∷ []; shown = []; typed = 108 ∷ []; passed = [] }

abbrev stop : Place
stop = record { left = 0; said = []; shown = 104 ∷ 105 ∷ []; typed = []; passed = 108 ∷ [] }

use_loop_test : use_loop site line 0 9 42 (some 3) 5 start ≡ (ok tt, stop)
unfolding use_loop
use_loop_test = refl

unraised_test : (e : Exn) → (use_loop site line 0 9 42 (some 3) 5 start).0 ≢ Result.raised e
unraised_test e h =
    let f : (use_loop site line 0 9 42 (some 3) 5 start).0 ≡ ok tt = rw (use_loop_test) refl in
    absurd (cc (f, h))

use_loop-Carries_example : Carried view line 3 start (use_loop site line 0 9 42 (some 3) 5 start).1
use_loop-Carries_example = use_loop-Carries view site line 0 3 pipe 9 42 5 start unraised_test
