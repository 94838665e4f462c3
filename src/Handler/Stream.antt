-- ===== src/Handler/Stream.antt =====
-- The two streams of `user_using` (lobbyboy/socket_handle.py), and what its calls do to them.
use mathlib.Core.List.{append_assoc}
use lobbyboy.Base.{◌≡◌, ◌≢◌, refl, ℕ, List, [], ◌∷◌, ◌++◌, length}
use lobbyboy.Exceptions.{Exn}
use lobbyboy.Act.{Result, ok, raised}
use lobbyboy.Text.Utf8.{Bytes}
use lobbyboy.World.{Channel}
use lobbyboy.Handler.Menu.{Site}
use lobbyboy.Handler.Shell.{Line}

-- What is seen of a state: what the proxy has still to say, what the user has been shown, what the user
-- has typed that is not read yet, and what the proxy has been passed.
pub record View (X : Type 0) : Type 0 where
  pub said : X → Bytes
  pub shown : X → Bytes
  pub typed : X → Bytes
  pub passed : X → Bytes

-- The messages that have been read for the proxy, each as what has been written of it and what has not.
abbrev pub Messages : Type 0
Messages = List (Bytes × Bytes)

abbrev pub heard : Messages → Bytes
heard [] = []
heard ((bs, lost) ∷ ms) = bs ++ (lost ++ heard ms)

abbrev pub written : Messages → Bytes
written [] = []
written ((bs, lost) ∷ ms) = bs ++ written ms

pub heard-append : (ms ns : Messages) → heard (ms ++ ns) ≡ heard ms ++ heard ns
heard-append [] ns = refl
heard-append ((bs, lost) ∷ ms) ns = rw (heard-append ms ns, append_assoc, append_assoc) refl

pub written-append : (ms ns : Messages) → written (ms ++ ns) ≡ written ms ++ written ns
written-append [] ns = refl
written-append ((bs, lost) ∷ ms) ns = rw (written-append ms ns, append_assoc) refl

module _ {X : Type 0} (view : View X) where
  abbrev pub Stays : X → X → Type 0
  Stays x y =
      (view.said y ≡ view.said x)
      × (view.shown y ≡ view.shown x)
      × (view.typed y ≡ view.typed x)
      × (view.passed y ≡ view.passed x)

  -- What has come off the one end of a stream has gone to the other: all that the proxy said, in its
  -- order, and of each message that the user typed, in their order, the front that was written.
  abbrev pub Output : X → X → Type 0
  Output x y =
      (bs : Bytes) × (view.said x ≡ bs ++ view.said y) × (view.shown y ≡ view.shown x ++ bs)

  abbrev pub Unraised : {A : Type 0} → Result A → Type 0
  Unraised r = (e : Exn) → r ≢ raised e

  -- Each stream by itself, from `x` on to `y`: bytes are taken from what is to come, or added to what
  -- has been carried over.
  abbrev pub Takes : Bytes → X → X → Type 0
  Takes bs x y =
      (view.said x ≡ bs ++ view.said y)
      × (view.shown y ≡ view.shown x)
      × (view.typed y ≡ view.typed x)
      × (view.passed y ≡ view.passed x)

  abbrev pub Shows : Bytes → X → X → Type 0
  Shows bs x y =
      (view.said y ≡ view.said x)
      × (view.shown y ≡ view.shown x ++ bs)
      × (view.typed y ≡ view.typed x)
      × (view.passed y ≡ view.passed x)

  abbrev pub Hears : Bytes → X → X → Type 0
  Hears bs x y =
      (view.said y ≡ view.said x)
      × (view.shown y ≡ view.shown x)
      × (view.typed x ≡ bs ++ view.typed y)
      × (view.passed y ≡ view.passed x)

  abbrev pub Passes : Bytes → X → X → Type 0
  Passes bs x y =
      (view.said y ≡ view.said x)
      × (view.shown y ≡ view.shown x)
      × (view.typed y ≡ view.typed x)
      × (view.passed y ≡ view.passed x ++ bs)

  -- A front of the bytes has been passed.
  abbrev pub Wrote : Bytes → ℕ → X → X → Type 0
  Wrote content n x y = (bs lost : Bytes) × (content ≡ bs ++ lost) × (length bs ≡ n) × Passes bs x y

  -- How a call ends: with an exception, or with a value and the change that the value says.
  pub data Calls {A : Type 0} (R : A → X → X → Type 0) (x : X) : Result A × X → Type 0 where
    gave : (a : A) (y : X) → R a x y → Calls R x (ok a, y)
    failed : (e : Exn) (y : X) → Calls R x (raised e, y)

  -- What is asked of the calls: a terminal that takes a front of what is written and says how long it
  -- is, a channel that takes every message in full or raises, and waits that carry nothing.
  pub record IsPipe (site : Site X) (line : Line X) (channel : Channel) (master : ℕ) : Type 0 where
    pub read-Takes : (x : X) → Calls Takes x (line.read master 10240 x)
    pub sendall-Shows :
        (bs : Bytes) (x : X) → Calls (λ _. Shows bs) x (site.net.sendall channel bs x)
    pub recv-Hears : (x : X) → Calls Hears x (site.net.recv channel 10240 x)
    pub write-Wrote : (bs : Bytes) (x : X) → Calls (Wrote bs) x (line.write master bs x)
    pub poll-Stays : (pid : ℕ) (x : X) → Stays x (line.poll pid x).1
    pub select-Stays : (fd : ℕ) (x : X) → Stays x (line.select master fd x).1
