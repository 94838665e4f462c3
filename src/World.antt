-- ===== src/World.antt =====
-- What the program shares between its threads, and what it meets outside: channels and transports of
-- paramiko, the clock, and the cloud providers. The outside is a type `X` of states; a call of a
-- third-party library is a parameter that acts on it.
use lobbyboy.Base.{ℕ, Bool, String, List, [], Option, none, some}
use lobbyboy.Base.Dict.{Dict, lookup}
use lobbyboy.Act.{Act, Void}
use lobbyboy.Text.Utf8.{Bytes}
use lobbyboy.Config.Types.{ConfigProvider, ServerMeta}
use lobbyboy.Config.Servers.{Content}

-- Handles of paramiko's objects.
abbrev pub Channel : Type 0
Channel = ℕ

abbrev pub Transport : Type 0
Transport = ℕ

-- `paramiko.Channel` and `paramiko.Transport`. A peer name is an address and a port.
pub record Net (X : Type 0) : Type 0 where
  pub recv : Channel → ℕ → Act X Bytes
  pub sendall : Channel → Bytes → Act X Void
  pub shutdown : Channel → Act X Void
  pub get_transport : Channel → Transport
  pub getpeername : Transport → Act X (String × ℕ)
  pub close : Transport → Act X Void

-- A subclass of `BaseProvider`. Its methods act on the outside alone.
pub record Provider (X : Type 0) : Type 0 where
  pub name : String
  pub config : ConfigProvider
  pub create_server : Channel → Act X ServerMeta
  pub destroy_server : ServerMeta → Option Channel → Act X Bool
  pub ssh_server_command : ServerMeta → Act X (List String)

-- The file of servers, `active_session`, and the outside.
pub record World (X : Type 0) : Type 0 where
  pub db : Content
  pub sessions : Dict (List Transport)
  pub env : X

module _ {X A : Type 0} where
  abbrev pub outside : Act X A → Act (World X) A
  outside m w = let (r, x) = m w.env in (r, record w { env = x })

  abbrev pub on_db : Act Content A → Act (World X) A
  on_db m w = let (r, c) = m w.db in (r, record w { db = c })

-- `active_session.get(name, [])`
sessions_or_empty : Option (List Transport) → List Transport
sessions_or_empty none = []
sessions_or_empty (some ts) = ts

unfoldable pub sessions_of : {X : Type 0} → String → World X → List Transport
unfolding sessions_or_empty
sessions_of name w = sessions_or_empty (lookup name w.sessions)
