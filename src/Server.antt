-- ===== src/Server.antt =====
-- lobbyboy/server.py: the `Server` that answers the requests of an SSH client.
pub mod Login
pub mod Channel
use mathlib.Core.Option
use lobbyboy.Base.{
  ℕ, zero, suc, ◌+◌, ◌*◌, Bool, true, false, not, ◌&&◌, ◌||◌, String, ◌<>◌, List, [], ◌∷◌, Option,
  none, some, ltb, ◌===◌, if◌then◌else◌,
}
use lobbyboy.Base.Dict.{Dict, lookup}
use lobbyboy.Exceptions.{
  Exn, no_tty, unsupported_private_key_type, type_error, key_error, value_error,
}
use lobbyboy.Act.{
  Result, ok, raised, running, bind, Act, Void, skip, raise, pure, lift, gets, modify, ◌>>=◌, ◌>>◌,
}
use lobbyboy.Config.Types.{ConfigUser}
use lobbyboy.Config.Users.{auth_key_pairs, KeyPair, key_pair, not_a_pair}

pub data Auth : Type 0 where
  auth_successful auth_failed : Auth

pub data Open : Type 0 where
  open_succeeded open_failed_administratively_prohibited : Open

-- The fields of a `Server` that its methods change. The two descriptors are set together.
pub record Session : Type 0 where
  pub pty_event : Bool
  pub shell_event : Bool
  pub window_width : ℕ
  pub window_height : ℕ
  pub proxy_subprocess_pid : Option ℕ
  pub fds : Option (ℕ × ℕ)

-- `__init__`
abbrev pub new_session : Session
new_session = record {
  pty_event = false;
  shell_event = false;
  window_width = 0;
  window_height = 0;
  proxy_subprocess_pid = none;
  fds = none;
}

abbrev pub master_fd : Session → Option ℕ
master_fd s = Option.map (λ (p : ℕ × ℕ). p.0) s.fds

abbrev pub slave_fd : Session → Option ℕ
slave_fd s = Option.map (λ (p : ℕ × ℕ). p.1) s.fds

unfoldable pub check_channel_request : String → Open
check_channel_request kind =
    if kind === "session" then open_succeeded else open_failed_administratively_prohibited

-- `password == user.password`; no text is equal to an unset password.
is_equal : String → Option String → Bool
is_equal password none = false
is_equal password (some p) = password === p

-- `username in config.user and password == config.user[username].password`
is_password : String → Option ConfigUser → Bool
unfolding is_equal
is_password password none = false
is_password password (some user) = is_equal password user.password

-- `users` is the configuration as it is reloaded.
unfoldable pub check_auth_password : Dict ConfigUser → String → String → Auth
unfolding is_password
check_auth_password users username password =
    if is_password password (lookup username users) then auth_successful else auth_failed

pub data KeyClass : Type 0 where
  rsa_key dss_key ecdsa_key ed25519_key : KeyClass

abbrev pub key_cls : Dict KeyClass
key_cls =
    ("ssh-rsa", rsa_key)
    ∷ ("ssh-dss", dss_key)
    ∷ ("ssh-ecdsa", ecdsa_key)
    ∷ ("ssh-ed25519", ed25519_key)
    ∷ []

abbrev class_or_raise : Option KeyClass → Result KeyClass
class_or_raise none = raised unsupported_private_key_type
class_or_raise (some c) = ok c

unfoldable pub get_key_class : String → Result KeyClass
get_key_class key_type = class_or_raise (lookup key_type key_cls)

-- Public keys of paramiko: their name, the key of a class that some data decodes to, and equality.
pub record Keys (K : Type 0) : Type 0 where
  pub get_name : K → String
  pub lower : String → String
  pub from_data : KeyClass → String → Result K
  pub same_key : K → K → Bool

abbrev user_or_raise : Option ConfigUser → Result ConfigUser
user_or_raise none = raised key_error
user_or_raise (some u) = ok u

module _ {K : Type 0} (keys : Keys K) where
  unfoldable pub try_auth : K → String → Result Bool
  unfolding get_key_class
  try_auth key key_str =
      bind (get_key_class (keys.lower (keys.get_name key)))
        λ cls. bind (keys.from_data cls key_str) λ accept_key. ok (keys.same_key key accept_key)

  -- What a round makes of an attempt, with the rest of the loop.
  tried : Result Bool → Result Auth → Result Auth
  tried (ok true) rest = ok auth_successful
  tried (ok false) rest = rest
  tried (raised e) rest = raised e
  tried running rest = running

  -- The loop over the user's pairs.
  unfoldable pub try_pairs : K → List KeyPair → Result Auth
  unfolding try_auth tried
  try_pairs key [] = ok auth_failed
  try_pairs key (pair ∷ pairs) =
      let rest = try_pairs key pairs in
      elim pair [
        | not_a_pair ↦ raised value_error
        | key_pair key_type key_data ↦
            if keys.get_name key === key_type then tried (try_auth key key_data) rest else rest
      ]

  unfoldable pub check_auth_publickey : Dict ConfigUser → String → K → Result Auth
  unfolding try_pairs auth_key_pairs
  check_auth_publickey users username key =
      bind (user_or_raise (lookup username users)) λ user. try_pairs key (auth_key_pairs user)

abbrev by_gss : Auth → Auth
by_gss auth_successful = auth_successful
by_gss auth_failed = auth_failed

unfoldable pub check_auth_gssapi_with_mic : String → Auth → Auth
check_auth_gssapi_with_mic username gss_authenticated = by_gss gss_authenticated

unfoldable pub check_auth_gssapi_keyex : String → Auth → Auth
check_auth_gssapi_keyex username gss_authenticated = by_gss gss_authenticated

-- The terminals of the operating system, and its signals.
pub record Terminals (X : Type 0) : Type 0 where
  pub openpty : Act X (ℕ × ℕ)
  pub ioctl : ℕ → ℕ → ℕ → ℕ → ℕ → Act X Void
  pub kill_winch : ℕ → Act X Void

-- The object of a connection, and the outside.
pub record Serving (X : Type 0) : Type 0 where
  pub session : Session
  pub host : X

module _ {X A : Type 0} where
  abbrev on_host : Act X A → Act (Serving X) A
  on_host m w = let (r, x) = m w.host in (r, record w { host = x })

module _ {X : Type 0} where
  abbrev on_session : (Session → Session) → Act (Serving X) Void
  on_session f w = (ok tt, record w { session = f w.session })

  -- At the end of the wait for `pty_event`.
  unfoldable pub check_channel_shell_request : Act (Serving X) Bool
  check_channel_shell_request = do
    session ← gets (λ w. w.session)
    if session.pty_event then skip else raise no_tty
    on_session (λ s. record s { shell_event = true })
    pure true

module _ {X : Type 0} (terminals : Terminals X) where
  -- `struct.pack("HHHH", …)`: a number of 16 bits, or `struct.error`.
  is_short : ℕ → Bool
  is_short n = ltb n 65536

  set_window_size : Option ℕ → ℕ → ℕ → ℕ → ℕ → Act X Void
  unfolding is_short
  set_window_size fd row col xpix ypix =
      if is_short row && (is_short col && (is_short xpix && is_short ypix))
      then elim fd [ none ↦ raise type_error | some n ↦ terminals.ioctl n row col xpix ypix ]
      else raise value_error

  unfoldable pub check_channel_pty_request : ℕ → ℕ → ℕ → ℕ → Act (Serving X) Bool
  unfolding set_window_size
  check_channel_pty_request width height pixelwidth pixelheight = do
    pair ← on_host terminals.openpty
    on_session (λ s. record s { fds = some pair; window_width = width; window_height = height })
    on_host (set_window_size (some pair.0) height width pixelwidth pixelheight)
    on_session (λ s. record s { pty_event = true })
    pure true

  signal_resize : Option ℕ → Act X Void
  signal_resize none = skip
  signal_resize (some pid) = terminals.kill_winch pid

  unfoldable pub check_channel_window_change_request : ℕ → ℕ → ℕ → ℕ → Act (Serving X) Bool
  unfolding set_window_size signal_resize
  check_channel_window_change_request width height pixelwidth pixelheight = do
    on_session (λ s. record s { window_width = width; window_height = height })
    session ← gets (λ w. w.session)
    on_host (set_window_size (master_fd session) height width pixelwidth pixelheight)
    on_host (signal_resize session.proxy_subprocess_pid)
    pure true
