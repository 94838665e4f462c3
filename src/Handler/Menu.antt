-- ===== src/Handler/Menu.antt =====
-- lobbyboy/socket_handle.py: `choose_providers`, `choose_server`, `_ask_user_to_create_server` and
-- `_create_proxy_process`, on a handler's channel.

use lobbyboy.Base.{
  ℕ, zero, suc, String, ◌<>◌, List, [], ◌∷◌, ◌++◌, Option, none, some, length, get_elem?, is_empty,
  if◌then◌else◌,
}
use lobbyboy.Base.Int.{ℤ, pos}
use lobbyboy.Base.Dict.{Dict, lookup, insert, keys, values}
use lobbyboy.Exceptions.{no_provider, index_error}
use lobbyboy.Act.{ok, Act, Void, skip, raise, pure, gets, ◌>>=◌, ◌>>◌}
use lobbyboy.Text.Print.{decimal}
use lobbyboy.Config.Types.{ServerMeta}
use lobbyboy.Config.Servers.{load_local_servers, update_local_servers}
use lobbyboy.World.{Channel, Transport, Net, Provider, World, outside, on_db, sessions_of}
use lobbyboy.Terminal.{str, send_to_channel, choose_option}

-- What the handlers share that is not in `World`: the clock, the network, the providers, the process
-- that `Popen` starts on a descriptor with a shell command, and how often a user is asked and heard.
pub record Site (X : Type 0) : Type 0 where
  pub now : X → ℤ
  pub net : Net X
  pub providers : Dict (Provider X)
  pub popen : String → Option ℕ → Act X ℕ
  pub rounds : ℕ
  pub times : ℕ

-- `list(xs)[i]`
unfoldable pub nth_or_raise : {X A : Type 0} → Option A → Act X A
nth_or_raise none = raise index_error
nth_or_raise (some a) = pure a

unfoldable pub provider_or_raise : {X : Type 0} → Option (Provider X) → Act (World X) (Provider X)
provider_or_raise none = raise no_provider
provider_or_raise (some p) = pure p

-- The prompt and the default: one provider by itself is the default.
unfoldable pub provider_prompt : List String → String × Option ℤ
provider_prompt (name ∷ []) =
    ("Please choose a provider to create a new server [default: " <> name <> "]: ", some (pos 0))
provider_prompt _ = ("Please choose a provider to create a new server: ", none)

-- The line of a server in the list of options.
server_option : ServerMeta → ℕ → String
server_option meta sessions =
    "Enter "
    <> meta.provider_name
    <> " "
    <> meta.server_name
    <> " "
    <> meta.server_host
    <> " ("
    <> decimal sessions
    <> " active sessions)"

-- `" ".join(…)`
unfoldable pub join_units : List String → String
join_units [] = ""
join_units (unit ∷ []) = unit
join_units (unit ∷ units) = unit <> " " <> join_units units

unfoldable pub redirect_text : ServerMeta → String
redirect_text meta =
    "Redirect you to " <> meta.provider_name <> " server: " <> meta.server_name <> " ("
    <> meta.server_host <> ")..."

-- `active_session.setdefault(name, []).append(t)`
unfoldable pub add_session : {X : Type 0} → String → Transport → World X → World X
unfolding insert
add_session name t w = record w { sessions = insert name (sessions_of name w ++ t ∷ []) w.sessions }

module _ {X : Type 0} (site : Site X) (channel : Channel) where
  -- `send_to_channel(self.channel, …)`
  unfoldable pub tell : String → Act (World X) Void
  unfolding send_to_channel
  tell s = outside (send_to_channel site.net channel (str s))

  unfoldable pub choose_from : List String → String → Option String → Option ℤ → Act (World X) ℕ
  unfolding choose_option
  choose_from options option_prompt ask_prompt default = outside (
      choose_option site.net channel site.rounds site.times options (some option_prompt) ask_prompt
        default)

  -- The part behind the check that there is a provider.
  unfoldable pub choose_among : List String → Act (World X) (Provider X)
  unfolding choose_from provider_prompt
  choose_among names = do
    user_input ←
        choose_from names "Available VPS providers:" (some (provider_prompt names).0)
          (provider_prompt names).1
    nth_or_raise (get_elem? (values site.providers) user_input)

  unfoldable pub choose_providers : Act (World X) (Provider X)
  unfolding tell choose_among
  choose_providers =
      if is_empty site.providers
      then (tell "There is no available providers." >> raise no_provider)
      else choose_among (keys site.providers)

  -- `with available_server_db_lock: update_local_servers(…, new=[meta])`
  unfoldable pub register : ServerMeta → Act (World X) Void
  unfolding update_local_servers
  register meta = do
    time ← gets (λ w. site.now w.env)
    on_db (update_local_servers time (meta ∷ []) [])
    skip

  unfoldable pub ask_user_to_create_server : Act (World X) ServerMeta
  unfolding choose_providers register
  ask_user_to_create_server = do
    provider ← choose_providers
    meta ← outside (provider.create_server channel)
    register meta
    pure meta

  -- The options behind the first.
  unfoldable pub server_options : World X → List ServerMeta → List String
  unfolding server_option
  server_options w [] = []
  server_options w (meta ∷ metas) =
      server_option meta (length (sessions_of meta.server_name w)) ∷ server_options w metas

  -- `self._ask_user_to_create_server()` at 0, or else the server before that number.
  unfoldable pub enter : List ServerMeta → ℕ → Act (World X) ServerMeta
  unfolding ask_user_to_create_server
  enter metas zero = ask_user_to_create_server
  enter metas (suc user_input) = nth_or_raise (get_elem? metas user_input)

  unfoldable pub offer : List ServerMeta → Act (World X) ServerMeta
  unfolding tell ask_user_to_create_server server_options choose_from enter
  offer [] = do
    tell "There is no available servers, provision a new server..."
    ask_user_to_create_server
  offer (meta ∷ metas) = do
    options ← gets (λ w. server_options w (meta ∷ metas))
    user_input ←
        choose_from ("Create a new server..." ∷ options)
          ("There are " <> decimal (length (meta ∷ metas)) <> " available servers:") none none
    enter (meta ∷ metas) user_input

  unfoldable pub choose_server : Act (World X) ServerMeta
  unfolding offer load_local_servers
  choose_server = do
    available_servers ← λ w. (load_local_servers (site.now w.env) w.db, w)
    offer (values available_servers)

  -- The steps behind the choice of the server.
  unfoldable pub redirect : Option ℕ → ServerMeta → Provider X → Act (World X) (ℕ × ServerMeta)
  unfolding join_units tell add_session redirect_text
  redirect slave_fd meta provider = do
    ssh_command_units ← outside (provider.ssh_server_command meta)
    tell (redirect_text meta)
    proxy_subprocess ← outside (site.popen (join_units ssh_command_units) slave_fd)
    λ w. (
      ok (proxy_subprocess, meta),
      add_session meta.server_name (site.net.get_transport channel) w,
    )

  unfoldable pub create_proxy_process : Option ℕ → Act (World X) (ℕ × ServerMeta)
  unfolding choose_server redirect
  create_proxy_process slave_fd = do
    meta ← choose_server
    provider ← provider_or_raise (lookup meta.provider_name site.providers)
    redirect slave_fd meta provider
