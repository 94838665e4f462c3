-- ===== src/Handler/Close.antt =====
-- lobbyboy/socket_handle.py: `remove_server_session`, `destroy_server_if_needed` and `cleanup`.

use lobbyboy.Base.{
  ℕ, Bool, true, false, not, ◌&&◌, String, ◌<>◌, List, [], ◌∷◌, Option, none, some, ◌===◌, ◌==◌,
  if◌then◌else◌,
}
use lobbyboy.Base.Dict.{lookup, insert}
use lobbyboy.Exceptions.{key_error, attribute_error}
use lobbyboy.Act.{Act, Void, skip, raise, pure, gets, modify, ◌>>=◌, ◌>>◌}
use lobbyboy.Config.Types.{ServerMeta}
use lobbyboy.World.{Channel, Transport, Provider, World, outside, sessions_of}
use lobbyboy.Killer.{need_destroy, destroy}
use lobbyboy.Handler.Menu.{Site, tell}

abbrev pub Peer : Type 0
Peer = String × ℕ

unfoldable pub same_peer : Peer → Peer → Bool
same_peer a b = (a.0 === b.0) && (a.1 == b.1)

-- `self.providers[name]`
abbrev pub provider_at : {X : Type 0} → Option (Provider X) → Act (World X) (Provider X)
provider_at none = raise key_error
provider_at (some p) = pure p

unfoldable pub keep_if : Bool → Transport → List Transport → List Transport
keep_if true t ts = t ∷ ts
keep_if false t ts = ts

unfoldable pub verdict_text : String → String
verdict_text reason = "LobbyBoy: This server " <> reason <> "."

unfoldable pub doomed_text : ServerMeta → String
doomed_text server =
    "LobbyBoy: I will destroy " <> server.server_name <> "(" <> server.server_host <> ") now!"

unfoldable pub destroyed_text : ServerMeta → String
destroyed_text server =
    "LobbyBoy: Server " <> server.server_name <> "(" <> server.server_host
    <> ") has been destroyed."

module _ {X : Type 0} (site : Site X) where
  -- `list(filter(lambda x: x.getpeername() != peer_name, sessions))`
  unfoldable pub other_sessions : Peer → List Transport → Act X (List Transport)
  unfolding same_peer keep_if
  other_sessions peer_name [] = pure []
  other_sessions peer_name (t ∷ ts) = do
    peer ← site.net.getpeername t
    others ← other_sessions peer_name ts
    pure (keep_if (not (same_peer peer peer_name)) t others)

  -- `if sessions:`
  unfoldable pub replace_sessions : Peer → String → List Transport → Act (World X) Void
  unfolding other_sessions insert
  replace_sessions peer_name server_name [] = skip
  replace_sessions peer_name server_name (t ∷ ts) = do
    others ← outside (other_sessions peer_name (t ∷ ts))
    modify (λ w. record w { sessions = insert server_name others w.sessions })

  unfoldable pub remove_server_session : Transport → String → Act (World X) Void
  unfolding replace_sessions
  remove_server_session transport server_name = do
    peer_name ← outside (site.net.getpeername transport)
    sessions ← gets (λ w. sessions_of server_name w)
    replace_sessions peer_name server_name sessions

  -- `send_to_channel(self.channel, …)` where there may be no channel.
  unfoldable pub tell_if : Option Channel → String → Act (World X) Void
  unfolding tell
  tell_if none s = raise attribute_error
  tell_if (some channel) s = tell site channel s

  -- The part of `destroy_server_if_needed` behind the check.
  unfoldable pub destroy_now : Option Channel → Provider X → ServerMeta → Bool → Act (World X) Void
  unfolding tell_if destroy doomed_text destroyed_text
  destroy_now channel p server false = skip
  destroy_now channel p server true = do
    tell_if channel (doomed_text server)
    destroy site.now p server channel
    tell_if channel (destroyed_text server)

  unfoldable pub destroy_server_if_needed : Option Channel → ServerMeta → Act (World X) Void
  unfolding destroy_now tell_if need_destroy verdict_text
  destroy_server_if_needed channel server = do
    p ← provider_at (lookup server.provider_name site.providers)
    verdict ← λ w. (need_destroy site.now p server w, w)
    tell_if channel (verdict_text verdict.1)
    destroy_now channel p server verdict.0

  unfoldable pub shut : Option Channel → Act (World X) Void
  shut none = skip
  shut (some channel) = outside (site.net.shutdown channel)

  unfoldable pub close_if : Option Transport → Act (World X) Void
  close_if none = skip
  close_if (some t) = outside (site.net.close t)

  -- `if t and meta:`
  unfoldable pub leave :
      Option Channel → Option Transport → Option ServerMeta → Bool → Act (World X) Void
  unfolding remove_server_session destroy_server_if_needed
  leave channel (some t) (some meta) check_destroy = do
    remove_server_session t meta.server_name
    if check_destroy then destroy_server_if_needed channel meta else skip
  leave channel _ _ check_destroy = skip

  unfoldable pub cleanup :
      Option Channel → Option Transport → Option ServerMeta → Bool → Act (World X) Void
  unfolding leave shut close_if
  cleanup channel t meta check_destroy = do
    leave channel t meta check_destroy
    shut channel
    close_if t
