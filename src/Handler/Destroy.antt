-- ===== src/Handler/Destroy.antt =====
-- `destroy_server_if_needed` and the calls that close a connection (lobbyboy/socket_handle.py), and
-- `active_session`.

use lobbyboy.Base.{refl, Bool, true, false, String, [], ◌∷◌, Option, none, some, if◌then◌else◌}
use lobbyboy.Base.Dict.{lookup}
use lobbyboy.Act.{skip, raise, ◌>>◌, ending, returned, threw, still_running}
use lobbyboy.Config.Types.{ServerMeta}
use lobbyboy.Config.Servers.{update_local_servers}
use lobbyboy.Exceptions.{plain}
use lobbyboy.World.{Channel, Transport, Provider, outside}
use lobbyboy.Killer.{need_destroy, destroy, unregister}
use lobbyboy.Handler.Menu.{Site}
use lobbyboy.Handler.Close.{
  cleanup, leave, destroy_server_if_needed, destroy_now, doomed_text, destroyed_text, verdict_text,
  tell_if, provider_at, shut, close_if,
}
use lobbyboy.Handler.Quiet.{Quiet, follow-Quiet, tell-Quiet}

module _ {X : Type 0} (site : Site X) where
  unregister-Quiet : (meta : ServerMeta) → Quiet (unregister site.now meta)
  unfolding unregister
  unregister-Quiet meta w =
      elim (ending (update_local_servers (site.now w.env) [] (meta ∷ []) w.db).0) [
        | returned _ e ↦ rw (e) refl
        | threw _ e ↦ rw (e) refl
        | still_running e ↦ rw (e) refl
      ]

  manage-Quiet : (b : Bool) → Quiet {X = X} (if b then skip else raise plain)
  manage-Quiet true w = refl
  manage-Quiet false w = refl

  destroy-Quiet :
      (p : Provider X) (meta : ServerMeta) (channel : Option Channel)
      → Quiet (destroy site.now p meta channel)
  unfolding destroy
  destroy-Quiet p meta channel =
      follow-Quiet (if meta.manage then skip else raise plain) _ (manage-Quiet meta.manage) λ _.
        follow-Quiet (outside (p.destroy_server meta channel)) _ (λ w. refl)
          λ _. unregister-Quiet meta

  tell_if-Quiet : (channel : Option Channel) (s : String) → Quiet (tell_if site channel s)
  unfolding tell_if
  tell_if-Quiet none s w = refl
  tell_if-Quiet (some channel) s w = tell-Quiet site channel s w

  destroy_now-Quiet :
      (channel : Option Channel) (p : Provider X) (meta : ServerMeta) (b : Bool)
      → Quiet (destroy_now site channel p meta b)
  unfolding destroy_now
  destroy_now-Quiet channel p meta false w = refl
  destroy_now-Quiet channel p meta true w =
      follow-Quiet (tell_if site channel (doomed_text meta)) _
        (tell_if-Quiet channel (doomed_text meta))
        (λ _.
          follow-Quiet (destroy site.now p meta channel) _ (destroy-Quiet p meta channel)
            λ _. tell_if-Quiet channel (destroyed_text meta))
        w

  provider_at-Quiet : (o : Option (Provider X)) → Quiet (provider_at o)
  provider_at-Quiet none w = refl
  provider_at-Quiet (some p) w = refl

  pub destroy_server_if_needed-Quiet :
      (channel : Option Channel) (meta : ServerMeta)
      → Quiet (destroy_server_if_needed site channel meta)
  unfolding destroy_server_if_needed
  destroy_server_if_needed-Quiet channel meta =
      follow-Quiet (provider_at (lookup meta.provider_name site.providers)) _
        (provider_at-Quiet (lookup meta.provider_name site.providers))
        λ p.
          follow-Quiet (λ w. (need_destroy site.now p meta w, w)) _ (λ w. refl)
            λ verdict.
              follow-Quiet (tell_if site channel (verdict_text verdict.1)) _
                (tell_if-Quiet channel (verdict_text verdict.1))
                λ _. destroy_now-Quiet channel p meta verdict.0

  shut-Quiet : (channel : Option Channel) → Quiet (shut site channel)
  unfolding shut
  shut-Quiet none w = refl
  shut-Quiet (some channel) w = refl

  close_if-Quiet : (t : Option Transport) → Quiet (close_if site t)
  unfolding close_if
  close_if-Quiet none w = refl
  close_if-Quiet (some t) w = refl

  pub end-Quiet :
      (channel : Option Channel) (t : Option Transport)
      → Quiet (shut site channel >> close_if site t)
  end-Quiet channel t =
      follow-Quiet (shut site channel) (λ _. close_if site t) (shut-Quiet channel)
        λ _. close_if-Quiet t

  -- The check for a server that is left with it.
  pub check-Quiet :
      (channel : Option Channel) (meta : ServerMeta) (check_destroy : Bool)
      → Quiet (if check_destroy then destroy_server_if_needed site channel meta else skip)
  check-Quiet channel meta true w = destroy_server_if_needed-Quiet channel meta w
  check-Quiet channel meta false w = refl

  -- Without a server there is nothing to leave.
  pub cleanup-Quiet :
      (channel : Option Channel) (t : Option Transport) (check_destroy : Bool)
      → Quiet (cleanup site channel t none check_destroy)
  unfolding cleanup leave
  cleanup-Quiet channel none check_destroy = end-Quiet channel none
  cleanup-Quiet channel (some t) check_destroy = end-Quiet channel (some t)
