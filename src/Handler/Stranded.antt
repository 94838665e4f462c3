-- ===== src/Handler/Stranded.antt =====
-- A connection that drops (`run` of lobbyboy/socket_handle.py), and the rounds of
-- lobbyboy/server_killer.py that come after it.
use lobbyboy.Base.{◌≡◌, ◌≢◌, sym, ◌∙◌, ℕ, List, [], ◌∷◌, ◌++◌, some, inr}
use lobbyboy.Base.Dict.{Dict, lookup}
use lobbyboy.Exceptions.{Exn}
use lobbyboy.Act.{ok, raised}
use lobbyboy.Config.Types.{ServerMeta}
use lobbyboy.Config.Servers.{dump}
use lobbyboy.Config.Servers.Stored.{IsStored}
use lobbyboy.World.{Channel, Transport, World, sessions_of}
use lobbyboy.Killer.{check_all_live_servers}
use lobbyboy.Killer.Protect.{check_all_live_servers_protects}
use lobbyboy.Handler.Menu.{Site, tell}
use lobbyboy.Handler.Shell.{Line, prepare_server, prepare_shell_env, user_using}
use lobbyboy.Handler.Run.{Thread, run, welcome_text}
use lobbyboy.Handler.Visit.{sessions_of-same}
use lobbyboy.Handler.Leak.{run_keeps_dropped_session}

not_empty : {A : Type 0} (xs : List A) (a : A) → xs ++ a ∷ [] ≢ []
not_empty [] a e = cc e
not_empty (x ∷ xs) a e = cc e

module _ {X : Type 0} (site : Site X) (line : Line X) (t : Transport) where
  -- When the loop that passes bytes between the user and the proxy raises, as it does when the client
  -- drops the connection, the server of the proxy is not destroyed any more: as long as the sessions
  -- are those that `run` has left, a round of the killer, at whatever time and over whatever file that
  -- holds the server, leaves it in the file, however long its billing cycle is over.
  pub dropped_server_stays :
      (channel : Channel) (pid : ℕ) (meta : ServerMeta) (e : Exn) (x : X) (s : Thread X)
      (w₁ w₂ w₃ w₄ later : World X) (d : Dict ServerMeta)
      → line.set_gss_host t s.world.env ≡ (ok tt, x)
      → prepare_server site line t (record s.world { env = x }) ≡ (ok (some channel), w₁)
      → tell site channel (welcome_text line.version) w₁ ≡ (ok tt, w₂)
      → prepare_shell_env site line channel t w₂ ≡ (ok (some (pid, meta)), w₃)
      → user_using site line channel pid w₃ ≡ (raised e, w₄)
      → later.sessions ≡ (run site line t s).1.world.sessions
      → later.db ≡ dump d
      → IsStored d
      → lookup meta.server_name d ≡ some meta
      → (left : Dict ServerMeta) × ((check_all_live_servers site.now site.providers later).1.db
          ≡ dump left)
        × (lookup meta.server_name left ≡ some meta)
  dropped_server_stays channel pid meta e x s w₁ w₂ w₃ w₄ later d g p a b c same stored_as h found =
      let registered =
        sessions_of-same meta.server_name later (run site line t s).1.world same
        ∙ run_keeps_dropped_session site line t channel pid meta e x s w₁ w₂ w₃ w₄ g p a b c in
      let used : sessions_of meta.server_name later ≢ [] = λ q.
        not_empty (sessions_of meta.server_name w₂) (site.net.get_transport channel)
          (sym registered ∙ q) in
      let (left, db, keeps) =
        check_all_live_servers_protects site.now site.providers d later stored_as h in
      (left, db, keeps meta.server_name meta found (inr used))
