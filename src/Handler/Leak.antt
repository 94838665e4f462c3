-- ===== src/Handler/Leak.antt =====
-- The `except` clause of `run` (lobbyboy/socket_handle.py), behind a shell that has been opened.

use mathlib.Core.Path.{subst}
use lobbyboy.Base.{◌≡◌, false, refl, sym, ◌∙◌, ap, ℕ, Option, none, some, ◌++◌, [], ◌∷◌}
use lobbyboy.Handler.Failed.{Opened}
use lobbyboy.Handler.Opened.{prepare_shell_env-Opened}
use lobbyboy.Handler.Registry.{Registered}
use lobbyboy.Exceptions.{Exn}
use lobbyboy.Act.{
  Result, ok, raised, Void, follow-returned, follow-raised, ending, returned, threw, still_running,
}
use lobbyboy.Config.Types.{ServerMeta}
use lobbyboy.World.{Channel, Transport, World, sessions_of}
use lobbyboy.Handler.Menu.{Site, tell}
use lobbyboy.Handler.Shell.{Line, prepare_server, prepare_shell_env, user_using}
use lobbyboy.Handler.Close.{cleanup}
use lobbyboy.Handler.Run.{Thread, run, serve, welcome_text, use_shell}
use lobbyboy.Handler.Visit.{sessions_of-same}
use lobbyboy.Handler.Quiet.{Quiet}
use lobbyboy.Handler.Destroy.{cleanup-Quiet}

module _ {X : Type 0} (site : Site X) (line : Line X) (t : Transport) where
  user_using-Quiet : (channel : Channel) (pid : ℕ) → Quiet (user_using site line channel pid)
  unfolding user_using
  user_using-Quiet channel pid w = elim (ending (line.fileno channel w.env).0) [
    | returned _ e ↦ rw (e) refl
    | threw _ e ↦ rw (e) refl
    | still_running e ↦ rw (e) refl
  ]

  -- The handler that `run` ends in when `serve` raises.
  run-raised :
      (channel : Channel) (e : Exn) (x : X) (s : Thread X) (w₁ w₂ : World X)
      → line.set_gss_host t s.world.env ≡ (ok tt, x)
      → prepare_server site line t (record s.world { env = x }) ≡ (ok (some channel), w₁)
      → serve site line t (some channel) w₁ ≡ (raised e, w₂)
      → (run site line t s).1.world ≡ (cleanup site (some channel) (some t) none false w₂).1
  unfolding run
  run-raised channel e x s w₁ w₂ g p v = rw (g, p, v) refl

  serve-raised :
      (channel : Channel) (pid : ℕ) (meta : ServerMeta) (e : Exn) (w₁ w₂ w₃ w₄ : World X)
      → tell site channel (welcome_text line.version) w₁ ≡ (ok tt, w₂)
      → prepare_shell_env site line channel t w₂ ≡ (ok (some (pid, meta)), w₃)
      → user_using site line channel pid w₃ ≡ (raised e, w₄)
      → serve site line t (some channel) w₁ ≡ (raised e, w₄)
  unfolding serve use_shell
  serve-raised channel pid meta e w₁ w₂ w₃ w₄ a b c =
      follow-returned (tell site channel (welcome_text line.version)) _ w₁ w₂ tt a
      ∙ follow-returned (prepare_shell_env site line channel t) (use_shell site line t channel) w₂
          w₃ (some (pid, meta)) b
      ∙ follow-raised (user_using site line channel pid) _ w₃ w₄ e c

  -- When the loop that passes bytes between the user and the proxy raises, as it does when the client
  -- drops the connection, `run` ends with the visitor's connection still registered: it stands behind
  -- the sessions that the server had when `prepare_shell_env` began, so that the server goes on
  -- counting it as active.
  pub run_keeps_dropped_session :
      (channel : Channel) (pid : ℕ) (meta : ServerMeta) (e : Exn) (x : X) (s : Thread X)
      (w₁ w₂ w₃ w₄ : World X)
      → line.set_gss_host t s.world.env ≡ (ok tt, x)
      → prepare_server site line t (record s.world { env = x }) ≡ (ok (some channel), w₁)
      → tell site channel (welcome_text line.version) w₁ ≡ (ok tt, w₂)
      → prepare_shell_env site line channel t w₂ ≡ (ok (some (pid, meta)), w₃)
      → user_using site line channel pid w₃ ≡ (raised e, w₄)
      → sessions_of meta.server_name (run site line t s).1.world
        ≡ sessions_of meta.server_name w₂ ++ site.net.get_transport channel ∷ []
  unfolding Opened Registered
  run_keeps_dropped_session channel pid meta e x s w₁ w₂ w₃ w₄ g p a b c =
      let raises = serve-raised channel pid meta e w₁ w₂ w₃ w₄ a b c in
      let still : w₄.sessions ≡ w₃.sessions =
        ap (λ (r : Result Void × World X). r.1.sessions) (sym c)
        ∙ user_using-Quiet channel pid w₃ in
      let kept : (run site line t s).1.world.sessions ≡ w₃.sessions =
        ap (λ (w : World X). w.sessions) (run-raised channel e x s w₁ w₄ g p raises)
        ∙ cleanup-Quiet site (some channel) (some t) false w₄
        ∙ still in
      let registered : Registered (site.net.get_transport channel) (ok (pid, meta)) w₂ w₃ =
        subst (λ (q : Result (Option (ℕ × ServerMeta)) × World X). Opened site channel q.0 w₂ q.1) b
          (prepare_shell_env-Opened site line channel t w₂) in
      sessions_of-same meta.server_name (run site line t s).1.world w₃ kept ∙ registered.0
