-- ===== src/Handler/Registry.antt =====
-- `_create_proxy_process` and `active_session` (lobbyboy/socket_handle.py).

use lobbyboy.Base.{◌≡◌, refl, ◌∙◌, ◌≢◌, ℕ, String, [], ◌∷◌, ◌++◌, Option}
use lobbyboy.Base.Dict.{lookup, lookup-insert_same, lookup-insert_other}
use lobbyboy.Act.{Result, ok, raised, running, Act, ◌>>=◌, ending, returned, threw, still_running}
use lobbyboy.Config.Types.{ServerMeta}
use lobbyboy.World.{Channel, Transport, Provider, World, outside, sessions_of}
use lobbyboy.Handler.Menu.{
  Site, choose_server, create_proxy_process, redirect, redirect_text, tell, provider_or_raise,
  add_session, join_units,
}
use lobbyboy.Handler.Quiet.{Quiet, tell-Quiet, provider-Quiet, choose_server-Quiet}

module _ {X : Type 0} (t : Transport) where
  -- What becomes of the sessions: a proxy's server has one more, the transport's, and every other
  -- server has those that it had; without a proxy nothing changes.
  unfoldable pub Registered : Result (ℕ × ServerMeta) → World X → World X → Type 0
  Registered (ok (pid, meta)) w w' =
      (sessions_of meta.server_name w' ≡ sessions_of meta.server_name w ++ t ∷ [])
      × ((name : String) → name ≢ meta.server_name → sessions_of name w' ≡ sessions_of name w)
  Registered (raised e) w w' = w'.sessions ≡ w.sessions
  Registered running w w' = w'.sessions ≡ w.sessions

  pub Registered-from :
      (r : Result (ℕ × ServerMeta)) (w w₁ w' : World X)
      → w₁.sessions ≡ w.sessions
      → Registered r w₁ w'
      → Registered r w w'
  unfolding Registered sessions_of
  Registered-from (ok (pid, meta)) w w₁ w' e (p, q) = (rw (← e) p, λ name d. rw (← e) (q name d))
  Registered-from (raised v) w w₁ w' e p = p ∙ e
  Registered-from running w w₁ w' e p = p ∙ e

  pub Registered-to :
      (r : Result (ℕ × ServerMeta)) (w w₁ w' : World X)
      → w'.sessions ≡ w₁.sessions
      → Registered r w w₁
      → Registered r w w'
  unfolding Registered sessions_of
  Registered-to (ok (pid, meta)) w w₁ w' e (p, q) = (rw (e) p, λ name d. rw (e) (q name d))
  Registered-to (raised v) w w₁ w' e p = e ∙ p
  Registered-to running w w₁ w' e p = e ∙ p

  follow-Registered :
      {A : Type 0} (m : Act (World X) A) (f : A → Act (World X) (ℕ × ServerMeta))
      → Quiet m
      → ((a : A) (w : World X) → Registered (f a w).0 w (f a w).1)
      → (w : World X) → Registered ((m >>= f) w).0 w ((m >>= f) w).1
  unfolding Registered
  follow-Registered m f q p w = elim (ending (m w).0) [
    | returned a e ↦
        rw (e) (Registered-from (f a (m w).1).0 w (m w).1 (f a (m w).1).1 (q w) (p a (m w).1))
    | threw v e ↦ rw (e) (q w)
    | still_running e ↦ rw (e) (q w)
  ]

module _ {X : Type 0} (site : Site X) (channel : Channel) where
  add_session-Registered :
      (pid : ℕ) (meta : ServerMeta) (t : Transport) (w : World X)
      → Registered t (ok (pid, meta)) w (add_session meta.server_name t w)
  unfolding Registered add_session sessions_of
  add_session-Registered pid meta t w = (
    rw (lookup-insert_same meta.server_name (sessions_of meta.server_name w ++ t ∷ []) w.sessions)
        refl,
    λ name d.
        rw
          (lookup-insert_other name meta.server_name (sessions_of meta.server_name w ++ t ∷ [])
            w.sessions d)
          refl,
  )

  abbrev Registers : Act (World X) (ℕ × ServerMeta) → Type 0
  Registers m = (w : World X) → Registered (site.net.get_transport channel) (m w).0 w (m w).1

  redirect-Registered :
      (slave_fd : Option ℕ) (meta : ServerMeta) (p : Provider X)
      → Registers (redirect site channel slave_fd meta p)
  unfolding redirect
  redirect-Registered slave_fd meta p =
      let t = site.net.get_transport channel in
      follow-Registered t (outside (p.ssh_server_command meta)) _ (λ w. refl)
        λ units.
          follow-Registered t (tell site channel (redirect_text meta)) _
            (tell-Quiet site channel (redirect_text meta))
            λ _.
              follow-Registered t (outside (site.popen (join_units units) slave_fd)) _ (λ w. refl)
                λ pid w. add_session-Registered pid meta t w

  -- `_create_proxy_process` registers the connection at the server just when it returns a proxy: then
  -- the sessions of the proxy's server have the transport of the handler's channel at their end, and
  -- all others are as they were. When it raises, whatever it raises and wherever, no session changes.
  pub create_proxy_process-Registered :
      (slave_fd : Option ℕ) (w : World X)
      → Registered
          (site.net.get_transport channel)
          (create_proxy_process site channel slave_fd w).0
          w
          (create_proxy_process site channel slave_fd w).1
  unfolding create_proxy_process
  create_proxy_process-Registered slave_fd =
      let t = site.net.get_transport channel in
      follow-Registered t (choose_server site channel) _ (choose_server-Quiet site channel) λ meta.
        follow-Registered t (provider_or_raise (lookup meta.provider_name site.providers)) _
          (provider-Quiet (lookup meta.provider_name site.providers))
          λ p. redirect-Registered slave_fd meta p
