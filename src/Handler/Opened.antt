-- ===== src/Handler/Opened.antt =====
-- `prepare_shell_env` and `active_session` (lobbyboy/socket_handle.py).

use mathlib.Core.Path.{subst}
use lobbyboy.Base.{
  ◌≡◌, refl, sym, ◌∙◌, ℕ, Bool, true, false, String, Option, none, some, inl, inr, ap,
}
use lobbyboy.Exceptions.{Exn}
use lobbyboy.Act.{
  Result, ok, raised, running, Act, follow, ◌>>=◌, ending, returned, threw, still_running,
  try_except,
}
use lobbyboy.Config.Types.{ServerMeta}
use lobbyboy.World.{Channel, Transport, World, outside}
use lobbyboy.Server.{slave_fd}
use lobbyboy.Handler.Menu.{Site, create_proxy_process, tell}
use lobbyboy.Handler.Shell.{
  Line, prepare_shell_env, start_shell, shell_if, try_proxy, on_failure, apologize, open_shell, bar,
  set_pid,
}
use lobbyboy.Handler.Failed.{BrokenOff, Opened, Closed, apologize-Closed, on_failure-Closed}
use lobbyboy.Handler.Quiet.{Quiet, tell-Quiet}
use lobbyboy.Handler.Registry.{
  Registered, Registered-from, Registered-to, create_proxy_process-Registered,
}

module _ {X : Type 0} (site : Site X) (line : Line X) (channel : Channel) where
  -- The end of `prepare_shell_env` on a proxy that has been registered.
  open_made-Opened :
      (pid : ℕ) (meta : ServerMeta) (fd : Option ℕ) (w : World X)
      → let p = create_proxy_process site channel fd w in
        p.0 ≡ ok (pid, meta)
        → Registered (site.net.get_transport channel) (ok (pid, meta)) w p.1
        → Opened site channel
            (open_shell site line channel (some (pid, meta)) p.1).0
            w
            (open_shell site line channel (some (pid, meta)) p.1).1
  unfolding Opened open_shell
  open_made-Opened pid meta fd w made registered =
      let w₁ = (create_proxy_process site channel fd w).1 in
      let x = set_pid site line channel pid w₁.env in
      let told = tell site channel (bar (line.session x).window_width) (record w₁ { env = x }) in
      let after : Registered (site.net.get_transport channel) (ok (pid, meta)) w told.1 =
        Registered-to (site.net.get_transport channel) (ok (pid, meta)) w w₁ told.1
          (tell-Quiet site channel (bar (line.session x).window_width) (record w₁ { env = x }))
          registered in
      let broken : BrokenOff site channel w told.1 = inr ((pid, meta), fd, w, refl, made, after) in
      elim (ending told.0) [
        | returned _ e ↦ rw (e) after
        | threw _ e ↦ rw (e) broken
        | still_running e ↦ rw (e) broken
      ]

  open_shell-Opened :
      (r : Result (Option (ℕ × ServerMeta))) (w w₁ : World X)
      → Closed r w w₁
      → Opened site channel
          (follow r (open_shell site line channel) w₁).0
          w
          (follow r (open_shell site line channel) w₁).1
  unfolding Opened Closed open_shell
  open_shell-Opened (ok none) w w₁ c = c
  open_shell-Opened (ok (some made)) w w₁ c = absurd c
  open_shell-Opened (raised e) w w₁ c = inl c
  open_shell-Opened running w w₁ c = inl c

  try_proxy-returned :
      (pid : ℕ) (meta : ServerMeta) (w : World X)
      → (create_proxy_process site channel (slave_fd (line.session w.env)) w).0 ≡ ok (pid, meta)
      → try_except (try_proxy site line channel) (on_failure site line channel) w ≡ (
        ok (some (pid, meta)),
        (create_proxy_process site channel (slave_fd (line.session w.env)) w).1,
      )
  unfolding try_proxy
  try_proxy-returned pid meta w e = rw (e) refl

  try_proxy-threw :
      (v : Exn) (w : World X)
      → (create_proxy_process site channel (slave_fd (line.session w.env)) w).0 ≡ raised v
      → try_except (try_proxy site line channel) (on_failure site line channel) w
        ≡ on_failure site line channel v
            (create_proxy_process site channel (slave_fd (line.session w.env)) w).1
  unfolding try_proxy
  try_proxy-threw v w e = rw (e) refl

  try_proxy-running :
      (w : World X)
      → (create_proxy_process site channel (slave_fd (line.session w.env)) w).0 ≡ running
      → (try_except (try_proxy site line channel) (on_failure site line channel) w).0 ≡ running
  unfolding try_proxy
  try_proxy-running w e = rw (e) refl

  try_proxy-stays :
      (w : World X)
      → (create_proxy_process site channel (slave_fd (line.session w.env)) w).0 ≡ running
      → (try_except (try_proxy site line channel) (on_failure site line channel) w).1
        ≡ (create_proxy_process site channel (slave_fd (line.session w.env)) w).1
  unfolding try_proxy
  try_proxy-stays w e = rw (e) refl

  made_shell-Opened :
      (w : World X)
      → let t = site.net.get_transport channel in
        let m = try_except (try_proxy site line channel) (on_failure site line channel) in
        let f = open_shell site line channel in
        Opened site channel ((m >>= f) w).0 w ((m >>= f) w).1
  unfolding Opened Registered
  made_shell-Opened w =
      let t = site.net.get_transport channel in
      let fd = slave_fd (line.session w.env) in
      let w₁ = (create_proxy_process site channel fd w).1 in
      let m = try_except (try_proxy site line channel) (on_failure site line channel) in
      let f = open_shell site line channel in
      let P : Result (Option (ℕ × ServerMeta)) × World X → Type 0 =
        λ p. Opened site channel (follow p.0 f p.1).0 w (follow p.0 f p.1).1 in
      let registered = create_proxy_process-Registered site channel fd w in
      elim (ending (create_proxy_process site channel fd w).0) [
        | returned (pid, meta) e ↦ subst P (sym (try_proxy-returned pid meta w e)) (
            open_made-Opened pid meta fd w e
              (subst (λ (r : Result (ℕ × ServerMeta)). Registered t r w w₁) e registered))
        | threw v e ↦
            let same : w₁.sessions ≡ w.sessions =
              subst (λ (r : Result (ℕ × ServerMeta)). Registered t r w w₁) e registered in
            subst P (sym (try_proxy-threw v w e)) (
              open_shell-Opened (on_failure site line channel v w₁).0 w
                (on_failure site line channel v w₁).1
                (on_failure-Closed site line channel v w w₁ same))
        | still_running e ↦
            let still : (m w).1.sessions ≡ w.sessions =
              ap (λ (v : World X). v.sessions) (try_proxy-stays w e)
              ∙ subst (λ (r : Result (ℕ × ServerMeta)). Registered t r w w₁) e registered in
            subst
              (λ (r : Result (Option (ℕ × ServerMeta))).
                Opened site channel (follow r f (m w).1).0 w (follow r f (m w).1).1)
              (sym (try_proxy-running w e)) (inl still)
      ]

  BrokenOff-from :
      (w w₁ w' : World X)
      → w₁.sessions ≡ w.sessions
      → BrokenOff site channel w₁ w'
      → BrokenOff site channel w w'
  BrokenOff-from w w₁ w' e (inl same) = inl (same ∙ e)
  BrokenOff-from w w₁ w' e (inr (made, fd, w₂, same, returns, registered)) = inr (
    made,
    fd,
    w₂,
    same ∙ e,
    returns,
    Registered-from (site.net.get_transport channel) (ok made) w w₁ w' e registered,
  )

  Opened-from :
      (r : Result (Option (ℕ × ServerMeta))) (w w₁ w' : World X)
      → w₁.sessions ≡ w.sessions
      → Opened site channel r w₁ w'
      → Opened site channel r w w'
  unfolding Opened
  Opened-from (ok none) w w₁ w' e p = p ∙ e
  Opened-from (ok (some made)) w w₁ w' e p =
      Registered-from (site.net.get_transport channel) (ok made) w w₁ w' e p
  Opened-from (raised v) w w₁ w' e p = BrokenOff-from w w₁ w' e p
  Opened-from running w w₁ w' e p = BrokenOff-from w w₁ w' e p

  follow-Opened :
      {A : Type 0} (m : Act (World X) A) (f : A → Act (World X) (Option (ℕ × ServerMeta)))
      → Quiet m
      → ((a : A) (w : World X) → Opened site channel (f a w).0 w (f a w).1)
      → (w : World X) → Opened site channel ((m >>= f) w).0 w ((m >>= f) w).1
  unfolding Opened
  follow-Opened m f q p w = elim (ending (m w).0) [
    | returned a e ↦
        rw (e) (Opened-from (f a (m w).1).0 w (m w).1 (f a (m w).1).1 (q w) (p a (m w).1))
    | threw v e ↦ rw (e) (inl (q w))
    | still_running e ↦ rw (e) (inl (q w))
  ]

  Closed-Opened :
      (r : Result (Option (ℕ × ServerMeta))) (w w' : World X)
      → Closed r w w'
      → Opened site channel r w w'
  unfolding Closed Opened
  Closed-Opened (ok none) w w' c = c
  Closed-Opened (ok (some made)) w w' c = absurd c
  Closed-Opened (raised e) w w' c = inl c
  Closed-Opened running w w' c = inl c

  start_shell-Opened :
      (u : Transport) (w : World X)
      → Opened site channel
          (start_shell site line channel u w).0
          w
          (start_shell site line channel u w).1
  unfolding start_shell
  start_shell-Opened u w =
      follow-Opened (outside (site.net.getpeername u)) _ (λ w'. refl) (λ _ w'. made_shell-Opened w')
        w

  shell_if-Opened :
      (u : Transport) (is_set : Bool) (w : World X)
      → Opened site channel
          (shell_if site line channel u is_set w).0
          w
          (shell_if site line channel u is_set w).1
  unfolding shell_if
  shell_if-Opened u true w = start_shell-Opened u w
  shell_if-Opened u false w =
      let s : String = "*** Client never asked for a shell. Server will end session..." in
      let r = apologize site line channel s w in
      Closed-Opened r.0 w r.1 (apologize-Closed site line channel s w w refl)

  pub prepare_shell_env-Opened :
      (u : Transport) (w : World X)
      → Opened site channel
          (prepare_shell_env site line channel u w).0
          w
          (prepare_shell_env site line channel u w).1
  unfolding prepare_shell_env
  prepare_shell_env-Opened u w =
      follow-Opened (outside line.wait_shell) (shell_if site line channel u) (λ w'. refl)
        (shell_if-Opened u) w
