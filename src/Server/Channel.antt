-- ===== src/Server/Channel.antt =====
-- The requests of a channel (lobbyboy/server.py) as a state machine.

use lobbyboy.Base.{◌≡◌, refl, sym, ℕ, true, false, some, arith, inl, inr, Bool-cases}
use mathlib.Core.Path.{subst}
use lobbyboy.Act.{ending, returned, threw, still_running}
use lobbyboy.Server.{
  Session, new_session, Serving, Terminals, check_channel_shell_request, check_channel_pty_request,
  check_channel_window_change_request, set_window_size, signal_resize, master_fd,
}

-- A session whose shell has been asked for has a terminal, with its two descriptors.
pub record IsSound (s : Session) : Type 0 where
  pub shell-pty : s.shell_event ≡ true → s.pty_event ≡ true
  pub pty-fds : s.pty_event ≡ true → (fds : ℕ × ℕ) × (s.fds ≡ some fds)

module _ {X : Type 0} (terminals : Terminals X) where
  -- One request, in whatever way it ends, the start of the proxy in the other thread, and what
  -- happens outside.
  pub data Step : Serving X → Serving X → Type 0 where
    shell_request : (w : Serving X) → Step w (check_channel_shell_request w).1
    pty_request :
        (w : Serving X) (width height pixelwidth pixelheight : ℕ)
        → Step w (check_channel_pty_request terminals width height pixelwidth pixelheight w).1
    window_change_request :
        (w : Serving X) (width height pixelwidth pixelheight : ℕ)
        → Step w
            (check_channel_window_change_request terminals width height pixelwidth pixelheight w).1
    proxy_started :
        (w : Serving X) (pid : ℕ)
        → Step w (record w { session = record w.session { proxy_subprocess_pid = some pid } })
    host_moves : (w : Serving X) (x : X) → Step w (record w { host = x })

  pub data Reachable : Serving X → Type 0 where
    begun : (x : X) → Reachable (record { session = new_session; host = x })
    stepped : {w w' : Serving X} → Reachable w → Step w w' → Reachable w'

shell_granted :
    {X : Type 0} (w : Serving X)
    → w.session.pty_event ≡ true
    → (check_channel_shell_request w).1.session ≡ record w.session { shell_event = true }
unfolding check_channel_shell_request
shell_granted w e = ground arith

shell_refused :
    {X : Type 0} (w : Serving X)
    → w.session.pty_event ≡ false
    → (check_channel_shell_request w).1.session ≡ w.session
unfolding check_channel_shell_request
shell_refused w e = ground arith

shell-IsSound :
    {X : Type 0} (w : Serving X)
    → IsSound w.session
    → IsSound (check_channel_shell_request w).1.session
shell-IsSound w sound = elim (Bool-cases w.session.pty_event) [
  | inl e ↦
      subst IsSound (sym (shell_granted w e))
        (record { shell-pty = λ _. e; pty-fds = sound.pty-fds })
  | inr e ↦ subst IsSound (sym (shell_refused w e)) sound
]

module _ {X : Type 0} (terminals : Terminals X) where
  pty-IsSound :
      (width height pixelwidth pixelheight : ℕ) (w : Serving X)
      → IsSound w.session
      → IsSound
          (check_channel_pty_request terminals width height pixelwidth pixelheight w).1.session
  unfolding check_channel_pty_request
  pty-IsSound width height pixelwidth pixelheight w sound =
      elim (ending (terminals.openpty w.host).0) [
        | returned pair e ↦
            elim (ending
              (set_window_size terminals (some pair.0) height width pixelwidth pixelheight
                (terminals.openpty w.host).1).0) [
                  | returned _ f ↦
                      rw (e, f) (record { shell-pty = λ _. refl; pty-fds = λ _. (pair, refl) })
                  | threw _ f ↦
                      rw (e, f)
                        (record { shell-pty = sound.shell-pty; pty-fds = λ _. (pair, refl) })
                  | still_running f ↦
                      rw (e, f)
                        (record { shell-pty = sound.shell-pty; pty-fds = λ _. (pair, refl) })
                ]
        | threw _ e ↦ rw (e) (record { shell-pty = sound.shell-pty; pty-fds = sound.pty-fds })
        | still_running e ↦ rw (e) (record { shell-pty = sound.shell-pty; pty-fds = sound.pty-fds })
      ]

  -- A resize leaves the events and the descriptors alone.
  resized :
      (width height pixelwidth pixelheight : ℕ) (w : Serving X)
      → (check_channel_window_change_request terminals width height pixelwidth pixelheight
          w).1.session
        ≡ record w.session { window_width = width; window_height = height }
  unfolding check_channel_window_change_request
  resized width height pixelwidth pixelheight w =
      elim (ending
        (set_window_size terminals (master_fd w.session) height width pixelwidth pixelheight
          w.host).0) [
            | returned _ e ↦
                elim (ending
                  (signal_resize terminals w.session.proxy_subprocess_pid
                    (set_window_size terminals (master_fd w.session) height width pixelwidth
                      pixelheight w.host).1).0) [
                        | returned _ f ↦ rw (e, f) refl
                        | threw _ f ↦ rw (e, f) refl
                        | still_running f ↦ rw (e, f) refl
                      ]
            | threw _ e ↦ rw (e) refl
            | still_running e ↦ rw (e) refl
          ]

  resized-IsSound :
      (w : Serving X) (s : Session) (width height : ℕ)
      → s ≡ record w.session { window_width = width; window_height = height }
      → IsSound w.session
      → IsSound s
  resized-IsSound w s width height e sound =
      subst IsSound (sym e) (record { shell-pty = sound.shell-pty; pty-fds = sound.pty-fds })

  Step-IsSound : {w w' : Serving X} → Step terminals w w' → IsSound w.session → IsSound w'.session
  Step-IsSound (shell_request w) sound = shell-IsSound w sound
  Step-IsSound (pty_request w width height pixelwidth pixelheight) sound =
      pty-IsSound width height pixelwidth pixelheight w sound
  Step-IsSound (window_change_request w width height pixelwidth pixelheight) sound =
      resized-IsSound w _ width height (resized width height pixelwidth pixelheight w) sound
  Step-IsSound (proxy_started w pid) sound = record {
    shell-pty = sound.shell-pty;
    pty-fds = sound.pty-fds;
  }
  Step-IsSound (host_moves w x) sound = sound

  -- Whatever requests a client makes, in whatever order and with whatever failures, a shell is only
  -- granted on a connection that has a terminal: where the shell event is set, the terminal's is, and
  -- both descriptors are there for the proxy to use.
  pub Reachable-IsSound : (w : Serving X) → Reachable terminals w → IsSound w.session
  Reachable-IsSound w (begun x) = record { shell-pty = λ h. absurd cc; pty-fds = λ h. absurd cc }
  Reachable-IsSound w (stepped r step) = Step-IsSound step (Reachable-IsSound _ r)
