-- ===== src/Handler/Failed.antt =====
-- The `except` clauses of `prepare_shell_env` (lobbyboy/socket_handle.py).

use lobbyboy.Base.{◌≡◌, ◌<>◌, ◌∙◌, ◌⊎◌, ℕ, String, Option, none, some, Bool-cases, inl, inr}
use lobbyboy.Exceptions.{Exn, is_user_cancel, is_provider_exception}
use lobbyboy.Act.{Result, ok, raised, running, ending, returned, threw, still_running}
use lobbyboy.Config.Types.{ServerMeta}
use lobbyboy.World.{Channel, World}
use lobbyboy.Handler.Menu.{Site, create_proxy_process, tell}
use lobbyboy.Handler.Shell.{Line, on_failure, apologize, report}
use lobbyboy.Handler.Quiet.{tell-Quiet}
use lobbyboy.Handler.Registry.{Registered}

module _ {X : Type 0} (site : Site X) (channel : Channel) where
  -- What the sessions are when `prepare_shell_env` breaks off: those that there were, unless
  -- `_create_proxy_process` has returned, and then the connection is registered at its server.
  abbrev pub BrokenOff : World X → World X → Type 0
  BrokenOff w w' =
      (w'.sessions ≡ w.sessions)
      ⊎ ((made : ℕ × ServerMeta) × (fd : Option ℕ) × (w₁ : World X) × (w₁.sessions ≡ w.sessions)
          × ((create_proxy_process site channel fd w₁).0 ≡ ok made)
          × Registered (site.net.get_transport channel) (ok made) w w')

  -- What the sessions are after `prepare_shell_env`.
  unfoldable pub Opened : Result (Option (ℕ × ServerMeta)) → World X → World X → Type 0
  Opened (ok none) w w' = w'.sessions ≡ w.sessions
  Opened (ok (some made)) w w' = Registered (site.net.get_transport channel) (ok made) w w'
  Opened (raised e) w w' = BrokenOff w w'
  Opened running w w' = BrokenOff w w'

module _ {X : Type 0} where
  -- No shell is given, and no session has changed.
  unfoldable pub Closed : Result (Option (ℕ × ServerMeta)) → World X → World X → Type 0
  Closed (ok none) w w' = w'.sessions ≡ w.sessions
  Closed (ok (some made)) w w' = ⊥
  Closed (raised e) w w' = w'.sessions ≡ w.sessions
  Closed running w w' = w'.sessions ≡ w.sessions

module _ {X : Type 0} (site : Site X) (line : Line X) (channel : Channel) where
  pub apologize-Closed :
      (s : String) (w w₁ : World X)
      → w₁.sessions ≡ w.sessions
      → Closed (apologize site line channel s w₁).0 w (apologize site line channel s w₁).1
  unfolding Closed apologize
  apologize-Closed s w w₁ same = elim (ending (tell site channel s w₁).0) [
    | returned _ e ↦ rw (e) (tell-Quiet site channel s w₁ ∙ same)
    | threw _ e ↦ rw (e) (tell-Quiet site channel s w₁ ∙ same)
    | still_running e ↦ rw (e) (tell-Quiet site channel s w₁ ∙ same)
  ]

  report-Closed :
      (s : String) (v : Exn) (w w₁ : World X)
      → w₁.sessions ≡ w.sessions
      → Closed (report site line channel s v w₁).0 w (report site line channel s v w₁).1
  unfolding Closed report
  report-Closed s v w w₁ same = elim (ending (tell site channel s w₁).0) [
    | returned _ e ↦ rw (e) (tell-Quiet site channel s w₁ ∙ same)
    | threw _ e ↦ rw (e) (tell-Quiet site channel s w₁ ∙ same)
    | still_running e ↦ rw (e) (tell-Quiet site channel s w₁ ∙ same)
  ]

  pub on_failure-Closed :
      (v : Exn) (w w₁ : World X)
      → w₁.sessions ≡ w.sessions
      → Closed (on_failure site line channel v w₁).0 w (on_failure site line channel v w₁).1
  unfolding on_failure
  on_failure-Closed v w w₁ same = elim (Bool-cases (is_user_cancel v)) [
    | inl e ↦ rw (e) (apologize-Closed "Got EOF, closing session..." w w₁ same)
    | inr e ↦ elim (Bool-cases (is_provider_exception v)) [
      | inl f ↦
          rw (e, f)
            (apologize-Closed ("LobbyBoy got exceptions from provider: " <> line.describe v) w w₁
              same)
      | inr f ↦
          rw (e, f) (report-Closed ("LobbyBoy got exceptions: " <> line.describe v) v w w₁ same)
    ]
  ]
