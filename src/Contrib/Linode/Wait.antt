-- ===== src/Contrib/Linode/Wait.antt =====
-- `linode_is_up` (lobbyboy/contrib/provider/linode.py) in the timed check that waits for it.
use lobbyboy.Base.{◌≡◌, ◌≢◌, sym, ◌∙◌, Bool, true, false}
use lobbyboy.Act.{ok, pure, ◌>>=◌, ◌>>◌, Returns, follow-Returns, then-Returns, try_except-Returns}
use lobbyboy.World.{Channel}
use lobbyboy.BaseProvider.Checks.{time_process_action-IsDone}
use lobbyboy.Contrib.Host.{Host, time_process}
use lobbyboy.Contrib.Linode.{Client, Instance, is_running, linode_is_up}

module _ {X : Type 0} (host : Host X) (client : Client X) where
  -- The statistics of an instance are a table of figures, never the text "running".
  abbrev pub AreFigures : Type 0
  AreFigures = (node : Instance) → Returns (λ j. is_running j ≡ false) (client.stats node)

  is_up-Returns :
      AreFigures → (node : Instance) → Returns (λ b. b ≡ false) (linode_is_up host client node)
  unfolding linode_is_up
  is_up-Returns figures node =
      let P : Bool → Type 0 = λ b. b ≡ false in
      try_except-Returns P
        (client.stats node >>= λ stats. client.stats node >> pure (is_running stats))
        (λ e. pure false)
        (then-Returns (λ j. is_running j ≡ false) P (client.stats node)
          (λ stats. client.stats node >> pure (is_running stats)) (figures node)
          λ stats off.
            follow-Returns P (client.stats node) (λ _. pure (is_running stats))
              λ _ x b e. let same : is_running stats ≡ b = cc e in sym same ∙ off)
        λ e x b h. sym (cc h)

  -- Where the statistics of an instance are never the text "running", the wait for a new Linode,
  -- which asks for them and not for the status, never finds it up: the timed check does not return
  -- true.
  pub wait_never_up :
      AreFigures
      → (channel : Channel) (node : Instance) (x : X)
      → (time_process host channel "linode is up" (linode_is_up host client node) 5 x).0 ≢ ok true
  unfolding time_process
  wait_never_up figures channel node x h =
      let (y, e) =
        time_process_action-IsDone host.system host.net channel (linode_is_up host client node)
          "linode is up" 20 5 x h in
      let f : true ≡ false = is_up-Returns figures node y true e in absurd (cc f)
