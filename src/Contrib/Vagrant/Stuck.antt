-- ===== src/Contrib/Vagrant/Stuck.antt =====
-- `destroy_server` (lobbyboy/contrib/provider/vagrant.py), and what becomes of it in the killer
-- (lobbyboy/server_killer.py).
use lobbyboy.Base.{
  ◌≡◌, ◌≢◌, refl, Bool, true, false, String, [], ◌∷◌, Option, none, some, if◌then◌else◌,
}
use lobbyboy.Base.Int.{ℤ}
use lobbyboy.Exceptions.{plain}
use lobbyboy.Act.{
  ok, Act, Void, skip, raise, ◌>>=◌, ◌>>◌, ending, returned, threw, still_running, Returns,
  follow-Returns, then-Returns,
}
use lobbyboy.Text.Split.{split}
use lobbyboy.Paths.{FilePath}
use lobbyboy.Config.Types.{ServerMeta}
use lobbyboy.World.{Channel, World, outside, Provider}
use lobbyboy.Killer.{destroy, unregister}
use lobbyboy.Contrib.Host.{Host}
use lobbyboy.Contrib.Local.{Programs}
use lobbyboy.Contrib.Vagrant.{
  Memory, VagrantConfig, decode_again, find_machine, get_vagrant_machine_id, run_vagrant,
  destroy_server, vagrant_provider,
}

-- Nothing is like this, so what returns only that does not return.
abbrev Never : {A : Type 0} → A → Type 0
Never a = ⊥

module _ {X : Type 0} (programs : Programs X) where
  decode_again-Returns : (stdout : Option String) → Returns Never (decode_again {X = X} stdout)
  unfolding decode_again
  decode_again-Returns none x a e = cc e
  decode_again-Returns (some s) x a e = cc e

  machine_id-Returns :
      (server_name : String) → Returns Never (get_vagrant_machine_id programs server_name)
  unfolding get_vagrant_machine_id
  machine_id-Returns server_name =
      follow-Returns Never (run_vagrant programs ("vagrant" ∷ "global-status" ∷ []) none none) _
        λ (_, stdout, _).
          then-Returns Never Never (decode_again stdout)
            (λ text. find_machine server_name (split b'\n' text)) (decode_again-Returns stdout)
            λ text never. absurd never

  destroy_server-Returns : (meta : ServerMeta) → Returns Never (destroy_server programs meta)
  unfolding destroy_server
  destroy_server-Returns meta =
      then-Returns Never Never (get_vagrant_machine_id programs meta.server_name) _
        (machine_id-Returns meta.server_name) λ vid never. absurd never

module _ {X : Type 0} (host : Host X) (programs : Programs X) (memory : Memory X) (name : String)
    (config : VagrantConfig) (workspace : FilePath) where
  abbrev pub this : Provider X
  this = vagrant_provider host programs memory name config workspace

  -- A chain whose first statement does not return and keeps the file ends there.
  stop :
      (m : Act X Bool) (f : Bool → Act (World X) Void) (w : World X)
      → ((b : Bool) → (m w.env).0 ≢ ok b)
      → (((outside m >>= f) w).0 ≢ ok tt) × (((outside m >>= f) w).1.db ≡ w.db)
  stop m f w never = elim (ending (m w.env).0) [
    | returned b e ↦ absurd (never b e)
    | threw v e ↦ rw (e) (λ h. cc h, refl)
    | still_running e ↦ rw (e) (λ h. cc h, refl)
  ]

  -- As above, behind the test of `manage`.
  guarded :
      (managed : Bool) (m : Act X Bool) (f : Bool → Act (World X) Void) (w : World X)
      → ((b : Bool) → (m w.env).0 ≢ ok b)
      → ((((if managed then skip else raise plain) >> (outside m >>= f)) w).0 ≢ ok tt)
        × ((((if managed then skip else raise plain) >> (outside m >>= f)) w).1.db ≡ w.db)
  guarded true m f w never = stop m f w never
  guarded false m f w never = (λ h. cc h, refl)

  -- The killer's `destroy` of a server of Vagrant never returns, whatever `vagrant` answers, and
  -- leaves the file of servers as it is.
  pub destroy_never_returns :
      (now : X → ℤ) (meta : ServerMeta) (channel : Option Channel) (w : World X)
      → ((destroy now this meta channel w).0 ≢ ok tt)
        × ((destroy now this meta channel w).1.db ≡ w.db)
  unfolding destroy vagrant_provider
  destroy_never_returns now meta channel w =
      guarded meta.manage (destroy_server programs meta) (λ _. unregister now meta) w
        λ b h. destroy_server-Returns programs meta w.env b h
