-- ===== src/Contrib/Local/Started.antt =====
-- `create_server` of footloose.py, ignite.py and multipass.py (lobbyboy/contrib/provider): what has
-- become of the process that makes the server.
use mathlib.Core.Path.{subst}
use lobbyboy.Base.{
  ◌≡◌, ℕ, Bool, true, String, List, [], ◌∷◌, Option, none, some, Bool-cases, inl, inr,
  if◌then◌else◌,
}
use lobbyboy.Exceptions.{provider}
use lobbyboy.Act.{ok, Act, skip, raise, lift, ◌>>=◌, ◌>>◌, Returns, follow-Returns, then-Returns}
use lobbyboy.Paths.{FilePath}
use lobbyboy.Config.Types.{ServerMeta}
use lobbyboy.World.{Channel}
use lobbyboy.Contrib.Host.{Host, Base, finish, server_meta, time_process}
use lobbyboy.Contrib.Local.{Programs, is_success, ensure_success, place}
use lobbyboy.Contrib.Footloose
use lobbyboy.Contrib.Ignite
use lobbyboy.Contrib.Multipass

module _ {X : Type 0} (host : Host X) (programs : Programs X) (channel : Channel)
    (self : Base) where
  -- A process that the command has started, and that has ended with code 0.
  abbrev HasRun : List String → Option FilePath → Type 0
  HasRun command cwd =
      (p : ℕ) × (y : X) × (z : X) × ((programs.popen command cwd none y).0 ≡ ok p)
      × (is_success (programs.returncode p z) ≡ true)

  abbrev IsStarted : (String → List String) → ServerMeta → Type 0
  IsStarted command meta = HasRun (command meta.server_name) meta.workspace

  ensure_success-Returns :
      (exception : String) (p : ℕ)
      → Returns
          (λ _. (z : X) × (is_success (programs.returncode p z) ≡ true))
          (ensure_success programs exception p)
  unfolding ensure_success
  ensure_success-Returns exception p z u h =
      elim (Bool-cases (is_success (programs.returncode p z))) [
        | inl t ↦ (z, t)
        | inr t ↦
            absurd
              (cc (subst (λ b. ((if b then skip else raise (provider exception)) z).0 ≡ ok u) t h))
      ]

  finish-IsStarted :
      (command : String → List String) (server_name : String) (workspace : FilePath)
      → HasRun (command server_name) (some workspace)
      → Returns (IsStarted command) (finish host self server_name workspace "127.0.0.1")
  unfolding finish server_meta
  finish-IsStarted command server_name workspace run x meta e =
      let made : server_meta (host.now x) self.name server_name workspace "127.0.0.1" ≡ meta =
        cc e in
      subst (IsStarted command) made run

  -- The steps from the start of the process on.
  launch-IsStarted :
      (command : String → List String) (server_name : String) (workspace : FilePath)
      (action_name exception : String) (done : ℕ → Act X Bool)
      → Returns (IsStarted command) (
          programs.popen (command server_name) (some workspace) none >>= λ p.
          time_process host channel action_name (done p) 3
          >> (ensure_success programs exception p
              >> finish host self server_name workspace "127.0.0.1"))
  launch-IsStarted command server_name workspace action_name exception done =
      let P = IsStarted command in
      let end : Act X ServerMeta = finish host self server_name workspace "127.0.0.1" in
      then-Returns
        (λ p. (y : X) × ((programs.popen (command server_name) (some workspace) none y).0 ≡ ok p)) P
        (programs.popen (command server_name) (some workspace) none) _ (λ y p e. (y, e))
        λ p (y, e).
          follow-Returns P (time_process host channel action_name (done p) 3)
            (λ _. ensure_success programs exception p >> end)
            λ _.
              then-Returns (λ _. (z : X) × (is_success (programs.returncode p z) ≡ true)) P
                (ensure_success programs exception p) (λ _. end)
                (ensure_success-Returns exception p)
                λ _ (z, f). finish-IsStarted command server_name workspace (p, y, z, e, f)

  -- The three providers with their configurations.
  pub data Launcher : Type 0 where
    footloose : Footloose.FootlooseConfig → Launcher
    ignite : Ignite.IgniteConfig → Launcher
    multipass : Multipass.MultipassConfig → Launcher

  abbrev pub create_with : Launcher → Act X ServerMeta
  create_with (footloose config) = Footloose.create_server host programs self config channel
  create_with (ignite config) = Ignite.create_server host programs self config channel
  create_with (multipass config) = Multipass.create_server host programs self config channel

  -- The command that is to make a server of a name.
  abbrev pub command_of : Launcher → String → List String
  command_of (footloose config) server_name = "footloose" ∷ "create" ∷ []
  command_of (ignite config) server_name = Ignite.create_command config server_name
  command_of (multipass config) server_name = Multipass.create_command config server_name

  launcher-Returns : (l : Launcher) → Returns (IsStarted (command_of l)) (create_with l)
  unfolding Footloose.create_server Ignite.create_server Multipass.create_server
  launcher-Returns (footloose config) =
      let P = IsStarted (command_of (footloose config)) in
      follow-Returns P (place host channel self) _ λ (server_name, workspace).
        follow-Returns P (host.files.write (Footloose.config_file workspace) "") _ λ _.
          follow-Returns P
            (lift (programs.format config.footloose_config "server_name" server_name)) _
            λ text.
              follow-Returns P (host.files.write (Footloose.config_file workspace) text) _ λ _.
                launch-IsStarted (command_of (footloose config)) server_name workspace
                  "footloose create done" "FootlooseException"
                  (Footloose.footloose_create_done host programs)
  launcher-Returns (ignite config) =
      follow-Returns (IsStarted (command_of (ignite config))) (place host channel self) _
        λ (server_name, workspace).
          launch-IsStarted (command_of (ignite config)) server_name workspace "ignite create done"
            "IgniteException" (Ignite.ignite_create_done host programs)
  launcher-Returns (multipass config) =
      follow-Returns (IsStarted (command_of (multipass config))) (place host channel self) _
        λ (server_name, workspace).
          launch-IsStarted (command_of (multipass config)) server_name workspace
            "multipass create done" "MultipassException"
            (Multipass.multipass_create_done host programs server_name)

  -- A server of footloose, ignite or multipass is returned only when a process that the provider's
  -- command for its name started in its workspace has ended with code 0: a process that failed, or that
  -- is still running when the checks are given up, makes `create_server` raise.
  pub create_server-IsStarted :
      (l : Launcher) (x : X) (meta : ServerMeta)
      → (create_with l x).0 ≡ ok meta
      → (p : ℕ) × (y : X) × (z : X) × ((programs.popen
            (command_of l meta.server_name)
            meta.workspace
            none
            y).0
          ≡ ok p)
        × (is_success (programs.returncode p z) ≡ true)
  create_server-IsStarted l x meta h = launcher-Returns l x meta h
