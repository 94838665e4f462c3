-- ===== src/Contrib/Local.antt =====
-- lobbyboy/contrib/provider: what the providers of footloose.py, ignite.py, multipass.py and vagrant.py
-- share, over the programs of the host as a parameter.
pub mod Started
use mathlib.Core.Option
use lobbyboy.Base.{
  ℕ, Bool, true, false, String, ◌<>◌, List, [], ◌∷◌, Option, none, some, if◌then◌else◌,
}
use lobbyboy.Base.Int.{ℤ}
use lobbyboy.Exceptions.{Exn, file_not_found, provider}
use lobbyboy.Act.{
  Result, ok, raised, running, Act, Void, skip, raise, pure, gets, try_except, ◌>>=◌, ◌>>◌,
}
use lobbyboy.Paths.{FilePath, show_path}
use lobbyboy.World.{Channel}
use lobbyboy.BaseProvider.{generate_default_server_name}
use lobbyboy.Contrib.Host.{Host, Base, is_zero, open_workspace}

-- The calls of `subprocess`: `run` gives the return code, `popen` a process with a directory and the
-- file that its output goes to, `returncode` is what the last `poll` or `wait` has kept, and `stdout`
-- and `stderr` are what is read and decoded. `state_of` is `check_output`, with the state of a server
-- in lower case from the JSON. `format` is `template.format(key=value)`.
pub record Programs (X : Type 0) : Type 0 where
  pub run : List String → Act X ℤ
  pub popen : List String → Option FilePath → Option FilePath → Act X ℕ
  pub poll : ℕ → Act X (Option ℤ)
  pub wait : ℕ → Act X ℤ
  pub returncode : ℕ → X → Option ℤ
  pub stdout : ℕ → Act X (Option String)
  pub stderr : ℕ → Act X (Option String)
  pub state_of : List String → String → Act X String
  pub format : String → String → String → Result String
  pub print_error : String → Act X Void

abbrev is_file_not_found : Exn → Bool
is_file_not_found file_not_found = true
is_file_not_found _ = false

-- `code == 0`, where the process may not have ended.
unfoldable pub is_success : Option ℤ → Bool
is_success none = false
is_success (some code) = is_zero code

-- `code is not None`
unfoldable pub has_ended : Option ℤ → Bool
has_ended none = false
has_ended (some code) = true

-- `"{}".format(meta.workspace)`
unfoldable pub show_workspace : Option FilePath → String
unfolding show_path
show_workspace none = ""
show_workspace (some p) = show_path p

-- The name and the workspace of a new server.
unfoldable pub place : {X : Type 0} → Host X → Channel → Base → Act X (String × FilePath)
unfolding generate_default_server_name open_workspace
place host channel self = do
  server_name ←
      generate_default_server_name host.system self.workspace
        self.provider_config.server_name_prefix
  server_workspace ← open_workspace host channel self server_name
  pure (server_name, server_workspace)

module _ {X : Type 0} (programs : Programs X) where
  -- What the `except` clause does.
  on_missing : Exn → Act X Bool
  on_missing e = if is_file_not_found e then pure false else raise e

  unfoldable pub check_command : List String → Act X Bool
  unfolding on_missing
  check_command command =
      try_except (programs.run command >>= λ returncode. pure (is_zero returncode)) on_missing

  -- What follows the check.
  unfoldable pub available : Bool → String → Act X Bool
  available true advice = pure true
  available false advice = do programs.print_error advice; pure false

  -- `is_available` of a provider that needs a command.
  unfoldable pub is_available : String → String → Act X Bool
  unfolding check_command available
  is_available command advice = do
    found ← check_command (command ∷ "-h" ∷ [])
    available found advice

  -- `if process.returncode != 0: raise …`
  unfoldable pub ensure_success : String → ℕ → Act X Void
  unfolding is_success
  ensure_success exception process = do
    returncode ← gets (programs.returncode process)
    if is_success returncode then skip else raise (provider exception)

  -- The end of `destroy_server`, on the command that deletes.
  unfoldable pub delete_with : List String → Act X Bool
  delete_with command = do returncode ← programs.run command; pure (is_zero returncode)
