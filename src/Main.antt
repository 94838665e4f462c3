-- ===== src/Main.antt =====
-- lobbyboy/main.py, over the sockets, the threads, the files and the classes of the providers as
-- parameters; lobbyboy/scripts.py prints a file.

pub mod Own
pub mod Made
use mathlib.Core.Option
use lobbyboy.Base.{ℕ, zero, suc, Bool, true, false, String, List, [], ◌∷◌, Option, none, some}
use lobbyboy.Base.Int.{ℤ, pos}
use lobbyboy.Base.Dict.{Dict, lookup, insert}
use lobbyboy.Exceptions.{Exn, foreign, key_error, attribute_error}
use lobbyboy.Act.{
  Result, ok, raised, running, Act, Void, skip, raise, pure, lift, bind, try_except, ◌>>=◌, ◌>>◌,
}
use lobbyboy.Convert.{Value, object, table, unknown}
use lobbyboy.Duration.{to_seconds}
use lobbyboy.Paths.{FilePath}
use lobbyboy.World.{Provider}
use lobbyboy.Config.Json.{Raw}
use lobbyboy.Config.Types.{ConfigUser}
use lobbyboy.Config.File.{
  Config, RawConfig, DataDir, directory, empty, unset, in_data_dir, load, servers_db_path,
}
use lobbyboy.KeyFiles.{Files, rsa, confirm_ssh_key_pair}

-- A class of providers: its configuration, made from a table, and a call of the class, which may
-- raise.
pub record ProviderClass (X C : Type 0) : Type 0 where
  pub config : Raw → Result C
  pub new : String → C → FilePath → Result (Provider X)

-- The calls of `socket`, and the threads that are started; a socket is a descriptor.
pub record Listener (X : Type 0) : Type 0 where
  pub socket : Act X ℕ
  pub setsockopt : ℕ → Act X Void
  pub bind_to : ℕ → Option String → Option ℤ → Act X Void
  pub listen : ℕ → ℕ → Act X Void
  pub accept : ℕ → Act X (ℕ × String)
  pub setup_logs : Option String → Act X Void
  pub start_killer : Dict (Provider X) → FilePath → ℕ → Act X Void
  pub start_handler : ℕ → String → Act X Void

-- What `sys.exit(1)` raises.
abbrev pub system_exit : Exn
system_exit = foreign "SystemExit"

module _ {X C : Type 0} where
  -- `cls(name=…, config=config.provider[name], workspace=…)`
  unfoldable pub new_provider :
      String → ProviderClass X C → Option (Value C Raw) → Result FilePath → Result (Provider X)
  new_provider name cls none workspace = raised key_error
  new_provider name cls (some (object c)) workspace = bind workspace λ p. cls.new name c p
  new_provider name cls (some (table t)) workspace = raised attribute_error
  new_provider name cls (some (unknown t)) workspace = raised attribute_error

  -- The providers, one for each class.
  unfoldable pub new_providers :
      Config C (ProviderClass X C) → Dict (ProviderClass X C) → Result (Dict (Provider X))
  unfolding new_provider lookup in_data_dir
  new_providers config [] = ok []
  new_providers config ((name, cls) ∷ d) =
      let rest = new_providers config d in
      bind (new_provider name cls (lookup name config.provider) (in_data_dir config.data_dir name))
        λ p. bind rest λ ps. ok ((name, p) ∷ ps)

-- `config.data_dir`, where a path is needed.
unfoldable pub data_path : DataDir → Result FilePath
data_path (directory p) = ok p
data_path empty = raised attribute_error
data_path unset = raised attribute_error

module _ {X : Type 0} (listener : Listener X) where
  unfoldable pub open_socket : Option String → Option ℤ → Act X ℕ
  open_socket listen_ip listen_port = do
    sock ← listener.socket
    listener.setsockopt sock
    listener.bind_to sock listen_ip listen_port
    pure sock

  unfoldable pub prepare_socket : Option String → Option ℤ → Act X ℕ
  unfolding open_socket
  prepare_socket listen_ip listen_port = do
    sock ← try_except (open_socket listen_ip listen_port) λ e. raise system_exit
    try_except (listener.listen sock 100) λ e. raise system_exit
    pure sock

  -- One round of the loop: a client that could not be accepted is passed over.
  unfoldable pub accept_one : ℕ → Act X (Option (ℕ × String))
  accept_one sock =
      try_except (do accepted ← listener.accept sock; pure (some accepted)) λ e. pure none

  unfoldable pub handle_one : Option (ℕ × String) → Act X Void
  handle_one none = skip
  handle_one (some (client, address)) = listener.start_handler client address

  -- The loop without an end, for so many rounds.
  unfoldable pub runserver : ℕ → ℕ → Act X Void
  unfolding accept_one handle_one
  runserver zero sock = lift running
  runserver (suc rounds) sock = do
    accepted ← accept_one sock
    handle_one accepted
    runserver rounds sock

module _ {X C M : Type 0} (listener : Listener X) (files : Files X)
    (toml_load : FilePath → Act X (RawConfig C)) (user_of : Raw → Result ConfigUser)
    (import_module : String → Result M) (getattr : M → String → Option (ProviderClass X C)) where
  -- With the configuration that has been loaded.
  unfoldable pub start : ℕ → Config C (ProviderClass X C) → Act X Void
  unfolding new_providers data_path confirm_ssh_key_pair prepare_socket servers_db_path to_seconds
      runserver
  start rounds config = do
    providers ← lift (new_providers config config.provider_cls)
    listener.setup_logs config.log_level
    data_dir ← lift (data_path config.data_dir)
    confirm_ssh_key_pair files data_dir rsa none (some "ssh_host_rsa_key")
    sock ← prepare_socket listener config.listen_ip config.listen_port
    servers_db ← lift (servers_db_path config)
    interval ← lift (to_seconds config.min_destroy_interval)
    listener.start_killer providers servers_db interval
    runserver listener rounds sock

  unfoldable pub main : ℕ → FilePath → Act X Void
  unfolding load start
  main rounds config_path = do
    config ←
        load import_module getattr (λ (cls : ProviderClass X C). cls.config) toml_load user_of
          config_path
    start rounds config
