-- ===== src/Config/File.antt =====
-- lobbyboy/config.py: `LBConfig`, over the reading of TOML, the import of classes and the dataclasses of
-- the providers as parameters.
pub mod Loaded
pub mod Enabled
pub mod On
use mathlib.Core.Option
use lobbyboy.Base.{
  ℕ, zero, suc, Bool, true, false, not, ◌&&◌, String, List, [], ◌∷◌, Option, none, some, ◌===◌,
  if◌then◌else◌,
}
use lobbyboy.Base.Int.{ℤ, pos, negsuc}
use lobbyboy.Base.Dict.{Dict, lookup, insert}
use lobbyboy.Exceptions.{attribute_error, type_error, invalid_config}
use lobbyboy.Act.{Result, ok, raised, running, Act, bind, pure, lift, ◌>>=◌, ◌>>◌}
use lobbyboy.Convert.{Value, object, table, unknown, confirm_dc_type, import_class}
use lobbyboy.Paths.{FilePath, path_of, joinpath}
use lobbyboy.Config.Types.{ConfigUser}
use lobbyboy.Config.Json.{Json, null, flag, number, text, compound, Raw}

-- The table of a file, with the keys that `LBConfig` has; a missing key is `none`.
pub record RawConfig (C : Type 0) : Type 0 where
  pub data_dir : Option String
  pub listen_port : Option ℤ
  pub listen_ip : Option String
  pub min_destroy_interval : Option String
  pub servers_file : Option String
  pub log_level : Option String
  pub user : Option (Dict (Value ConfigUser Raw))
  pub provider : Option (Dict (Value C Raw))

-- `data_dir`: `None`, an empty text, or a path.
pub data DataDir : Type 0 where
  unset empty : DataDir
  directory : FilePath → DataDir

-- `C` are the configurations of the providers, `K` their classes.
pub record Config (C K : Type 0) : Type 0 where
  pub file : FilePath
  pub data_dir : DataDir
  pub listen_port : Option ℤ
  pub listen_ip : Option String
  pub min_destroy_interval : Option String
  pub servers_file : Option String
  pub log_level : Option String
  pub user : Dict (Value ConfigUser Raw)
  pub provider : Dict (Value C Raw)
  pub provider_cls : Dict K

-- Whether a value counts as true.
unfoldable pub is_true : Json → Bool
is_true null = false
is_true (flag b) = b
is_true (number (pos zero)) = false
is_true (number (pos (suc n))) = true
is_true (number (negsuc n)) = true
is_true (text s) = not (s === "")
is_true (compound s) = not (s === "[]") && not (s === "{}")

-- `if self.data_dir: self.data_dir = Path(self.data_dir)`
unfoldable pub data_dir_of : Option String → DataDir
unfolding path_of
data_dir_of none = unset
data_dir_of (some s) = if s === "" then empty else directory (path_of s)

-- `config.get("enable", True)`
unfoldable pub is_enabled : Raw → Bool
unfolding is_true lookup
is_enabled t = is_true (Option.get_or (lookup "enable" t) (flag true))

-- `data_dir.joinpath(name)`
unfoldable pub in_data_dir : DataDir → String → Result FilePath
unfolding joinpath
in_data_dir (directory p) name = ok (joinpath p name)
in_data_dir empty name = raised attribute_error
in_data_dir unset name = raised attribute_error

module _ {C K : Type 0} where
  unfoldable pub validate : Config C K → Bool
  validate config = elim config.data_dir [ unset ↦ false | empty ↦ true | directory p ↦ true ]

  -- `servers_db_path`
  unfoldable pub servers_db_path : Config C K → Result FilePath
  unfolding in_data_dir
  servers_db_path config = elim config.servers_file [
    | none ↦ elim config.data_dir [
      | directory p ↦ raised type_error
      | empty ↦ raised attribute_error
      | unset ↦ raised attribute_error
    ]
    | some servers_file ↦ in_data_dir config.data_dir servers_file
  ]

  -- `cls(**config_file_file, _file=config_file, _raw=raw_config)`, with the data directory as a path.
  unfoldable pub new_config : FilePath → RawConfig C → Config C K
  unfolding data_dir_of
  new_config file raw = record {
    file = file;
    data_dir = data_dir_of raw.data_dir;
    listen_port = raw.listen_port;
    listen_ip = raw.listen_ip;
    min_destroy_interval = raw.min_destroy_interval;
    servers_file = raw.servers_file;
    log_level = raw.log_level;
    user = Option.get_or raw.user [];
    provider = Option.get_or raw.provider [];
    provider_cls = [];
  }

-- The users, in order.
unfoldable pub confirm_users :
    (Raw → Result ConfigUser) → Dict (Value ConfigUser Raw) → Result (Dict (Value ConfigUser Raw))
unfolding confirm_dc_type
confirm_users user_of [] = ok []
confirm_users user_of ((u, config) ∷ d) =
    let rest = confirm_users user_of d in
    bind (confirm_dc_type user_of config) λ v. bind rest λ vs. ok ((u, v) ∷ vs)

module _ {C K M : Type 0} (import_module : String → Result M) (getattr : M → String → Option K)
    (config_of : K → Raw → Result C) where
  -- `import_class(load_module)`
  unfoldable pub import_load_module : Json → Result (Option K)
  unfolding import_class
  import_load_module (text s) = import_class import_module getattr s
  import_load_module null = raised attribute_error
  import_load_module (flag b) = raised attribute_error
  import_load_module (number n) = raised attribute_error
  import_load_module (compound s) = raised attribute_error

  -- What a class that has been found does to the configuration.
  unfoldable pub set_provider : String → Raw → Option K → Config C K → Result (Config C K)
  unfolding confirm_dc_type insert
  set_provider name t none config = raised invalid_config
  set_provider name t (some provider_cls) config =
      bind (confirm_dc_type (config_of provider_cls) (table t)) λ v. ok record config {
        provider = insert name v config.provider;
        provider_cls = insert name provider_cls config.provider_cls;
      }

  -- One round of the loop over the providers.
  unfoldable pub load_provider : String → Value C Raw → Config C K → Result (Config C K)
  unfolding is_enabled import_load_module set_provider lookup
  load_provider name (object c) config = raised attribute_error
  load_provider name (unknown t) config = raised attribute_error
  load_provider name (table t) config =
      if is_enabled t
      then (bind (import_load_module (Option.get_or (lookup "load_module" t) (text "")))
          λ cls. set_provider name t cls config)
      else ok config

  unfoldable pub load_providers : Dict (Value C Raw) → Config C K → Result (Config C K)
  unfolding load_provider
  load_providers [] config = ok config
  load_providers ((name, v) ∷ d) config = bind (load_provider name v config) λ c. load_providers d c

  unfoldable pub confirm_data_type : (Raw → Result ConfigUser) → Config C K → Result (Config C K)
  unfolding confirm_users load_providers
  confirm_data_type user_of config =
      bind (confirm_users user_of config.user)
        λ user. load_providers config.provider record config { user = user }

  -- `validate`, with the exception of `load`.
  unfoldable pub validated : Config C K → Result (Config C K)
  unfolding validate
  validated config = if validate config then ok config else raised invalid_config

  unfoldable pub load :
      {X : Type 0}
      → (FilePath → Act X (RawConfig C))
      → (Raw → Result ConfigUser)
      → FilePath
      → Act X (Config C K)
  unfolding new_config confirm_data_type validated
  load toml_load user_of config_file = do
    raw_config ← toml_load config_file
    config ← lift (confirm_data_type user_of (new_config config_file raw_config))
    lift (validated config)

  unfoldable pub reload :
      {X : Type 0}
      → (FilePath → Act X (RawConfig C))
      → (Raw → Result ConfigUser)
      → Config C K
      → Act X (Config C K)
  unfolding load
  reload toml_load user_of config = load toml_load user_of config.file
