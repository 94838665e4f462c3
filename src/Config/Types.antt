-- ===== src/Config/Types.antt =====
-- The dataclasses `LBConfigUser`, `LBConfigProvider` and `LBServerMeta`. A field that is not set
-- is `none`.
use lobbyboy.Base.{Bool, true, String, List, [], Option, none}
use lobbyboy.Base.Int.{ℤ, ◌-ℤ◌}
use lobbyboy.Paths.{FilePath}

pub record ConfigUser : Type 0 where
  pub authorized_keys : Option String
  pub password : Option String

pub record ConfigProvider : Type 0 where
  pub load_module : Option String
  pub enable : Bool
  pub min_life_to_live : Option String
  pub bill_time_unit : Option String
  pub destroy_safe_time : Option String
  pub server_name_prefix : Option String
  pub api_token : Option String
  pub extra_ssh_keys : List String

-- `ConfigProvider()`
abbrev pub default_provider : ConfigProvider
default_provider = record {
  load_module = none;
  enable = true;
  min_life_to_live = none;
  bill_time_unit = none;
  destroy_safe_time = none;
  server_name_prefix = none;
  api_token = none;
  extra_ssh_keys = [];
}

-- `workspace` is `none` for an empty text, which stays as it is.
pub record ServerMeta : Type 0 where
  pub provider_name : String
  pub workspace : Option FilePath
  pub server_name : String
  pub server_host : String
  pub server_user : String
  pub server_port : ℤ
  pub created_timestamp : ℤ
  pub ssh_extra_args : List String
  pub manage : Bool

-- `live_sec`, at the time `now`.
unfoldable pub live_sec : ℤ → ServerMeta → ℤ
unfolding ◌-ℤ◌
live_sec now meta = now -ℤ meta.created_timestamp
