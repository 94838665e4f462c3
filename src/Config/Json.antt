-- ===== src/Config/Json.antt =====
-- Values of JSON and of TOML, as the configuration and the files of the servers hold them.
use lobbyboy.Base.{Bool, String}
use lobbyboy.Base.Int.{ℤ}
use lobbyboy.Base.Dict.{Dict}

-- An array or an inner object is kept as Python writes it.
pub data Json : Type 0 where
  null : Json
  flag : Bool → Json
  number : ℤ → Json
  text : String → Json
  compound : String → Json

abbrev pub Raw : Type 0
Raw = Dict Json
