-- ===== src/Contrib/Library/Linode.antt =====
-- What linode.py (lobbyboy/contrib/provider) uses of the library `linode_api4`.
use lobbyboy.Base.{ℕ, Bool, String, List, Option}
use lobbyboy.Base.Int.{ℤ}
use lobbyboy.Act.{Act}
use lobbyboy.Config.Json.{Json, Raw}

-- The objects of the library, with the attributes that are read.
pub record Instance : Type 0 where
  pub id : ℤ
  pub ipv4 : List String
  -- `_serialize()`
  pub serialized : Raw

-- What `instance_create` gives: an instance, or one with the password that was made for it.
pub data Created : Type 0 where
  alone : Instance → Created
  with_password : Instance → String → Created

pub record Region : Type 0 where
  pub id : String
  pub country : String
  pub status : String

-- The prices are floats, as Python writes them.
pub record LinodeType : Type 0 where
  pub id : String
  pub disk : ℕ
  pub memory : ℕ
  pub label : String
  pub hourly : String
  pub monthly : String

-- `gigabytes` is `round(size / 1024, 2)`, and `created` is `str(created)`, as Python writes them.
pub record Image : Type 0 where
  pub id : String
  pub gigabytes : String
  pub created : String
  pub deprecated : Bool
  pub created_by : String

-- `LinodeClient(token=…)`. `stats` asks for the statistics of an instance; `find` is the first
-- instance with an id, if there is one.
pub record Client (X : Type 0) : Type 0 where
  pub instance_create : String → String → String → String → List String → Act X Created
  pub stats : Instance → Act X Json
  pub find : Json → Act X (Option Instance)
  pub delete : Instance → Act X Bool
  pub regions : Act X (List Region)
  pub types : Act X (List LinodeType)
  pub images : Act X (List Image)
