-- ===== src/Contrib/Library/Vultr.antt =====
-- What vultr.py (lobbyboy/contrib/provider) uses of the library `pyvultr`.
use lobbyboy.Base.{ℕ, Bool, String, List, Option}
use lobbyboy.Base.Int.{ℤ}
use lobbyboy.Act.{Act}
use lobbyboy.Config.Json.{Json, Raw}

-- The objects of the library, with the attributes that are read. `contents` is `to_dict()`.
pub record Instance : Type 0 where
  pub id : String
  pub status : String
  pub main_ip : String
  pub contents : Raw

pub record Region : Type 0 where
  pub id : String
  pub city : String
  pub country : String
  pub continent : String

-- `monthly_cost` is a float, as Python writes it.
pub record Plan : Type 0 where
  pub id : String
  pub disk : ℕ
  pub disk_count : ℕ
  pub ram : ℕ
  pub monthly_cost : String

pub record Os : Type 0 where
  pub id : ℤ
  pub arch : String
  pub family : String
  pub name : String

pub record ReqInstance : Type 0 where
  pub region : String
  pub plan : String
  pub os_id : ℤ
  pub label : String
  pub tag : String
  pub sshkey_id : Option (List String)

-- `VultrV2(token)`; `delete_instance` gives whether its result counts as true.
pub record Client (X : Type 0) : Type 0 where
  pub create_key : String → String → Act X String
  pub create_instance : ReqInstance → Act X Instance
  pub get_instance : String → Act X Instance
  pub delete_instance : Json → Act X Bool
  pub regions : Act X (List Region)
  pub plans : Act X (List Plan)
  pub operating_systems : Act X (List Os)
