-- ===== src/Contrib/Library/DigitalOcean.antt =====
-- What digitalocean.py (lobbyboy/contrib/provider) uses of the library `digitalocean`.
use lobbyboy.Base.{ℕ, Bool, String, List, Option}
use lobbyboy.Act.{Act}
use lobbyboy.Config.Json.{Json, Raw}

-- A droplet, with its `__dict__`; it has no address before it is loaded.
pub record Droplet : Type 0 where
  pub ip_address : Option String
  pub attributes : Raw

pub record Region : Type 0 where
  pub name : String
  pub slug : String

pub record Image : Type 0 where
  pub distribution : String
  pub name : String
  pub slug : Option String

-- `Droplet(token=…, …)` with `create`, and `Manager`, with a token; an action is given with its status
-- once it is loaded.
pub record Client (X : Type 0) : Type 0 where
  pub create : String → String → String → String → List String → Act X Droplet
  pub load : Droplet → Act X Droplet
  pub get_actions : Droplet → Act X (List ℕ)
  pub load_action : ℕ → Act X String
  pub get_object : Json → Act X Droplet
  pub destroy : Droplet → Act X Bool
  pub all_regions : Act X (List Region)
  -- The slugs of the sizes.
  pub all_sizes : Act X (List String)
  pub all_images : Act X (List Image)
