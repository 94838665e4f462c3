-- ===== src/BaseProvider/Names.antt =====
-- `generate_default_server_name` (lobbyboy/provider.py), over a directory in which `mkdir` makes what
-- is not there.

use lobbyboy.Base.{
  ◌≡◌, Bool, true, false, String, ◌<>◌, List, [], ◌∷◌, Option, given, Bool-cases, inl, inr,
}
use lobbyboy.Exceptions.{no_available_name}
use lobbyboy.Act.{Result, ok, raised}
use lobbyboy.Paths.{FilePath, joinpath}
use lobbyboy.BaseProvider.{System, suffixes, stem, find_name, generate_default_server_name}

-- `mkdir` on a path that does not exist makes it.
abbrev pub Makes : {X : Type 0} → System X → Type 0
Makes {X} system =
    (path : FilePath) (x : X)
    → system.exists path x ≡ false
    → (y : X) × (system.mkdir path x ≡ (ok tt, y)) × (system.exists path y ≡ true)

module _ {X : Type 0} (system : System X) (workspace : FilePath) where
  abbrev taken : String → String → X → Bool
  taken name suffix x = system.exists (joinpath workspace (name <> suffix)) x

  -- How a search over suffixes ends: at the first that is free, whose directory it makes, or with an
  -- error and nothing made, where all are taken.
  pub data Found (name : String) (x : X) : List String → Result String × X → Type 0 where
    none_free : Found name x [] (raised no_available_name, x)
    free :
        (suffix : String) (rest : List String) (y : X)
        → taken name suffix x ≡ false
        → taken name suffix y ≡ true
        → Found name x (suffix ∷ rest) (ok (name <> suffix), y)
    past :
        (suffix : String) (rest : List String) (r : Result String × X)
        → taken name suffix x ≡ true
        → Found name x rest r
        → Found name x (suffix ∷ rest) r

  find_name-Found :
      Makes system
      → (name : String) (names : List String) (x : X)
      → Found name x names (find_name system workspace name names x)
  unfolding find_name
  find_name-Found makes name [] x = none_free
  find_name-Found makes name (suffix ∷ rest) x = elim (Bool-cases (taken name suffix x)) [
    | inl e ↦ rw (e) (past suffix rest _ e (find_name-Found makes name rest x))
    | inr e ↦
        let (y, f, g) = makes (joinpath workspace (name <> suffix)) x e in
        rw (e, f) (free suffix rest y e g)
  ]

  -- Where `mkdir` makes what is not there, a generated name is the prefix and the minute with the first
  -- of the 27 suffixes whose directory is free, and that directory is there afterwards; only when all
  -- 27 are taken does it raise `NoAvailableNameException`, with nothing made.
  pub generate_default_server_name-Found :
      Makes system
      → (server_name_prefix : Option String) (x : X)
      → Found
          (stem (given server_name_prefix) (system.minute x))
          x
          suffixes
          (generate_default_server_name system workspace server_name_prefix x)
  unfolding generate_default_server_name
  generate_default_server_name-Found makes server_name_prefix x =
      find_name-Found makes (stem (given server_name_prefix) (system.minute x)) suffixes x
