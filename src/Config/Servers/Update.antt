-- ===== src/Config/Servers/Update.antt =====
-- `update_local_servers` against a map: what each name stands for after a change.
use lobbyboy.Base.{
  ◌≡◌, refl, String, List, [], ◌∷◌, Option, none, some, arith, ◌===◌, ===_iff, if◌then◌else◌, All,
  Bool, false, ◌||◌,
}
use lobbyboy.Base.Int.{ℤ}
use lobbyboy.Base.Dict.{
  Dict, lookup, insert, erase, update, NodupKeys, lookup-insert, lookup-erase, insert-NodupKeys,
}
use lobbyboy.Act.{ok}
use lobbyboy.Config.Types.{ServerMeta}
use lobbyboy.Config.Servers.{
  Content, load_local_servers, by_name, pop_all, changed, update_local_servers,
}
use lobbyboy.Config.Servers.Stored.{
  IsStorable, load_local_servers-dump, load_local_servers-IsStored, changed-IsStored,
}

abbrev pub first_of_two : Option ServerMeta → Option ServerMeta → Option ServerMeta
first_of_two none b = b
first_of_two (some m) b = some m

-- The last server of that name.
abbrev pub last_named : String → List ServerMeta → Option ServerMeta
last_named j [] = none
last_named j (m ∷ ms) =
    first_of_two (last_named j ms) (if j === m.server_name then some m else none)

abbrev pub is_named : String → List ServerMeta → Bool
is_named j [] = false
is_named j (m ∷ ms) = j === m.server_name || is_named j ms

lookup-by_name :
    (j : String) (ms : List ServerMeta) (d : Dict ServerMeta)
    → lookup j (by_name ms d) ≡ first_of_two (last_named j ms) (lookup j d)
unfolding by_name
lookup-by_name j [] d = refl
lookup-by_name j (m ∷ ms) d =
    ground
      (arith, lookup-by_name j ms (insert m.server_name m d), lookup-insert j m.server_name m d)

by_name-NodupKeys :
    (ms : List ServerMeta) (d : Dict ServerMeta) → NodupKeys d → NodupKeys (by_name ms d)
unfolding by_name
by_name-NodupKeys [] d u = u
by_name-NodupKeys (m ∷ ms) d u = by_name-NodupKeys ms _ (insert-NodupKeys m.server_name m d u)

lookup-update :
    (j : String) (e d : Dict ServerMeta)
    → NodupKeys e
    → lookup j (update d e) ≡ first_of_two (lookup j e) (lookup j d)
unfolding update lookup
lookup-update j [] d u = refl
lookup-update j ((k, m) ∷ e) d (fresh, u) =
    ground (arith, ===_iff j k, lookup-update j e (insert k m d) u, lookup-insert j k m d)

lookup-pop_all :
    (j : String) (ms : List ServerMeta) (d : Dict ServerMeta)
    → lookup j (pop_all ms d) ≡ (if is_named j ms then none else lookup j d)
unfolding pop_all
lookup-pop_all j [] d = refl
lookup-pop_all j (m ∷ ms) d =
    ground (arith, lookup-pop_all j ms (erase m.server_name d), lookup-erase j m.server_name d)

pub lookup-changed :
    (j : String) (new deleted : List ServerMeta) (d : Dict ServerMeta)
    → lookup j (changed new deleted d)
      ≡ (if is_named j deleted then none else first_of_two (last_named j new) (lookup j d))
unfolding changed lookup
lookup-changed j new deleted d = ground (
  arith,
  lookup-pop_all j deleted (update d (by_name new [])),
  lookup-update j (by_name new []) d (by_name-NodupKeys new [] tt),
  lookup-by_name j new [],
)

-- If the file can be loaded and the new servers have normal workspaces, the change is returned and
-- is what a later load finds: a deleted name is gone, another one stands for the last new server of
-- that name, or for what it was before.
pub update_local_servers-lookup :
    (now later : ℤ) (new deleted : List ServerMeta) (content : Content) (d : Dict ServerMeta)
    → load_local_servers now content ≡ ok d
    → All IsStorable new
    → (d' : Dict ServerMeta) × ((update_local_servers now new deleted content).0 ≡ ok d')
      × (load_local_servers later (update_local_servers now new deleted content).1 ≡ ok d')
      × ((j : String)
          → lookup j d'
            ≡ (if is_named j deleted then none else first_of_two (last_named j new) (lookup j d)))
unfolding update_local_servers
update_local_servers-lookup now later new deleted content d e a = (
  changed new deleted d,
  rw e refl,
  rw e (
      load_local_servers-dump later (changed new deleted d)
        (changed-IsStored new deleted d a (load_local_servers-IsStored now content d e))),
  λ j. lookup-changed j new deleted d,
)
