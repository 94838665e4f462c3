-- ===== src/Config/Servers/Stored.antt =====
-- The file of servers, written and read (lobbyboy/config.py).
use mathlib.Core.List.{append-nil, append_assoc}
use lobbyboy.Base.{
  ◌≡◌, refl, sym, ap, ◌∙◌, String, List, [], ◌∷◌, ◌++◌, Option, none, some, arith, ◌===◌, ===_iff,
  Bool-cases, Option-cases, inl, inr, All, map,
}
use lobbyboy.Base.Int.{ℤ}
use lobbyboy.Base.Dict.{
  Dict, insert, erase, update, values, NodupKeys, insert_new, NodupKeys-append, insert-NodupKeys,
  erase-NodupKeys,
}
use lobbyboy.Act.{ok, bind-ok}
use lobbyboy.Paths.{FilePath, show_path}
use lobbyboy.Paths.Normal.{IsNormal, path_of-IsNormal, path_of-show_path, show_path-ne-empty}
use lobbyboy.Config.Types.{ServerMeta}
use lobbyboy.Config.Servers.{
  Entry, Content, missing, empty, malformed, servers, workspace_of, server_of, read_servers,
  load_local_servers, show_workspace, entry_of, dump, by_name, pop_all, changed,
}

-- The workspace is a path in normal form, as every `Path` is.
abbrev HasNormal : Option FilePath → Type 0
HasNormal none = Unit
HasNormal (some p) = IsNormal p

abbrev pub IsStorable : ServerMeta → Type 0
IsStorable m = HasNormal m.workspace

-- Every entry stands under the name of its server, and no name stands twice.
abbrev pub AreStorable : Dict ServerMeta → Type 0
AreStorable [] = Unit
AreStorable ((k, m) ∷ d) = (k ≡ m.server_name) × IsStorable m × AreStorable d

pub record IsStored (d : Dict ServerMeta) : Type 0 where
  pub entries : AreStorable d
  pub distinct : NodupKeys d

workspace_of-show_workspace :
    (w : Option FilePath) → HasNormal w → workspace_of (show_workspace w) ≡ w
unfolding workspace_of show_workspace
workspace_of-show_workspace none h = refl
workspace_of-show_workspace (some p) h =
    ground (arith, ===_iff (show_path p) "", show_path-ne-empty p h, path_of-show_path p h)

server_of-entry_of : (now : ℤ) (m : ServerMeta) → IsStorable m → server_of now (entry_of m) ≡ ok m
unfolding server_of entry_of
server_of-entry_of now m h = rw (workspace_of-show_workspace m.workspace h) refl

read_servers-dump :
    (now : ℤ) (d acc : Dict ServerMeta)
    → AreStorable d
    → NodupKeys (acc ++ d)
    → read_servers now (map entry_of (values d)) acc ≡ ok (acc ++ d)
unfolding read_servers
read_servers-dump now [] acc a u = rw append-nil refl
read_servers-dump now ((k, m) ∷ d) acc (named, storable, a) u =
    let placed : insert m.server_name m acc ≡ acc ++ (k, m) ∷ [] =
      ap (λ j. insert j m acc) (sym named) ∙ insert_new k m acc (NodupKeys-append k m acc d u) in
    rw (server_of-entry_of now m storable, placed)
      (read_servers-dump now d (acc ++ (k, m) ∷ []) a (rw append_assoc u) ∙ rw append_assoc refl)

-- Servers with normal workspaces, every one under its own name and no name twice, come back from the
-- file that they are written to.
pub load_local_servers-dump :
    (now : ℤ) (d : Dict ServerMeta) → IsStored d → load_local_servers now (dump d) ≡ ok d
unfolding load_local_servers dump
load_local_servers-dump now d h = read_servers-dump now d [] h.entries h.distinct

workspace_of-HasNormal : (s : String) → HasNormal (workspace_of s)
unfolding workspace_of
workspace_of-HasNormal s = elim (Bool-cases (s === "")) [
  | inl e ↦ rw e tt
  | inr e ↦ rw e (path_of-IsNormal s)
]

server_of-IsStorable :
    (now : ℤ) (i : Entry) (m : ServerMeta) → server_of now i ≡ ok m → IsStorable m
unfolding server_of
server_of-IsStorable now i m h = elim (Option-cases i.workspace) [
  | inl e ↦ absurd (ground arith)
  | inr (w, e) ↦
      let same : m.workspace ≡ workspace_of w = ground arith in rw same (workspace_of-HasNormal w)
]

insert-AreStorable :
    (m : ServerMeta) (d : Dict ServerMeta)
    → IsStorable m
    → AreStorable d
    → AreStorable (insert m.server_name m d)
unfolding insert
insert-AreStorable m [] s a = (refl, s, tt)
insert-AreStorable m ((j, w) ∷ d) s (named, storable, a) =
    ground (arith, ===_iff m.server_name j, insert-AreStorable m d s a)

pub erase-AreStorable : (k : String) (d : Dict ServerMeta) → AreStorable d → AreStorable (erase k d)
unfolding erase
erase-AreStorable k [] a = tt
erase-AreStorable k ((j, w) ∷ d) (named, storable, a) = ground (arith, erase-AreStorable k d a)

insert-IsStored :
    (m : ServerMeta) (d : Dict ServerMeta)
    → IsStorable m
    → IsStored d
    → IsStored (insert m.server_name m d)
insert-IsStored m d s h = record {
  entries = insert-AreStorable m d s h.entries;
  distinct = insert-NodupKeys m.server_name m d h.distinct;
}

nothing : (d : Dict ServerMeta) → ok [] ≡ ok d → IsStored d
nothing d h = let same : [] ≡ d = cc h in rw (← same) (record { entries = tt; distinct = tt })

read_servers-IsStored :
    (now : ℤ) (is : List Entry) (acc d : Dict ServerMeta)
    → IsStored acc
    → read_servers now is acc ≡ ok d
    → IsStored d
unfolding read_servers
read_servers-IsStored now [] acc d s h = let same : acc ≡ d = cc h in rw same at s
read_servers-IsStored now (i ∷ is) acc d s h =
    let (m, e, h') =
      bind-ok (server_of now i)
        (λ server. read_servers now is (insert server.server_name server acc)) h in
    read_servers-IsStored now is (insert m.server_name m acc) d
      (insert-IsStored m acc (server_of-IsStorable now i m e) s) h'

-- Whatever the file holds, the servers that are read from it have normal workspaces, and every one
-- stands under its own name and no name twice.
pub load_local_servers-IsStored :
    (now : ℤ) (content : Content) (d : Dict ServerMeta)
    → load_local_servers now content ≡ ok d
    → IsStored d
unfolding load_local_servers
load_local_servers-IsStored now missing d h = nothing d h
load_local_servers-IsStored now empty d h = nothing d h
load_local_servers-IsStored now malformed d h = nothing d h
load_local_servers-IsStored now (servers is) d h =
    read_servers-IsStored now is [] d (record { entries = tt; distinct = tt }) h

by_name-IsStored :
    (ms : List ServerMeta) (d : Dict ServerMeta)
    → All IsStorable ms
    → IsStored d
    → IsStored (by_name ms d)
unfolding by_name
by_name-IsStored [] d a h = h
by_name-IsStored (m ∷ ms) d (s, a) h = by_name-IsStored ms _ a (insert-IsStored m d s h)

update-IsStored : (e d : Dict ServerMeta) → AreStorable e → IsStored d → IsStored (update d e)
unfolding update
update-IsStored [] d a h = h
update-IsStored ((k, m) ∷ e) d (named, s, a) h =
    update-IsStored e _ a (rw named (insert-IsStored m d s h))

pop_all-IsStored :
    (ms : List ServerMeta) (d : Dict ServerMeta) → IsStored d → IsStored (pop_all ms d)
unfolding pop_all
pop_all-IsStored [] d h = h
pop_all-IsStored (m ∷ ms) d h = pop_all-IsStored ms _ (record {
  entries = erase-AreStorable m.server_name d h.entries;
  distinct = erase-NodupKeys m.server_name d h.distinct;
})

pub changed-IsStored :
    (new deleted : List ServerMeta) (d : Dict ServerMeta)
    → All IsStorable new
    → IsStored d
    → IsStored (changed new deleted d)
unfolding changed
changed-IsStored new deleted d a h = pop_all-IsStored deleted _ (
    update-IsStored (by_name new []) d
      (by_name-IsStored new [] a (record { entries = tt; distinct = tt })).entries h)
