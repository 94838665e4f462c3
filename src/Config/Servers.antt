-- ===== src/Config/Servers.antt =====
-- `load_local_servers` and `update_local_servers`: the file of the servers that exist.
pub mod Stored
pub mod Update
use mathlib.Core.Option
use lobbyboy.Base.{
  Bool, true, String, List, [], ◌∷◌, Option, none, some, ◌===◌, if◌then◌else◌, is_empty, map,
}
use lobbyboy.Base.Int.{ℤ, pos}
use lobbyboy.Base.Dict.{Dict, lookup, insert, erase, update, values}
use lobbyboy.Exceptions.{type_error}
use lobbyboy.Act.{Result, ok, raised, running, Act, bind}
use lobbyboy.Paths.{FilePath, path_of, show_path}
use lobbyboy.Config.Types.{ServerMeta}

-- One JSON object of the file, with the values that it has of the types that the dataclass names,
-- and the keys that the dataclass does not know.
pub record Entry : Type 0 where
  pub provider_name : Option String
  pub workspace : Option String
  pub server_name : Option String
  pub server_host : Option String
  pub server_user : Option String
  pub server_port : Option ℤ
  pub created_timestamp : Option ℤ
  pub ssh_extra_args : Option (List String)
  pub manage : Option Bool
  pub unexpected : List String

-- The file is not there, is empty, is no JSON, or holds a JSON list of objects.
pub data Content : Type 0 where
  missing empty malformed : Content
  servers : List Entry → Content

-- `if self.workspace: self.workspace = Path(self.workspace)`
workspace_of : String → Option FilePath
workspace_of s = if s === "" then none else some (path_of s)

abbrev required : Option String → Result String
required none = raised type_error
required (some s) = ok s

-- `LBServerMeta(**i)` at the time `now`.
unfoldable pub server_of : ℤ → Entry → Result ServerMeta
unfolding workspace_of
server_of now i =
    if is_empty i.unexpected
    then bind (required i.provider_name) (λ provider. bind (required i.workspace) (λ workspace.
      bind (required i.server_name) (λ name. ok (record {
        provider_name = provider;
        workspace = workspace_of workspace;
        server_name = name;
        server_host = Option.get_or i.server_host "127.0.0.1";
        server_user = Option.get_or i.server_user "root";
        server_port = Option.get_or i.server_port (pos 22);
        created_timestamp = Option.get_or i.created_timestamp now;
        ssh_extra_args = Option.get_or i.ssh_extra_args [];
        manage = Option.get_or i.manage true;
      }))))
    else raised type_error

-- The loop of `load_local_servers`.
unfoldable pub read_servers : ℤ → List Entry → Dict ServerMeta → Result (Dict ServerMeta)
unfolding server_of insert
read_servers now [] d = ok d
read_servers now (i ∷ is) d =
    bind (server_of now i) (λ server. read_servers now is (insert server.server_name server d))

-- A file that cannot be read as JSON counts as one without servers.
unfoldable pub load_local_servers : ℤ → Content → Result (Dict ServerMeta)
unfolding read_servers
load_local_servers now missing = ok []
load_local_servers now empty = ok []
load_local_servers now malformed = ok []
load_local_servers now (servers is) = read_servers now is []

show_workspace : Option FilePath → String
show_workspace none = ""
show_workspace (some p) = show_path p

-- `asdict`, and `str` for the path.
unfoldable pub entry_of : ServerMeta → Entry
unfolding show_workspace
entry_of m = record {
  provider_name = some m.provider_name;
  workspace = some (show_workspace m.workspace);
  server_name = some m.server_name;
  server_host = some m.server_host;
  server_user = some m.server_user;
  server_port = some m.server_port;
  created_timestamp = some m.created_timestamp;
  ssh_extra_args = some m.ssh_extra_args;
  manage = some m.manage;
  unexpected = [];
}

-- What `update_local_servers` writes.
unfoldable pub dump : Dict ServerMeta → Content
unfolding entry_of
dump d = servers (map entry_of (values d))

-- `{server.server_name: server for server in new}`
unfoldable pub by_name : List ServerMeta → Dict ServerMeta → Dict ServerMeta
unfolding insert
by_name [] d = d
by_name (m ∷ ms) d = by_name ms (insert m.server_name m d)

unfoldable pub pop_all : List ServerMeta → Dict ServerMeta → Dict ServerMeta
unfolding erase
pop_all [] d = d
pop_all (m ∷ ms) d = pop_all ms (erase m.server_name d)

-- The dictionary after `new` has been added and `deleted` removed.
unfoldable pub changed : List ServerMeta → List ServerMeta → Dict ServerMeta → Dict ServerMeta
unfolding by_name pop_all update
changed new deleted d = pop_all deleted (update d (by_name new []))

abbrev written : Result (Dict ServerMeta) → Content → Content
written (ok d) old = dump d
written (raised _) old = old
written running old = old

unfoldable pub update_local_servers :
    ℤ → List ServerMeta → List ServerMeta → Act Content (Dict ServerMeta)
unfolding changed dump load_local_servers
update_local_servers now new deleted content =
    let result = bind (load_local_servers now content) (λ d. ok (changed new deleted d)) in
    (result, written result content)
