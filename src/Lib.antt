-- ===== src/Lib.antt =====
-- A model of lobbyboy, an SSH server that lets a user enter a server of some cloud, creates one when
-- asked to, and destroys it when nobody uses it and its billing cycle is about to end.
--
-- The parts and their files (paths of the program from the root of the repository):
--   Exceptions    lobbyboy/exceptions.py, and the exceptions of Python that the code meets.
--   Duration      lobbyboy/utils.py: `to_seconds` and `humanize_seconds`.
--   Terminal      lobbyboy/utils.py: `send_to_channel`, `read_user_input_line`, `choose_option`.
--   KeyFiles      lobbyboy/utils.py: `confirm_ssh_key_pair` and the functions that it calls.
--   Config        lobbyboy/config.py: the dataclasses (Types), `auth_key_pairs` (Users) and the file of
--                 servers with `load_local_servers` and `update_local_servers` (Servers); `LBConfig`
--                 with `load` and `confirm_data_type` (File).
--   Killer        lobbyboy/server_killer.py: `need_destroy`, `destroy`, `check_all_live_servers` and
--                 `patrol`.
--   Server        lobbyboy/server.py: the requests of an SSH client, and its fields as a `Session`.
--   BaseProvider  lobbyboy/provider.py: names of servers, the timed check, the ssh command.
--   Handler       lobbyboy/socket_handle.py: the menus (Menu), the shell (Shell), the end of a
--                 connection (Close) and `run` (Run).
--   Convert       lobbyboy/utils.py: `dict_factory`, `encoder_factory`, `confirm_dc_type`, `import_class`.
--   Contrib       lobbyboy/contrib/provider: what the providers take from lobbyboy/provider.py and
--                 lobbyboy/utils.py (Host), the steps that the cloud providers repeat (Cloud) and those
--                 that run programs (Local), the libraries of the clouds (Library), and a module per
--                 provider: Vultr, Linode, DigitalOcean, Vagrant, Footloose, Ignite, Multipass. All seven
--                 as one type are in Own.BuiltIn.
--   Main          lobbyboy/main.py: the providers that are made, the socket, `runserver` and `main`.
--   Act           statements that raise, change a state or go on: results with the state they leave.
--   World         what the threads share: the file of servers and `active_session`, and the outside.
--   Base, Text, Paths
--                 lists, dictionaries, integers, UTF-8, decimal digits, and paths of `pathlib`.
--   Tests         runs at concrete inputs.
--
-- The killer and every handler act on one `World`: a handler registers its transport in
-- `active_session` and its servers in the file, and the killer reads both. Definitions carry the names
-- of the methods; a method that is longer than a few statements is cut into named steps.
--
-- Outside calls (paramiko, the cloud providers, processes, descriptors, directories, the clock) are
-- fields of the records `Net`, `Provider`, `Site`, `Line`, `Terminals`, `Keys`, `Files`, `System`,
-- `Sockets`, `Host`, `Programs`, `Listener` and, for each cloud, a `Client` of its library, acting on a
-- type `X` of outside states. Laws of them are hypotheses of the theorems that need them:
-- `IsStream` (a channel gives the bytes of the client one by one), `HasPeers` (a connected transport
-- has a peer, and a closed one raises when it is asked for it), `AreMaking` (the calls of the classes
-- return), `Makes` (a directory that is made exists), `IsDisk` (a file keeps what is written, and a key
-- is generated without one), `IsKeeper` (a file keeps the data of a server, and the network leaves it
-- alone), `GivesIds` (the data of an instance holds its id), `AreFigures` (the statistics of an
-- instance are not a text), and `IsPipe` (a terminal takes a front of what is written and tells its
-- length, and a channel takes a message in full or raises).
--
-- Loops without a bound of their own take a number of rounds, and give `running` when it is used up:
-- the lines of a dialogue are read in full when there are more rounds than bytes, and a choice is made
-- when there are as many questions as lines. The patrol and the loop of a shell go on for ever.
-- A thread's step is one statement of the model; the locks around the file and the sessions are not
-- modelled, since each statement under a lock is one step here.
--
-- Not modelled: logging, the parsing of arguments, and lobbyboy/scripts.py, which prints a file. TOML,
-- JSON, `str.format` and floats are parameters: a float comes as the text that Python writes. A
-- message of an exception is not kept. A numeral of `int` is read with the decimal digits of Unicode.
pub mod Base
pub mod Exceptions
pub mod Act
pub mod Text
pub mod Duration
pub mod Paths
pub mod Config
pub mod World
pub mod Killer
pub mod KeyFiles
pub mod Terminal
pub mod Server
pub mod BaseProvider
pub mod Handler
pub mod Convert
pub mod Contrib
pub mod Main
mod Tests
