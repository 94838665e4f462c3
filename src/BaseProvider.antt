-- ===== src/BaseProvider.antt =====
-- lobbyboy/provider.py: what `BaseProvider` does itself, over the clock and the directories.
pub mod Names
pub mod Checks
use mathlib.Core.Option
use lobbyboy.Base.{
  ℕ, zero, suc, ◌+◌, Bool, true, false, String, ◌<>◌, List, [], ◌∷◌, ◌++◌, Option, none, some,
  given, if◌then◌else◌,
}
use lobbyboy.Base.Int.{ℤ}
use lobbyboy.Exceptions.{no_available_name}
use lobbyboy.Act.{
  Result, ok, raised, running, Act, Void, skip, raise, pure, lift, gets, ◌>>=◌, ◌>>◌,
}
use lobbyboy.Text.Print.{decimal, show_ℤ}
use lobbyboy.Paths.{FilePath, path_of, show_path, joinpath}
use lobbyboy.Config.Types.{ServerMeta}
use lobbyboy.World.{Channel, Net}
use lobbyboy.Terminal.{Message, str, send_with, send_inline, send_to_channel}

-- The calls of the system: `Path.exists`, `Path.mkdir(parents=True)`, the time as
-- `strftime("%Y-%m-%d-%H%M")` writes it, `time.sleep`, and the seconds since a start as `round` writes
-- them with two digits.
pub record System (X : Type 0) : Type 0 where
  pub exists : FilePath → X → Bool
  pub mkdir : FilePath → Act X Void
  pub minute : X → String
  pub sleep : ℕ → Act X Void
  pub time : X → ℕ
  pub elapsed : ℕ → ℕ → String

-- `["", *string.ascii_lowercase]`
abbrev pub suffixes : List String
suffixes =
    "" ∷ "a" ∷ "b" ∷ "c" ∷ "d" ∷ "e" ∷ "f" ∷ "g" ∷ "h" ∷ "i" ∷ "j" ∷ "k" ∷ "l" ∷ "m" ∷ "n" ∷ "o"
    ∷ "p" ∷ "q" ∷ "r" ∷ "s" ∷ "t" ∷ "u" ∷ "v" ∷ "w" ∷ "x" ∷ "y" ∷ "z" ∷ []

-- The name behind the prefix.
unfoldable pub stem : Option String → String → String
stem none minute = minute
stem (some prefix) minute = prefix <> "-" <> minute

module _ {X : Type 0} (system : System X) (workspace : FilePath) where
  -- The loop over the suffixes.
  unfoldable pub find_name : String → List String → Act X String
  unfolding joinpath
  find_name server_name [] = raise no_available_name
  find_name server_name (suffix ∷ rest) =
      let later = find_name server_name rest in
      λ x.
        if system.exists (joinpath workspace (server_name <> suffix)) x
        then later x
        else (do
          system.mkdir (joinpath workspace (server_name <> suffix))
          pure (server_name <> suffix))
            x

  unfoldable pub generate_default_server_name : Option String → Act X String
  unfolding find_name stem
  generate_default_server_name server_name_prefix = do
    minute ← gets system.minute
    find_name (stem (given server_name_prefix) minute) suffixes

module _ {X : Type 0} (system : System X) (net : Net X) (channel : Channel) where
  -- What follows a call of the action; `again` is the rest of the loop.
  unfoldable pub on_result : ℕ → Bool → Act X Bool → Act X Bool
  unfolding send_to_channel
  on_result start_at true again = do
    now ← gets system.time
    send_to_channel net channel (str ("OK(" <> system.elapsed start_at now <> "s)."))
    pure true
  on_result start_at false again = again

  -- The loop over the checks, with so many left; `give_up` stands behind it.
  unfoldable pub check_loop : Act X Bool → Act X Bool → ℕ → ℕ → ℕ → Act X Bool
  unfolding send_inline on_result
  check_loop action give_up zero interval start_at = give_up
  check_loop action give_up (suc left) interval start_at = do
    send_inline net channel (str ".")
    res ← action
    on_result start_at res
        (system.sleep interval >> check_loop action give_up left interval start_at)

  unfoldable pub give_up : String → ℕ → Act X Bool
  unfolding send_to_channel
  give_up action_name max_check = do
    send_to_channel net channel (
        str (
          "\n I have checked "
          <> decimal max_check
          <> " times for action "
          <> action_name
          <> ", still not finished, give up..."))
    pure false

  -- `action_name` is the name of the action with its underscores as spaces.
  unfoldable pub time_process_action : String → Act X Bool → ℕ → ℕ → Act X Bool
  unfolding check_loop give_up send_inline
  time_process_action action_name action max_check interval = do
    send_inline net channel (str ("Check " <> action_name))
    start_at ← gets system.time
    check_loop action (give_up action_name max_check) max_check interval start_at

-- `workspace or self.workspace`, with the key's name in lower case.
unfoldable pub default_private_key_path : FilePath → Option FilePath → String → FilePath
unfolding joinpath
default_private_key_path own workspace key_name =
    joinpath (Option.get_or workspace own) (".ssh/id_" <> key_name)

unfoldable pub ssh_server_command : FilePath → ServerMeta → Option FilePath → List String
unfolding default_private_key_path show_path
ssh_server_command own meta pri_key_path =
    "ssh"
    ∷ "-i"
    ∷ show_path (Option.get_or pri_key_path (default_private_key_path own meta.workspace "rsa"))
    ∷ "-o"
    ∷ "StrictHostKeyChecking=no"
    ∷ "-p"
    ∷ show_ℤ meta.server_port
    ∷ "-l"
    ∷ meta.server_user
    ∷ (meta.ssh_extra_args ++ meta.server_host ∷ [])
