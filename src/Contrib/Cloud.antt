-- ===== src/Contrib/Cloud.antt =====
-- lobbyboy/contrib/provider: what the providers of digitalocean.py, linode.py and vultr.py share: the
-- choice of a server's region, size and image, and the steps before and after a creation.
pub mod Favorite
use mathlib.Core.Option
use lobbyboy.Base.{
  ℕ, zero, suc, Bool, String, ◌<>◌, List, [], ◌∷◌, Option, none, some, given, get_elem?,
}
use lobbyboy.Base.Dict.{lookup}
use lobbyboy.Exceptions.{value_error, index_error, key_error}
use lobbyboy.Act.{Result, ok, raised, running, Act, Void, raise, pure, ◌>>=◌, ◌>>◌}
use lobbyboy.Text.Split.{split}
use lobbyboy.Paths.{FilePath}
use lobbyboy.Config.Json.{Json, Raw}
use lobbyboy.Config.Types.{ConfigProvider}
use lobbyboy.World.{Channel}
use lobbyboy.Terminal.{choose_option}
use lobbyboy.BaseProvider.{generate_default_server_name}
use lobbyboy.Contrib.Host.{
  Host, Base, tell, time_process, open_workspace, save_raw_server, port_is_open,
  collection_ssh_keys,
}

-- `LBConfigProvider` with `favorite_instance_types`.
pub record CloudConfig : Type 0 where
  pub base : ConfigProvider
  pub favorite_instance_types : List String

-- The three parts that a choice consists of.
abbrev pub Choice : Type 0
Choice = String × String × String

-- `a, b, c = parts`
unfoldable pub three_parts : {X : Type 0} → List String → Act X Choice
three_parts (a ∷ b ∷ c ∷ []) = pure (a, b, c)
three_parts _ = raise value_error

unfoldable pub booted_text : String → String
booted_text server_name = "Server " <> server_name <> " has boot successfully!"

-- `xs[i]`
unfoldable pub item : {X A : Type 0} → List A → ℕ → Act X A
item xs i = elim (get_elem? xs i) [ none ↦ raise index_error | some a ↦ pure a ]

-- `data[key]`
unfoldable pub member : {X : Type 0} → String → Raw → Act X Json
unfolding lookup
member key obj = elim (lookup key obj) [ none ↦ raise key_error | some v ↦ pure v ]

module _ {X : Type 0} (host : Host X) where
  -- `os.getenv(ENV_TOKEN_NAME) or config.api_token`
  unfoldable pub token : String → ConfigProvider → X → Option String
  token name config x = elim (given (host.getenv name x)) [
    | none ↦ config.api_token
    | some t ↦ some t
  ]

  -- `choose_option(channel, options, ask_prompt=…)`
  unfoldable pub choose : Channel → List String → String → Act X ℕ
  unfolding choose_option
  choose channel options ask_prompt =
      choose_option host.net channel host.rounds host.times options none (some ask_prompt) none

  -- The list item that the user chooses by its line.
  unfoldable pub choose_item : {A : Type 0} → Channel → List A → List String → String → Act X A
  unfolding choose item
  choose_item channel items lines ask_prompt = do i ← choose channel lines ask_prompt; item items i

  -- What follows the choice of one of the options: the first one asks on, another is taken apart.
  unfoldable pub on_choice : Act X Choice → ℕ → String → Act X Choice
  unfolding three_parts split
  on_choice manually zero user_selected = manually
  on_choice manually (suc i) user_selected = three_parts (split b':' user_selected)

  unfoldable pub ask_user_customize :
      Channel → String → String → List String → Act X Choice → Act X Choice
  unfolding choose item on_choice
  ask_user_customize channel manual_option ask_prompt favorites manually =
      let options = manual_option ∷ favorites in
      do
        user_selected_idx ← choose channel options ask_prompt
        user_selected ← item options user_selected_idx
        on_choice manually user_selected_idx user_selected

  -- The name, the workspace and the keys of a new server.
  unfoldable pub prepare : Channel → Base → Act X (String × FilePath × List String)
  unfolding generate_default_server_name open_workspace collection_ssh_keys
  prepare channel self = do
    server_name ←
        generate_default_server_name host.system self.workspace
          self.provider_config.server_name_prefix
    server_workspace ← open_workspace host channel self server_name
    ssh_keys ← collection_ssh_keys host self (some server_workspace)
    pure (server_name, server_workspace, ssh_keys)

  -- The last steps: the wait for the port of a server, at the address that it has.
  unfoldable pub wait_for_boot : Channel → String → Act X Bool → Act X Void
  unfolding tell time_process booted_text
  wait_for_boot channel server_name is_open = do
    tell host channel "Waiting for server to boot..."
    time_process host channel "port is open" is_open 3
    tell host channel (booted_text server_name)
