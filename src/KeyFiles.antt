-- ===== src/KeyFiles.antt =====
-- lobbyboy/utils.py: `KeyTypeSupport`, and the pairs of keys that are kept in files.
pub mod Kept
use mathlib.Core.Option
use lobbyboy.Base.{
  ℕ, zero, suc, Bool, true, false, not, ◌&&◌, String, ◌<>◌, Option, none, some, ◌===◌, ◌==◌,
  if◌then◌else◌, given,
}
use lobbyboy.Exceptions.{unsupported_private_key_type, attribute_error, file_not_found}
use lobbyboy.Act.{Result, ok, raised, running, Act, Void, skip, raise, pure, ◌>>=◌, ◌>>◌}
use lobbyboy.Paths.{FilePath, joinpath}

pub data KeyType : Type 0 where
  rsa dss ed25519 ecdsa : KeyType

unfoldable pub default_key_length : KeyType → ℕ
default_key_length rsa = 3072
default_key_length dss = 1024
default_key_length ed25519 = 256
default_key_length ecdsa = 256

-- `key_type.key.lower()`
unfoldable pub lower_key : KeyType → String
lower_key rsa = "rsa"
lower_key dss = "dss"
lower_key ed25519 = "ed25519"
lower_key ecdsa = "ecdsa"

-- The files of the system, and the keys that paramiko generates, as the texts of both halves.
pub record Files (X : Type 0) : Type 0 where
  pub exists : FilePath → X → Bool
  pub read : FilePath → Act X String
  pub write : FilePath → String → Act X Void
  pub mkdir : FilePath → Act X Void
  pub chmod : FilePath → ℕ → Act X Void
  pub generate : KeyType → ℕ → Act X (String × String)

-- `key_name or f"id_{…}"`
unfoldable pub file_name : KeyType → Option String → String
unfolding lower_key
file_name key_type key_name = Option.get_or (given key_name) ("id_" <> lower_key key_type)

-- `key_len or key_type.default_key_length`
unfoldable pub length_or_default : KeyType → Option ℕ → ℕ
unfolding default_key_length
length_or_default key_type none = default_key_length key_type
length_or_default key_type (some zero) = default_key_length key_type
length_or_default key_type (some (suc n)) = suc n

unfoldable pub private_key_file : FilePath → String → FilePath
unfolding joinpath
private_key_file path key_name = joinpath path key_name

unfoldable pub public_key_file : FilePath → String → FilePath
unfolding joinpath
public_key_file path key_name = joinpath path (key_name <> ".pub")

-- Whether a text counts as true.
abbrev pub is_given : String → Bool
is_given s = not (s === "")

module _ {X : Type 0} (files : Files X) where
  -- The branches on the type; the enumeration has no member `Ed25519` that the fourth one names.
  unfoldable pub generate_for : KeyType → ℕ → Act X (String × String)
  generate_for rsa bits = files.generate rsa bits
  generate_for dss bits = files.generate dss bits
  generate_for ecdsa bits = files.generate ecdsa bits
  generate_for ed25519 bits = raise attribute_error

  unfoldable pub generate_ssh_key_pair : KeyType → Option ℕ → Act X (String × String)
  unfolding generate_for length_or_default
  generate_ssh_key_pair key_type key_len =
      if length_or_default key_type key_len == 0
      then raise unsupported_private_key_type
      else generate_for key_type (length_or_default key_type key_len)

  -- The writes of both files.
  unfoldable pub write_pair : FilePath → FilePath → String × String → Act X (String × String)
  write_pair private public (pri_key, pub_key) = do
    files.write private pri_key
    files.chmod private 0o600
    files.write public pub_key
    files.chmod public 0o600
    pure (pri_key, pub_key)

  unfoldable pub write_at : FilePath → FilePath → String × String → Act X (String × String)
  unfolding write_pair
  write_at private public pair x =
      if files.exists private x && files.exists public x
      then (ok pair, x)
      else write_pair private public pair x

  unfoldable pub write_key_to_file :
      String × String → KeyType → FilePath → Option String → Act X (String × String)
  unfolding write_at file_name private_key_file public_key_file
  write_key_to_file pair key_type save_path key_name = do
    files.mkdir save_path
    write_at (private_key_file save_path (file_name key_type key_name))
        (public_key_file save_path (file_name key_type key_name)) pair

  -- The text of a file, or no text where there is no file.
  unfoldable pub read_if : FilePath → Act X String
  read_if path x = if files.exists path x then files.read path x else (ok "", x)

  unfoldable pub check_loaded : Bool → String × String → Act X (String × String)
  check_loaded raise_error (pri_key, pub_key) =
      if not (is_given pri_key && is_given pub_key) && raise_error
      then raise file_not_found
      else pure (pri_key, pub_key)

  unfoldable pub try_load_key_from_file :
      FilePath → KeyType → Bool → Option String → Act X (String × String)
  unfolding read_if check_loaded file_name private_key_file public_key_file
  try_load_key_from_file from_path key_type raise_error key_name = do
    pri_key ← read_if (private_key_file from_path (file_name key_type key_name))
    pub_key ← read_if (public_key_file from_path (file_name key_type key_name))
    check_loaded raise_error (pri_key, pub_key)

  -- `if pri_key and pub_key: return …`, with what follows it.
  unfoldable pub loaded_or : String × String → Act X (String × String) → Act X (String × String)
  loaded_or (pri_key, pub_key) otherwise =
      if is_given pri_key && is_given pub_key then pure (pri_key, pub_key) else otherwise

  unfoldable pub confirm_ssh_key_pair :
      FilePath → KeyType → Option ℕ → Option String → Act X (String × String)
  unfolding try_load_key_from_file loaded_or generate_ssh_key_pair write_key_to_file
  confirm_ssh_key_pair save_path key_type key_len key_name = do
    loaded ← try_load_key_from_file save_path key_type false key_name
    loaded_or loaded (do
      pair ← generate_ssh_key_pair key_type key_len
      write_key_to_file pair key_type save_path key_name)
