-- ===== src/Exceptions.antt =====
-- lobbyboy/exceptions.py: the exception classes, with those of Python that the program meets.
use lobbyboy.Base.{Bool, true, false, String}

pub data Exn : Type 0 where
  -- Subclasses of `LobbyBoyException` only.
  invalid_config time_str_parse_type unsupported_private_key_type user_cancel : Exn
  -- Subclasses of `ProviderException`. `provider` is the class itself, or a provider's own subclass.
  no_available_name no_provider no_tty vagrant cant_ensure_bytes : Exn
  provider : String → Exn
  -- Python's own. `plain` is `Exception` itself.
  plain type_error value_error key_error attribute_error zero_division unicode_decode : Exn
  file_not_found os_error index_error : Exn
  -- A third-party library's exception.
  foreign : String → Exn

-- `isinstance(e, ProviderException)`
abbrev pub is_provider_exception : Exn → Bool
is_provider_exception no_available_name = true
is_provider_exception no_provider = true
is_provider_exception no_tty = true
is_provider_exception vagrant = true
is_provider_exception cant_ensure_bytes = true
is_provider_exception (provider _) = true
is_provider_exception _ = false

-- `except UserCancelException`
abbrev pub is_user_cancel : Exn → Bool
is_user_cancel user_cancel = true
is_user_cancel _ = false
