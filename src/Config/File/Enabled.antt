-- ===== src/Config/File/Enabled.antt =====
-- `LBConfig.confirm_data_type` (lobbyboy/config.py): which providers have a class.
use mathlib.Core.Path.{subst}
use mathlib.Core.List.{append_assoc, append-nil}
use mathlib.Core.Option
use lobbyboy.Base.{
  ◌≡◌, refl, sym, ap, ◌∙◌, Bool, true, false, String, List, [], ◌∷◌, ◌++◌, Option, none, some,
  if◌then◌else◌, Bool-cases, inl, inr,
}
use lobbyboy.Base.Dict.{
  Dict, lookup, insert, keys, NodupKeys, Fresh, insert-Fresh, empty-Fresh, keys-insert_new,
}
use lobbyboy.Act.{
  Result, ok, raised, Act, bind, bind-ok, lift, follow, ◌>>=◌, then-ok, follow-returned,
}
use lobbyboy.Exceptions.{invalid_config}
use lobbyboy.Convert.{Value, object, table, unknown, confirm_dc_type}
use lobbyboy.Paths.{FilePath}
use lobbyboy.Config.Types.{ConfigUser}
use lobbyboy.Config.Json.{text, Raw}
use lobbyboy.Config.File.{
  Config, RawConfig, new_config, validate, validated, is_enabled, import_load_module, set_provider,
  load_provider, load_providers, confirm_users, confirm_data_type, load,
}

module _ {C : Type 0} where
  -- The names of the tables that are enabled, in their order.
  unfoldable pub enabled_names : Dict (Value C Raw) → List String
  unfolding is_enabled
  enabled_names [] = []
  enabled_names ((name, table t) ∷ d) =
      let rest = enabled_names d in if is_enabled t then name ∷ rest else rest
  enabled_names ((name, object c) ∷ d) = enabled_names d
  enabled_names ((name, unknown t) ∷ d) = enabled_names d

module _ {C K M : Type 0} (import_module : String → Result M) (getattr : M → String → Option K)
    (config_of : K → Raw → Result C) where
  set_provider-cls :
      (name : String) (t : Raw) (cls : Option K) (config config' : Config C K)
      → set_provider import_module getattr config_of name t cls config ≡ ok config'
      → (k : K) × (config'.provider_cls ≡ insert name k config.provider_cls)
  unfolding set_provider
  set_provider-cls name t none config config' h = absurd cc
  set_provider-cls name t (some k) config config' h =
      let next : Value C Raw → Config C K = λ v. record config {
        provider = insert name v config.provider;
        provider_cls = insert name k config.provider_cls;
      } in
      let (v, _, f) = bind-ok (confirm_dc_type (config_of k) (table t)) (λ v. ok (next v)) h in
      let this : next v ≡ config' = cc f in (k, sym (ap (λ (c : Config C K). c.provider_cls) this))

  -- What a round adds to the classes.
  abbrev IsAdded : Bool → String → Dict K → Dict K → Type 0
  IsAdded b name old new = if b then ((k : K) × (new ≡ insert name k old)) else (new ≡ old)

  load_table-IsAdded :
      (name : String) (t : Raw) (config config' : Config C K)
      → load_provider import_module getattr config_of name (table t) config ≡ ok config'
      → IsAdded (is_enabled t) name config.provider_cls config'.provider_cls
  unfolding load_provider
  load_table-IsAdded name t config config' h =
      let load_module = Option.get_or (lookup "load_module" t) (text "") in
      let imported = import_load_module import_module getattr config_of load_module in
      let set : Option K → Result (Config C K) =
        λ cls. set_provider import_module getattr config_of name t cls config in
      elim (Bool-cases (is_enabled t)) [
        | inl e ↦
            let (cls, _, f) =
              bind-ok imported set
                (subst (λ b. (if b then bind imported set else ok config) ≡ ok config') e h) in
            subst (λ b. IsAdded b name config.provider_cls config'.provider_cls) (sym e)
              (set_provider-cls name t cls config config' f)
        | inr e ↦
            let f : ok config ≡ ok config' =
              subst (λ b. (if b then bind imported set else ok config) ≡ ok config') e h in
            let same : config ≡ config' = cc f in
            subst (λ b. IsAdded b name config.provider_cls config'.provider_cls) (sym e)
              (ap (λ (c : Config C K). c.provider_cls) (sym same))
      ]

  added-keys :
      (b : Bool) (name : String) (old new : Dict K) (d : Dict (Value C Raw))
      → IsAdded b name old new
      → lookup name old ≡ none
      → lookup name d ≡ none
      → Fresh old d
      → Fresh new d
        × (keys new ++ enabled_names d
            ≡ keys old ++ (if b then name ∷ enabled_names d else enabled_names d))
  added-keys true name old new d (k, e) here next fresh = (
    rw (e) (insert-Fresh name k old d next fresh),
    rw (e, keys-insert_new name k old here, append_assoc) refl,
  )
  added-keys false name old new d e here next fresh = (rw (e) fresh, rw (e) refl)

  load_providers-keys :
      (d : Dict (Value C Raw)) (config config' : Config C K)
      → NodupKeys d
      → Fresh config.provider_cls d
      → load_providers import_module getattr config_of d config ≡ ok config'
      → keys config'.provider_cls ≡ keys config.provider_cls ++ enabled_names d
  unfolding load_providers enabled_names load_provider
  load_providers-keys [] config config' u fresh h =
      let same : config' ≡ config = cc h in
      ap (λ (c : Config C K). keys c.provider_cls) same ∙ rw (append-nil) refl
  load_providers-keys ((name, object c) ∷ d) config config' u fresh h = absurd (cc h)
  load_providers-keys ((name, unknown t) ∷ d) config config' u fresh h = absurd (cc h)
  load_providers-keys ((name, table t) ∷ d) config config' (new, u) (here, fresh) h =
      let (c, e, f) =
        bind-ok (load_provider import_module getattr config_of name (table t) config)
          (λ c. load_providers import_module getattr config_of d c) h in
      let (fresh', g) =
        added-keys (is_enabled t) name config.provider_cls c.provider_cls d
          (load_table-IsAdded name t config c e) here new fresh in
      load_providers-keys d c config' u fresh' f ∙ g

  validated-same :
      (config config' : Config C K)
      → validated import_module getattr config_of config ≡ ok config'
      → config' ≡ config
  unfolding validated
  validated-same config config' h = elim (Bool-cases (validate config)) [
    | inl t ↦ cc (subst (λ b. (if b then ok config else raised invalid_config) ≡ ok config') t h)
    | inr t ↦
        absurd (cc (subst (λ b. (if b then ok config else raised invalid_config) ≡ ok config') t h))
  ]

  confirm-keys :
      (user_of : Raw → Result ConfigUser) (file : FilePath) (raw : RawConfig C)
      (config : Config C K)
      → NodupKeys (Option.get_or raw.provider [])
      → confirm_data_type import_module getattr config_of user_of (new_config file raw) ≡ ok config
      → keys config.provider_cls ≡ enabled_names (Option.get_or raw.provider [])
  unfolding confirm_data_type new_config
  confirm-keys user_of file raw config u h =
      let start : Config C K = new_config file raw in
      let (user, _, f) =
        bind-ok (confirm_users user_of start.user)
          (λ user.
            load_providers import_module getattr config_of start.provider
              (record start { user = user }))
          h in
      load_providers-keys (Option.get_or raw.provider []) (record start { user = user }) config u
        (empty-Fresh K (Option.get_or raw.provider [])) f

  -- The classes of a configuration that has been loaded are those of the enabled tables of its file.
  pub load-keys :
      {X : Type 0} (toml_load : FilePath → Act X (RawConfig C)) (user_of : Raw → Result ConfigUser)
      (config_file : FilePath) (x y : X) (raw : RawConfig C) (config : Config C K)
      → toml_load config_file x ≡ (ok raw, y)
      → NodupKeys (Option.get_or raw.provider [])
      → (load import_module getattr config_of toml_load user_of config_file x).0 ≡ ok config
      → keys config.provider_cls ≡ enabled_names (Option.get_or raw.provider [])
  unfolding load
  load-keys toml_load user_of config_file x y raw config e u h =
      let confirmed : RawConfig C → Result (Config C K) = λ raw.
        confirm_data_type import_module getattr config_of user_of (new_config config_file raw) in
      let valid : Config C K → Result (Config C K) =
        λ c. validated import_module getattr config_of c in
      let h' : (follow (confirmed raw) (λ c. lift (valid c)) y).0 ≡ ok config =
        ap (λ r. r.0)
          (sym (
            follow-returned (toml_load config_file)
              (λ raw. lift (confirmed raw) >>= λ c. lift (valid c)) x y raw e))
        ∙ h in
      let (c, f, g) = then-ok (confirmed raw) (λ c. lift (valid c)) y h' in
      ap (λ (c : Config C K). keys c.provider_cls) (validated-same c config f)
      ∙ confirm-keys user_of config_file raw c u g
