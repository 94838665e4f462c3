-- ===== src/Config/File/Loaded.antt =====
-- `LBConfig.load` (lobbyboy/config.py): what a configuration that is loaded is like.
use mathlib.Core.Path.{subst}
use mathlib.Core.Option
use lobbyboy.Base.{
  ◌≡◌, ◌≢◌, refl, ap, ◌∙◌, false, String, [], ◌∷◌, Option, none, some, ◌===◌, if◌then◌else◌,
  Bool-cases, inl, inr,
}
use lobbyboy.Base.Dict.{Dict, lookup, insert, lookup-insert, lookup-insert_same}
use lobbyboy.Act.{
  Result, ok, raised, Act, bind, bind-ok, lift, Returns, follow-Returns, then-Returns,
}
use lobbyboy.Convert.{Value, object, table, unknown, confirm_dc_type}
use lobbyboy.Exceptions.{invalid_config}
use lobbyboy.Paths.{FilePath}
use lobbyboy.Config.Types.{ConfigUser}
use lobbyboy.Config.Json.{text, Raw}
use lobbyboy.Config.File.{
  Config, RawConfig, unset, new_config, validate, validated, is_enabled, import_load_module,
  set_provider, load_provider, load_providers, confirm_users, confirm_data_type, load,
}

module _ {C : Type 0} where
  -- A configuration of a provider that has been made.
  abbrev pub IsObject : Option (Value C Raw) → Type 0
  IsObject v = (c : C) × (v ≡ some (object c))

  insert-IsObject :
      (key name : String) (c : C) (d : Dict (Value C Raw))
      → IsObject (lookup key d)
      → IsObject (lookup key (insert name (object c) d))
  insert-IsObject key name c d (c', e) = elim (Bool-cases (key === name)) [
    | inl t ↦ (c, lookup-insert key name (object c) d ∙ rw (t) refl)
    | inr t ↦ (c', lookup-insert key name (object c) d ∙ rw (t) e)
  ]

  inserted-IsObject :
      (name : String) (c : C) (d : Dict (Value C Raw))
      → IsObject (lookup name (insert name (object c) d))
  inserted-IsObject name c d = (c, lookup-insert_same name (object c) d)

module _ {C K : Type 0} where
  -- Every class has the configuration of its provider.
  abbrev pub AreConfigured : Dict (Value C Raw) → Dict K → Type 0
  AreConfigured provider [] = Unit
  AreConfigured provider ((name, _) ∷ d) =
      IsObject (lookup name provider) × AreConfigured provider d

  provider-AreConfigured :
      (name : String) (c : C) (provider : Dict (Value C Raw)) (d : Dict K)
      → AreConfigured provider d
      → AreConfigured (insert name (object c) provider) d
  provider-AreConfigured name c provider [] p = tt
  provider-AreConfigured name c provider ((key, _) ∷ d) (is, p) =
      (insert-IsObject key name c provider is, provider-AreConfigured name c provider d p)

  insert-AreConfigured :
      (name : String) (cls : K) (provider : Dict (Value C Raw)) (d : Dict K)
      → IsObject (lookup name provider)
      → AreConfigured provider d
      → AreConfigured provider (insert name cls d)
  unfolding insert
  insert-AreConfigured name cls provider [] is p = (is, tt)
  insert-AreConfigured name cls provider ((key, k) ∷ d) is p = elim (Bool-cases (name === key)) [
    | inl t ↦ rw (t) p
    | inr t ↦ rw (t) (p.0, insert-AreConfigured name cls provider d is p.1)
  ]

  abbrev IsLoaded : Config C K → Type 0
  IsLoaded config = AreConfigured config.provider config.provider_cls

  unset-validate : (config : Config C K) → config.data_dir ≡ unset → validate config ≡ false
  unfolding validate
  unset-validate config e = rw (e) refl

module _ {C K M : Type 0} (import_module : String → Result M) (getattr : M → String → Option K)
    (config_of : K → Raw → Result C) where
  set_provider-IsLoaded :
      (name : String) (t : Raw) (cls : Option K) (config config' : Config C K)
      → IsLoaded config
      → set_provider import_module getattr config_of name t cls config ≡ ok config'
      → IsLoaded config'
  unfolding set_provider confirm_dc_type
  set_provider-IsLoaded name t none config config' p h = absurd cc
  set_provider-IsLoaded name t (some cls) config config' p h =
      let next : Value C Raw → Config C K = λ v. record config {
        provider = insert name v config.provider;
        provider_cls = insert name cls config.provider_cls;
      } in
      let (v, e, f) = bind-ok (confirm_dc_type (config_of cls) (table t)) (λ v. ok (next v)) h in
      let (c, _, g) = bind-ok (config_of cls t) (λ c. ok (object c)) e in
      let made : object c ≡ v = cc g in
      let this : next v ≡ config' = cc f in
      let made' : next (object c) ≡ config' = ap next made ∙ this in
      let provider : Dict (Value C Raw) = insert name (object c) config.provider in
      subst IsLoaded made' (
        insert-AreConfigured name cls provider config.provider_cls
          (inserted-IsObject name c config.provider)
          (provider-AreConfigured name c config.provider config.provider_cls p))

  load_provider-IsLoaded :
      (name : String) (v : Value C Raw) (config config' : Config C K)
      → IsLoaded config
      → load_provider import_module getattr config_of name v config ≡ ok config'
      → IsLoaded config'
  unfolding load_provider
  load_provider-IsLoaded name (object c) config config' p h = absurd cc
  load_provider-IsLoaded name (unknown t) config config' p h = absurd cc
  load_provider-IsLoaded name (table t) config config' p h =
      let load_module = Option.get_or (lookup "load_module" t) (text "") in
      let imported = import_load_module import_module getattr config_of load_module in
      let set : Option K → Result (Config C K) =
        λ cls. set_provider import_module getattr config_of name t cls config in
      elim (Bool-cases (is_enabled t)) [
        | inl e ↦
            let (cls, _, f) =
              bind-ok imported set
                (subst (λ b. (if b then bind imported set else ok config) ≡ ok config') e h) in
            set_provider-IsLoaded name t cls config config' p f
        | inr e ↦
            let f : ok config ≡ ok config' =
              subst (λ b. (if b then bind imported set else ok config) ≡ ok config') e h in
            let same : config ≡ config' = cc f in subst IsLoaded same p
      ]

  load_providers-IsLoaded :
      (d : Dict (Value C Raw)) (config config' : Config C K)
      → IsLoaded config
      → load_providers import_module getattr config_of d config ≡ ok config'
      → IsLoaded config'
  unfolding load_providers
  load_providers-IsLoaded [] config config' p h =
      let same : config ≡ config' = cc h in subst IsLoaded same p
  load_providers-IsLoaded ((name, v) ∷ d) config config' p h =
      let (c, e, f) =
        bind-ok (load_provider import_module getattr config_of name v config)
          (λ c. load_providers import_module getattr config_of d c) h in
      load_providers-IsLoaded d c config' (load_provider-IsLoaded name v config c p e) f

  confirm-IsLoaded :
      (user_of : Raw → Result ConfigUser) (config config' : Config C K)
      → IsLoaded config
      → confirm_data_type import_module getattr config_of user_of config ≡ ok config'
      → IsLoaded config'
  unfolding confirm_data_type
  confirm-IsLoaded user_of config config' p h =
      let (user, _, f) =
        bind-ok (confirm_users user_of config.user)
          (λ user.
            load_providers import_module getattr config_of config.provider
              (record config { user = user }))
          h in
      load_providers-IsLoaded config.provider (record config { user = user }) config' p f

  -- What `load` returns: a configuration with a data directory, each class with its configuration.
  abbrev pub IsValid : Config C K → Type 0
  IsValid config = (config.data_dir ≢ unset) × IsLoaded config

  validated-IsValid :
      (config config' : Config C K)
      → IsLoaded config
      → validated import_module getattr config_of config ≡ ok config'
      → IsValid config'
  unfolding validated validate
  validated-IsValid config config' p h = elim (Bool-cases (validate config)) [
    | inl t ↦
        let same : config ≡ config' =
          cc (subst (λ b. (if b then ok config else raised invalid_config) ≡ ok config') t h) in
        subst IsValid same
          (λ e. let f : validate config ≡ false = unset-validate config e in absurd (cc (f, t)), p)
    | inr t ↦
        absurd (cc (subst (λ b. (if b then ok config else raised invalid_config) ≡ ok config') t h))
  ]

  pub load-IsValid :
      {X : Type 0} (toml_load : FilePath → Act X (RawConfig C)) (user_of : Raw → Result ConfigUser)
      (config_file : FilePath)
      → Returns IsValid (load import_module getattr config_of toml_load user_of config_file)
  unfolding load new_config
  load-IsValid toml_load user_of config_file =
      follow-Returns IsValid (toml_load config_file) _ λ raw.
        then-Returns IsLoaded IsValid
          (lift (
            confirm_data_type import_module getattr config_of user_of (new_config config_file raw)))
          (λ config. lift (validated import_module getattr config_of config))
          (λ x config e. confirm-IsLoaded user_of (new_config config_file raw) config tt e)
          λ config p x config' e. validated-IsValid config config' p e
