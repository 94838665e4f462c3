-- ===== src/Main/Made.antt =====
-- lobbyboy/main.py and lobbyboy/config.py: the providers that `main` makes from a configuration that has
-- been loaded.
use mathlib.Core.Option
use lobbyboy.Base.{◌≡◌, ◌≢◌, refl, ◌∙◌, String, List, [], ◌∷◌, Option, All, ◌⊎◌, inl, inr}
use lobbyboy.Base.Dict.{Dict, keys, NodupKeys}
use lobbyboy.Act.{Result, ok, Act}
use lobbyboy.Paths.{FilePath, joinpath}
use lobbyboy.Config.Types.{ConfigUser}
use lobbyboy.Config.Json.{Raw}
use lobbyboy.Config.File.{Config, RawConfig, DataDir, unset, empty, directory, in_data_dir, load}
use lobbyboy.Config.File.Enabled.{enabled_names, load-keys}
use lobbyboy.Config.File.On.{AreEnabled, enabled_names-AreEnabled}
use lobbyboy.Convert.{Value}
use lobbyboy.Config.File.Loaded.{AreConfigured, load-IsValid}
use lobbyboy.World.{Provider}
use lobbyboy.Main.{ProviderClass, new_provider, new_providers}

module _ {X C : Type 0} where
  -- The providers are made, one for each class.
  abbrev pub AreMade : Config C (ProviderClass X C) → Dict (ProviderClass X C) → Type 0
  AreMade config d =
      (ps : Dict (Provider X)) × (new_providers config d ≡ ok ps) × (keys ps ≡ keys d)

  -- The call of each class returns a provider under the name that the class has.
  abbrev pub AreMaking : Dict (ProviderClass X C) → Type 0
  AreMaking = All (λ (e : String × ProviderClass X C).
      (c : C) (workspace : FilePath) → (p : Provider X) × (e.1.new e.0 c workspace ≡ ok p))

  new_providers-AreMade :
      (config : Config C (ProviderClass X C)) (p : FilePath) (d : Dict (ProviderClass X C))
      → AreMaking d
      → config.data_dir ≡ directory p
      → AreConfigured config.provider d
      → AreMade config d
  unfolding new_providers new_provider in_data_dir
  new_providers-AreMade config p [] making e all = ([], refl, refl)
  new_providers-AreMade config p ((name, cls) ∷ d) (makes, making) e ((c, f), all) =
      let (q, made) = makes c (joinpath p name) in
      let (ps, g, h) = new_providers-AreMade config p d making e all in
      ((name, q) ∷ ps, rw (e, f, made, g) refl, rw (h) refl)

  unset_or :
      (config : Config C (ProviderClass X C)) (dir : DataDir)
      → config.data_dir ≡ dir
      → config.data_dir ≢ unset
      → AreMaking config.provider_cls
      → AreConfigured config.provider config.provider_cls
      → (config.data_dir ≡ empty) ⊎ AreMade config config.provider_cls
  unset_or config unset e set making all = absurd (set e)
  unset_or config empty e set making all = inl e
  unset_or config (directory p) e set making all =
      inr (new_providers-AreMade config p config.provider_cls making e all)

  named_by :
      (config : Config C (ProviderClass X C)) (names : List String)
      → keys config.provider_cls ≡ names
      → (config.data_dir ≡ empty) ⊎ AreMade config config.provider_cls
      → (config.data_dir ≡ empty)
        ⊎ ((ps : Dict (Provider X)) × (new_providers config config.provider_cls ≡ ok ps)
            × (keys ps ≡ names))
  named_by config names named (inl e) = inl e
  named_by config names named (inr (ps, e, f)) = inr (ps, e, f ∙ named)

  with_enabled :
      (config : Config C (ProviderClass X C)) (d : Dict (Value C Raw))
      → (config.data_dir ≡ empty)
        ⊎ ((ps : Dict (Provider X)) × (new_providers config config.provider_cls ≡ ok ps)
            × (keys ps ≡ enabled_names d))
      → (config.data_dir ≡ empty)
        ⊎ ((ps : Dict (Provider X)) × (new_providers config config.provider_cls ≡ ok ps)
            × AreEnabled d (keys ps))
  with_enabled config d (inl e) = inl e
  with_enabled config d (inr (ps, e, f)) = inr (ps, e, rw (f) (enabled_names-AreEnabled d))

  -- Where the names of the providers in the file are distinct, and the calls of the configured classes
  -- return, `main` makes, from a configuration that `load` returns, exactly the providers whose table is
  -- enabled, under their names and in their order, and does not raise. A table is enabled when it has
  -- no `enable`, or one that counts as true. The one exception is an empty text for `data_dir`, which
  -- `load` lets pass.
  pub load-AreMade :
      {M : Type 0} (import_module : String → Result M)
      (getattr : M → String → Option (ProviderClass X C))
      (toml_load : FilePath → Act X (RawConfig C)) (user_of : Raw → Result ConfigUser)
      (config_file : FilePath) (x y : X) (raw : RawConfig C) (config : Config C (ProviderClass X C))
      → toml_load config_file x ≡ (ok raw, y)
      → NodupKeys (Option.get_or raw.provider [])
      → (load import_module getattr
          (λ (cls : ProviderClass X C). cls.config)
          toml_load
          user_of
          config_file
          x).0
        ≡ ok config
      → AreMaking config.provider_cls
      → (config.data_dir ≡ empty)
        ⊎ ((ps : Dict (Provider X)) × (new_providers config config.provider_cls ≡ ok ps)
            × AreEnabled (Option.get_or raw.provider []) (keys ps))
  load-AreMade import_module getattr toml_load user_of config_file x y raw config e u h making =
      let class_config : ProviderClass X C → Raw → Result C = λ cls. cls.config in
      let (set, all) =
        load-IsValid import_module getattr class_config toml_load user_of config_file x config h in
      let named =
        load-keys import_module getattr class_config toml_load user_of config_file x y raw config e
          u h in
      with_enabled config (Option.get_or raw.provider []) (
        named_by config (enabled_names (Option.get_or raw.provider [])) named
          (unset_or config config.data_dir refl set making all))
