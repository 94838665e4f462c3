-- ===== src/Main/Own.antt =====
-- lobbyboy/main.py and lobbyboy/contrib/provider: the providers that `main` makes, and the servers that
-- they create.
use mathlib.Core.Path.{subst}
use lobbyboy.Base.{
  ◌≡◌, refl, sym, ap, ◌∙◌, String, [], ◌∷◌, Option, none, some, All, Bool-cases, inl, inr,
  if◌then◌else◌, ◌===◌, ===_iff,
}
use lobbyboy.Base.Dict.{Dict, lookup}
use lobbyboy.Act.{Result, ok, bind, bind-ok}
use lobbyboy.Convert.{Value, object, table, unknown}
use lobbyboy.Paths.{FilePath}
use lobbyboy.Config.Types.{ServerMeta}
use lobbyboy.Config.Json.{Raw}
use lobbyboy.Config.File.{Config, in_data_dir}
use lobbyboy.World.{Channel, Provider}
use lobbyboy.Contrib.Host.{Host}
use lobbyboy.Contrib.Local.{Programs}
use lobbyboy.Contrib.Own.BuiltIn.{BuiltIn, built_in, create_server-IsOwn}
use lobbyboy.Main.{ProviderClass, new_provider, new_providers}

module _ {X : Type 0} (host : Host X) (programs : Programs X) (x : X) where
  -- The class makes the providers of the repository.
  abbrev pub IsBuiltIn : ProviderClass X (BuiltIn X) → Type 0
  IsBuiltIn cls = cls.new ≡ (λ name b workspace. ok (built_in host programs x name b workspace))

  abbrev AreBuiltIn : Dict (ProviderClass X (BuiltIn X)) → Type 0
  AreBuiltIn = All (λ (e : String × ProviderClass X (BuiltIn X)). IsBuiltIn e.1)

  -- What a provider is like that a class has made.
  abbrev IsMade : String → Provider X → Type 0
  IsMade name p =
      (b : BuiltIn X) × (workspace : FilePath) × (p ≡ built_in host programs x name b workspace)

  new_provider-IsMade :
      (name : String) (cls : ProviderClass X (BuiltIn X)) (value : Option (Value (BuiltIn X) Raw))
      (workspace : Result FilePath) (p : Provider X)
      → IsBuiltIn cls
      → new_provider name cls value workspace ≡ ok p
      → IsMade name p
  unfolding new_provider
  new_provider-IsMade name cls none workspace p own h = absurd cc
  new_provider-IsMade name cls (some (table t)) workspace p own h = absurd cc
  new_provider-IsMade name cls (some (unknown t)) workspace p own h = absurd cc
  new_provider-IsMade name cls (some (object c)) workspace p own h =
      let (w, e, f) = bind-ok workspace (λ w. cls.new name c w) h in
      let made : ok (built_in host programs x name c w) ≡ ok p =
        sym (ap (λ new. new name c w) own) ∙ f in
      (c, w, cc made)

  new_providers-IsMade :
      (config : Config (BuiltIn X) (ProviderClass X (BuiltIn X)))
      (d : Dict (ProviderClass X (BuiltIn X))) (ps : Dict (Provider X)) (key : String)
      (p : Provider X)
      → AreBuiltIn d
      → new_providers config d ≡ ok ps
      → lookup key ps ≡ some p
      → IsMade key p
  unfolding new_providers lookup
  new_providers-IsMade config [] ps key p own h found =
      let e : ps ≡ [] = cc h in let g : lookup key ps ≡ none = rw (e) refl in absurd (cc (g, found))
  new_providers-IsMade config ((name, cls) ∷ d) ps key p own h found =
      let value = lookup name config.provider in
      let workspace = in_data_dir config.data_dir name in
      let (q, e, h') =
        bind-ok (new_provider name cls value workspace)
          (λ q. bind (new_providers config d) λ qs. ok ((name, q) ∷ qs)) h in
      let (qs, f, h'') = bind-ok (new_providers config d) (λ qs. ok ((name, q) ∷ qs)) h' in
      let all : ps ≡ (name, q) ∷ qs = cc h'' in
      let found' : (if key === name then some q else lookup key qs) ≡ some p =
        subst (λ (l : Dict (Provider X)). lookup key l ≡ some p) all found in
      elim (Bool-cases (key === name)) [
        | inl t ↦
            let same : q ≡ p =
              cc (subst (λ b. (if b then some q else lookup key qs) ≡ some p) t found') in
            let at : name ≡ key = sym ((===_iff key name).0 t) in
            subst (λ r. IsMade key r) same
              (subst (λ k. IsMade k q) at (new_provider-IsMade name cls value workspace q own.0 e))
        | inr t ↦
            new_providers-IsMade config d qs key p own.1 f
              (subst (λ b. (if b then some q else lookup key qs) ≡ some p) t found')
      ]

  -- Where every class is one of the repository's, the providers that `main` makes find each other's
  -- servers: a server that one of them creates names, as its provider, exactly that provider in the
  -- dictionary, which the killer and the handlers look it up in.
  pub created_server_is_found :
      (config : Config (BuiltIn X) (ProviderClass X (BuiltIn X))) (ps : Dict (Provider X))
      (key : String) (p : Provider X) (channel : Channel) (y : X) (meta : ServerMeta)
      → AreBuiltIn config.provider_cls
      → new_providers config config.provider_cls ≡ ok ps
      → lookup key ps ≡ some p
      → (p.create_server channel y).0 ≡ ok meta
      → lookup meta.provider_name ps ≡ some p
  created_server_is_found config ps key p channel y meta own h found made =
      let (b, workspace, e) =
        new_providers-IsMade config config.provider_cls ps key p own h found in
      let made' : ((built_in host programs x key b workspace).create_server channel y).0 ≡ ok meta =
        subst (λ (q : Provider X). (q.create_server channel y).0 ≡ ok meta) e made in
      let (named, _, _) =
        create_server-IsOwn host programs x b key workspace channel y meta made' in
      rw (named) found
