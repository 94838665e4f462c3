-- ===== src/Handler/Created.antt =====
-- `_ask_user_to_create_server` (lobbyboy/socket_handle.py) and the file of servers.
use mathlib.Core.Path.{subst}
use lobbyboy.Base.{◌≡◌, true, refl, ◌∙◌, [], ◌∷◌, Option, some, ◌===◌, ===_iff}
use lobbyboy.Base.Int.{ℤ}
use lobbyboy.Base.Dict.{Dict, lookup}
use lobbyboy.Act.{ok, Void, skip, pure, gets, bind-ok, ◌>>◌, Triple, follow-Triple, after-Triple}
use lobbyboy.Config.Types.{ServerMeta}
use lobbyboy.Config.Servers.{changed, load_local_servers, update_local_servers}
use lobbyboy.Config.Servers.Stored.{IsStorable}
use lobbyboy.Config.Servers.Update.{update_local_servers-lookup, last_named, first_of_two}
use lobbyboy.World.{Channel, World, on_db, outside}
use lobbyboy.Handler.Menu.{Site, choose_providers, register, ask_user_to_create_server}

module _ {X : Type 0} (site : Site X) (channel : Channel) where
  -- The file holds the server, under its name, whenever it is read.
  abbrev pub IsListed : ServerMeta → World X → Type 0
  IsListed meta w =
      (later : ℤ)
      → (d : Dict ServerMeta) × (load_local_servers later w.db ≡ ok d)
        × (lookup meta.server_name d ≡ some meta)

  one_named :
      (meta : ServerMeta) (old : Option ServerMeta)
      → first_of_two (last_named meta.server_name (meta ∷ [])) old ≡ some meta
  one_named meta old =
      let t : (meta.server_name === meta.server_name) ≡ true =
        (===_iff meta.server_name meta.server_name).1 refl in
      rw (t) refl

  update-IsListed :
      (time : ℤ) (meta : ServerMeta)
      → Triple
          (λ _. Unit)
          (on_db (update_local_servers time (meta ∷ []) []))
          (λ _ w. IsStorable meta → IsListed meta w)
  unfolding update_local_servers
  update-IsListed time meta w u d' e storable later =
      let (d, f, _) =
        bind-ok (load_local_servers time w.db) (λ d. ok (changed (meta ∷ []) [] d)) e in
      let (d₂, _, g, at) =
        update_local_servers-lookup time later (meta ∷ []) [] w.db d f (storable, tt) in
      (d₂, g, at meta.server_name ∙ one_named meta (lookup meta.server_name d))

  register-IsListed :
      (meta : ServerMeta)
      → Triple (λ _. Unit) (register site channel meta) (λ _ w. IsStorable meta → IsListed meta w)
  unfolding register
  register-IsListed meta =
      let Q : Void → World X → Type 0 = λ _ w. IsStorable meta → IsListed meta w in
      after-Triple Q (gets (λ (w : World X). site.now w.env))
        (λ time. on_db (update_local_servers time (meta ∷ []) []) >> skip)
        λ time.
          follow-Triple Q (λ _. Unit) (λ _ w. IsStorable meta → IsListed meta w)
            (on_db (update_local_servers time (meta ∷ []) [])) (λ _. skip)
            (update-IsListed time meta) λ _ w listed u e. listed

  returned-IsListed :
      (meta : ServerMeta)
      → Triple
          (λ _. Unit)
          (register site channel meta >> pure meta)
          (λ m w. IsStorable m → IsListed m w)
  returned-IsListed meta =
      let Q : ServerMeta → World X → Type 0 = λ m w. IsStorable m → IsListed m w in
      follow-Triple Q (λ _. Unit) (λ _ w. IsStorable meta → IsListed meta w)
        (register site channel meta) (λ _. pure meta) (register-IsListed meta)
        λ _ w listed m e.
          let same : meta ≡ m = cc e in subst (λ (n : ServerMeta). Q n w) same listed

  asked-IsListed :
      Triple
        (λ _. Unit)
        (ask_user_to_create_server site channel)
        (λ m w. IsStorable m → IsListed m w)
  unfolding ask_user_to_create_server
  asked-IsListed =
      let Q : ServerMeta → World X → Type 0 = λ m w. IsStorable m → IsListed m w in
      after-Triple Q (choose_providers site channel) _
        λ p. after-Triple Q (outside (p.create_server channel)) _ returned-IsListed

  -- A server that `_ask_user_to_create_server` returns stands in the file of servers afterwards,
  -- under its name and as it was returned, at whatever time the file is read, if its workspace is a
  -- path in normal form or none.
  pub created_server_is_listed :
      (w : World X) (meta : ServerMeta) (later : ℤ)
      → (ask_user_to_create_server site channel w).0 ≡ ok meta
      → IsStorable meta
      → (d : Dict ServerMeta) × (load_local_servers later
            (ask_user_to_create_server site channel w).1.db
          ≡ ok d)
        × (lookup meta.server_name d ≡ some meta)
  created_server_is_listed w meta later h storable = asked-IsListed w tt meta h storable later
