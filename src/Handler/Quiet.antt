-- ===== src/Handler/Quiet.antt =====
-- The steps of a handler up to the choice of a server, and `active_session`
-- (lobbyboy/socket_handle.py).

use lobbyboy.Base.{
  ◌≡◌, refl, ◌∙◌, ℕ, zero, suc, String, ◌<>◌, List, [], ◌∷◌, Option, none, some, get_elem?,
  is_empty, Bool-cases, inl, inr, length,
}
use lobbyboy.Base.Int.{ℤ}
use lobbyboy.Base.Dict.{keys, values}
use lobbyboy.Exceptions.{no_provider}
use lobbyboy.Act.{ok, Act, skip, pure, raise, ◌>>=◌, ◌>>◌, ending, returned, threw, still_running}
use lobbyboy.Config.Types.{ServerMeta}
use lobbyboy.Config.Servers.{update_local_servers, load_local_servers}
use lobbyboy.Text.Print.{decimal}
use lobbyboy.World.{on_db, outside, Channel, Provider, World}
use lobbyboy.Handler.Menu.{
  Site, choose_server, choose_providers, choose_among, offer, enter, ask_user_to_create_server,
  register, tell, choose_from, provider_or_raise, nth_or_raise, server_options, provider_prompt,
}

module _ {X : Type 0} where
  -- A statement that leaves every session where it is.
  abbrev pub Quiet : {A : Type 0} → Act (World X) A → Type 0
  Quiet m = (w : World X) → (m w).1.sessions ≡ w.sessions

module _ {X A B : Type 0} where
  pub follow-Quiet :
      (m : Act (World X) A) (f : A → Act (World X) B)
      → Quiet m
      → ((a : A) → Quiet (f a))
      → Quiet (m >>= f)
  follow-Quiet m f q p w = elim (ending (m w).0) [
    | returned a e ↦ rw (e) (p a (m w).1) ∙ q w
    | threw v e ↦ rw (e) (q w)
    | still_running e ↦ rw (e) (q w)
  ]

module _ {X : Type 0} where
  nth-Quiet : {A : Type 0} (o : Option A) → Quiet (nth_or_raise {X = World X} o)
  unfolding nth_or_raise
  nth-Quiet none w = refl
  nth-Quiet (some a) w = refl

  pub provider-Quiet : (o : Option (Provider X)) → Quiet (provider_or_raise o)
  unfolding provider_or_raise
  provider-Quiet none w = refl
  provider-Quiet (some p) w = refl

module _ {X : Type 0} (site : Site X) (channel : Channel) where
  pub tell-Quiet : (s : String) → Quiet (tell site channel s)
  unfolding tell
  tell-Quiet s w = refl

  choose_from-Quiet :
      (options : List String) (prompt : String) (ask : Option String) (default : Option ℤ)
      → Quiet (choose_from site channel options prompt ask default)
  unfolding choose_from
  choose_from-Quiet options prompt ask default w = refl

  register-Quiet : (meta : ServerMeta) → Quiet (register site channel meta)
  unfolding register
  register-Quiet meta =
      follow-Quiet (λ w. (ok (site.now w.env), w))
        (λ time. on_db (update_local_servers time (meta ∷ []) []) >> skip) (λ w. refl)
        λ time.
          follow-Quiet (on_db (update_local_servers time (meta ∷ []) [])) (λ _. skip) (λ w. refl)
            λ _ w. refl

  choose_among-Quiet : (names : List String) → Quiet (choose_among site channel names)
  unfolding choose_among
  choose_among-Quiet names =
      follow-Quiet
        (choose_from site channel names "Available VPS providers:" (some (provider_prompt names).0)
          (provider_prompt names).1)
        (λ n. nth_or_raise (get_elem? (values site.providers) n))
        (choose_from-Quiet names "Available VPS providers:" (some (provider_prompt names).0)
          (provider_prompt names).1)
        λ n. nth-Quiet (get_elem? (values site.providers) n)

  choose_providers-Quiet : Quiet (choose_providers site channel)
  unfolding choose_providers
  choose_providers-Quiet w = elim (Bool-cases (is_empty site.providers)) [
    | inl e ↦ rw (e) (
        follow-Quiet (tell site channel "There is no available providers.") (λ _. raise no_provider)
          (tell-Quiet "There is no available providers.") (λ _ w. refl) w)
    | inr e ↦ rw (e) (choose_among-Quiet (keys site.providers) w)
  ]

  create-Quiet :
      (p : Provider X)
      → Quiet
          (outside (p.create_server channel) >>= λ meta. register site channel meta >> pure meta)
  create-Quiet p =
      follow-Quiet (outside (p.create_server channel))
        (λ meta. register site channel meta >> pure meta) (λ w. refl)
        λ meta.
          follow-Quiet (register site channel meta) (λ _. pure meta) (register-Quiet meta)
            λ _ w. refl

  ask_user_to_create_server-Quiet : Quiet (ask_user_to_create_server site channel)
  unfolding ask_user_to_create_server
  ask_user_to_create_server-Quiet =
      follow-Quiet (choose_providers site channel)
        (λ p. outside (p.create_server channel) >>= λ meta. register site channel meta >> pure meta)
        choose_providers-Quiet create-Quiet

  enter-Quiet : (metas : List ServerMeta) (n : ℕ) → Quiet (enter site channel metas n)
  unfolding enter
  enter-Quiet metas zero = ask_user_to_create_server-Quiet
  enter-Quiet metas (suc n) = nth-Quiet (get_elem? metas n)

  offer-Quiet : (metas : List ServerMeta) → Quiet (offer site channel metas)
  unfolding offer
  offer-Quiet [] w =
      follow-Quiet (tell site channel "There is no available servers, provision a new server...")
        (λ _. ask_user_to_create_server site channel)
        (tell-Quiet "There is no available servers, provision a new server...")
        (λ _. ask_user_to_create_server-Quiet) w
  offer-Quiet (meta ∷ metas) w =
      let options = "Create a new server..." ∷ server_options site channel w (meta ∷ metas) in
      let prompt = "There are " <> decimal (length (meta ∷ metas)) <> " available servers:" in
      follow-Quiet (choose_from site channel options prompt none none)
        (enter site channel (meta ∷ metas)) (choose_from-Quiet options prompt none none)
        (enter-Quiet (meta ∷ metas)) w

  pub choose_server-Quiet : Quiet (choose_server site channel)
  unfolding choose_server
  choose_server-Quiet =
      follow-Quiet (λ w. (load_local_servers (site.now w.env) w.db, w))
        (λ servers. offer site channel (values servers)) (λ w. refl)
        λ servers. offer-Quiet (values servers)
