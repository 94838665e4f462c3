-- ===== src/Handler/Visit.antt =====
-- A visit of a server, from `_create_proxy_process` to `cleanup` (lobbyboy/socket_handle.py).

use mathlib.Core.Path.{subst}
use lobbyboy.Base.{
  ◌≡◌, refl, sym, ◌∙◌, ap, ◌≢◌, ℕ, Bool, String, List, [], ◌∷◌, ◌++◌, Option, some, ◌===◌, ===_iff,
  All, Bool-cases, inl, inr,
}
use lobbyboy.Act.{Result, ok, Void}
use lobbyboy.Config.Types.{ServerMeta}
use lobbyboy.World.{Channel, Transport, World, sessions_of}
use lobbyboy.Handler.Menu.{Site, create_proxy_process}
use lobbyboy.Handler.Close.{Peer, cleanup}
use lobbyboy.Handler.Registry.{Registered, create_proxy_process-Registered}
use lobbyboy.Handler.Leave.{Others, HasClosed, HasPeers, Removed, removed, stuck, cleanup-Removed}

-- Sessions that are connected, to others than the peer.
abbrev pub AreOther : (Transport → Option Peer) → Peer → List Transport → Type 0
AreOther peers p ts = All (λ t. (q : Peer) × (peers t ≡ some q) × (q ≢ p)) ts

-- Only the last session is of the peer.
Others-last :
    (peers : Transport → Option Peer) (p : Peer) (t : Transport) (ts us : List Transport)
    → peers t ≡ some p
    → AreOther peers p ts
    → Others peers p (ts ++ t ∷ []) us
    → us ≡ ts
Others-last peers p t [] us own a (inl (_, e)) = e
Others-last peers p t [] us own a (inr (q, e, n, vs, f, others)) = absurd (n (cc (own, e)))
Others-last peers p t (t' ∷ ts) us own ((q, e, n), a) (inl (f, _)) = absurd (n (cc (e, f)))
Others-last peers p t (t' ∷ ts) us own (_, a) (inr (q, e, n, vs, f, others)) =
    f ∙ ap (λ xs. t' ∷ xs) (Others-last peers p t ts vs own a others)

none_closed :
    (peers : Transport → Option Peer) (p : Peer) (t : Transport) (ts : List Transport)
    → peers t ≡ some p
    → AreOther peers p ts
    → ¬ HasClosed peers (ts ++ t ∷ [])
none_closed peers p t [] own a (inl down) = cc (own, down)
none_closed peers p t [] own a (inr down) = down
none_closed peers p t (t' ∷ ts) own ((q, e, n), a) (inl down) = cc (e, down)
none_closed peers p t (t' ∷ ts) own (_, a) (inr down) = none_closed peers p t ts own a down

pub sessions_of-same :
    {X : Type 0} (name : String) (w w' : World X)
    → w.sessions ≡ w'.sessions
    → sessions_of name w ≡ sessions_of name w'
unfolding sessions_of
sessions_of-same name w w' e = rw (e) refl

module _ {X : Type 0} (site : Site X) (peer : Transport → X → Option Peer)
    (law : HasPeers site.net peer) where
  -- What a removal leaves of sessions to which the transport has been added.
  Removed-restores :
      (t : Transport) (p : Peer) (made : ServerMeta) (w w₁ w₂ w' : World X) (pid : ℕ)
      (r : Result Void)
      → Registered t (ok (pid, made)) w w₁
      → w₂.sessions ≡ w₁.sessions
      → peer t w₂.env ≡ some p
      → AreOther (λ u. peer u w₂.env) p (sessions_of made.server_name w)
      → Removed peer t made.server_name w₂ r w'
      → (name : String) → sessions_of name w' ≡ sessions_of name w
  unfolding Registered
  Removed-restores t p made w w₁ w₂ w' pid r (here, there) same own fresh (removed q f others rest)
        name =
      elim (Bool-cases (name === made.server_name)) [
        | inl g ↦
            let name_is : name ≡ made.server_name = (===_iff name made.server_name).0 g in
            let p_is : q ≡ p = cc (own, f) in
            let before = sessions_of-same made.server_name w₂ w₁ same ∙ here in
            rw (name_is) (
              Others-last (λ u. peer u w₂.env) p t (sessions_of made.server_name w)
                (sessions_of made.server_name w') own fresh (rw (p_is, before) at others))
        | inr g ↦
            let elsewhere : name ≢ made.server_name =
              λ e. cc (sym g ∙ (===_iff name made.server_name).1 e) in
            rest name elsewhere ∙ sessions_of-same name w₂ w₁ same ∙ there name elsewhere
      ]
  Removed-restores t p made w w₁ w₂ w' pid r (here, there) same own fresh (stuck (inl down) _ _)
        name =
      absurd (cc (own, down))
  Removed-restores t p made w w₁ w₂ w' pid r (here, there) same own fresh (stuck (inr down) _ _)
        name =
      absurd (
        none_closed (λ u. peer u w₂.env) p t (sessions_of made.server_name w) own fresh
          (rw (sessions_of-same made.server_name w₂ w₁ same ∙ here) at down))

  -- A visit leaves the sessions as it found them: after `_create_proxy_process` has given a proxy and
  -- `cleanup` has left its server, with no session changed in between, every server has the sessions
  -- that it had. When `cleanup` begins, the visitor must be connected, and so must the sessions that
  -- the visited server had before, each from another peer; `getpeername` raises for a closed one.
  pub visit_restores :
      (channel : Channel) (slave_fd : Option ℕ) (pid : ℕ) (meta : ServerMeta) (check_destroy : Bool)
      (w w₁ w₂ : World X) (p : Peer)
      → create_proxy_process site channel slave_fd w ≡ (ok (pid, meta), w₁)
      → w₂.sessions ≡ w₁.sessions
      → peer (site.net.get_transport channel) w₂.env ≡ some p
      → AreOther (λ u. peer u w₂.env) p (sessions_of meta.server_name w)
      → (name : String)
      → sessions_of name
          (cleanup site
            (some channel)
            (some (site.net.get_transport channel))
            (some meta)
            check_destroy
            w₂).1
        ≡ sessions_of name w
  visit_restores channel slave_fd pid meta check_destroy w w₁ w₂ p e same own fresh name =
      let t = site.net.get_transport channel in
      let registered : Registered t (ok (pid, meta)) w w₁ =
        subst (λ (r : Result (ℕ × ServerMeta) × World X). Registered t r.0 w r.1) e
          (create_proxy_process-Registered site channel slave_fd w) in
      Removed-restores t p meta w w₁ w₂ _ pid _ registered same own fresh
        (cleanup-Removed site peer law (some channel) t meta check_destroy w₂) name
