-- ===== src/Handler/Leave.antt =====
-- `remove_server_session` and `cleanup` (lobbyboy/socket_handle.py), and what they do to
-- `active_session`, over connections of which some may be closed.

use lobbyboy.Base.{
  ◌≡◌, refl, ◌∙◌, ap, ◌≢◌, ◌⊎◌, Bool, true, false, String, List, [], ◌∷◌, Option, none, some,
  ===_iff, arith, Bool-cases, Option-cases, inl, inr, if◌then◌else◌,
}
use lobbyboy.Base.Dict.{lookup-insert_same, lookup-insert_other}
use lobbyboy.Exceptions.{os_error}
use lobbyboy.Act.{Result, ok, raised, Void, skip, ◌>>◌}
use lobbyboy.Config.Types.{ServerMeta}
use lobbyboy.World.{Channel, Transport, Net, World, sessions_of}
use lobbyboy.Handler.Menu.{Site}
use lobbyboy.Handler.Close.{
  Peer, same_peer, other_sessions, replace_sessions, remove_server_session, cleanup, leave,
  destroy_server_if_needed, shut, close_if,
}
use lobbyboy.Handler.Destroy.{end-Quiet, check-Quiet}
use lobbyboy.Handler.Quiet.{follow-Quiet}

-- `us` are the sessions `ts` without those of the peer `p`, where every one of `ts` has a peer.
abbrev pub Others : (Transport → Option Peer) → Peer → List Transport → List Transport → Type 0
Others peers p [] us = us ≡ []
Others peers p (t ∷ ts) us =
    ((peers t ≡ some p) × Others peers p ts us)
    ⊎ ((q : Peer) × (peers t ≡ some q)
        × (q ≢ p)
        × (vs : List Transport) × (us ≡ t ∷ vs)
        × Others peers p ts vs)

-- One of the sessions has no peer any more.
abbrev pub HasClosed : (Transport → Option Peer) → List Transport → Type 0
HasClosed peers [] = ⊥
HasClosed peers (t ∷ ts) = (peers t ≡ none) ⊎ HasClosed peers ts

-- `getpeername` gives the peer of a transport that is connected and raises an `OSError` for one that
-- is closed; it connects and closes none.
pub record HasPeers {X : Type 0} (net : Net X) (peer : Transport → X → Option Peer) : Type 0 where
  pub connected :
      (t : Transport) (x : X) (p : Peer)
      → peer t x ≡ some p
      → (y : X) × (net.getpeername t x ≡ (ok p, y)) × ((u : Transport) → peer u y ≡ peer u x)
  pub closed :
      (t : Transport) (x : X)
      → peer t x ≡ none
      → (y : X) × (net.getpeername t x ≡ (raised os_error, y))
        × ((u : Transport) → peer u y ≡ peer u x)

same_peer-true : (p q : Peer) → same_peer p q ≡ true → p ≡ q
unfolding same_peer
same_peer-true (a, m) (b, n) h =
    let e : a ≡ b = ground (arith, ===_iff a b) in let f : m ≡ n = ground arith in rw (e, f) refl

same_peer-false : (p q : Peer) → same_peer p q ≡ false → p ≢ q
unfolding same_peer
same_peer-false (a, m) (b, n) h e =
    let f : a ≡ b = ap (λ (p : Peer). p.0) e in
    let g : m ≡ n = ap (λ (p : Peer). p.1) e in ground (arith, ===_iff a b)

-- What a removal does to the sessions. When the transport is connected and so are all the sessions
-- of the server, those of the transport's own peer are taken off that server and no other changes;
-- when one of these is closed, it raises and no session changes.
pub data Removed {X : Type 0} (peer : Transport → X → Option Peer) (t : Transport) (name : String)
    (w : World X) (r : Result Void) (w' : World X) : Type 0 where
  removed :
      (p : Peer)
      → peer t w.env ≡ some p
      → Others (λ u. peer u w.env) p (sessions_of name w) (sessions_of name w')
      → ((other : String) → other ≢ name → sessions_of other w' ≡ sessions_of other w)
      → Removed peer t name w r w'
  stuck :
      (peer t w.env ≡ none) ⊎ HasClosed (λ u. peer u w.env) (sessions_of name w)
      → r ≡ raised os_error
      → w'.sessions ≡ w.sessions
      → Removed peer t name w r w'

module _ {X : Type 0} (site : Site X) (peer : Transport → X → Option Peer)
    (law : HasPeers site.net peer) where
  -- How the filter of the sessions ends, with the peers as they were at `x₀`.
  Filtered : X → Peer → List Transport → X → Type 0
  unfolding other_sessions
  Filtered x₀ p ts x =
      ((us : List Transport) × (y : X) × (other_sessions site p ts x ≡ (ok us, y))
        × Others (λ u. peer u x₀) p ts us)
      ⊎ (HasClosed (λ u. peer u x₀) ts
          × (y : X) × (other_sessions site p ts x ≡ (raised os_error, y)))

  -- The first session is connected, and the filter goes on with the others.
  filter_on :
      (x₀ : X) (p q : Peer) (t : Transport) (ts : List Transport) (x y : X)
      → peer t x₀ ≡ some q
      → site.net.getpeername t x ≡ (ok q, y)
      → Filtered x₀ p ts y
      → Filtered x₀ p (t ∷ ts) x
  unfolding Filtered other_sessions
  filter_on x₀ p q t ts x y here e (inr (h, z, f)) = inr (inr h, z, rw (e, f) refl)
  filter_on x₀ p q t ts x y here e (inl (us, z, f, others)) = elim (Bool-cases (same_peer q p)) [
    | inl s ↦
        let own : peer t x₀ ≡ some p = here ∙ ap some (same_peer-true q p s) in
        inl (us, z, rw (e, f, s) refl, inl (own, others))
    | inr s ↦
        inl (t ∷ us, z, rw (e, f, s) refl, inr (q, here, same_peer-false q p s, us, refl, others))
  ]

  other_sessions-Filtered :
      (x₀ : X) (p : Peer) (ts : List Transport) (x : X)
      → ((u : Transport) → peer u x ≡ peer u x₀)
      → Filtered x₀ p ts x
  unfolding Filtered other_sessions
  other_sessions-Filtered x₀ p [] x same = inl ([], x, refl, refl)
  other_sessions-Filtered x₀ p (t ∷ ts) x same = elim (Option-cases (peer t x₀)) [
    | inl down ↦ let (y, e, _) = law.closed t x (same t ∙ down) in inr (inl down, y, rw (e) refl)
    | inr (q, here) ↦
        let (y, e, keeps) = law.connected t x q (same t ∙ here) in
        filter_on x₀ p q t ts x y here e (other_sessions-Filtered x₀ p ts y (λ u. keeps u ∙ same u))
  ]

  -- An action on the sessions, at its outcome: it returns or it is stuck.
  abbrev Removes : Transport → String → World X → Result Void × World X → Type 0
  Removes t name w (r, w') = ((r ≡ ok tt) ⊎ (r ≡ raised os_error)) × Removed peer t name w r w'

  replace_sessions-Removes :
      (t : Transport) (p : Peer) (name : String) (ts : List Transport) (w : World X) (y : X)
      → peer t w.env ≡ some p
      → ((u : Transport) → peer u y ≡ peer u w.env)
      → sessions_of name w ≡ ts
      → Removes t name w (replace_sessions site p name ts (record w { env = y }))
  unfolding replace_sessions Filtered sessions_of
  replace_sessions-Removes t p name [] w y own same e =
      (inl refl, removed p own (rw (e) refl) (λ other d. refl))
  replace_sessions-Removes t p name (t' ∷ ts) w y own same e =
      elim (other_sessions-Filtered w.env p (t' ∷ ts) y same) [
        | inl (us, z, f, others) ↦ rw (f) (
          inl refl,
          removed p own (rw (e, lookup-insert_same name us w.sessions) others)
              (λ other d. rw (lookup-insert_other other name us w.sessions d) refl),
        )
        | inr (down, z, f) ↦ rw (f) (inr refl, stuck (inr (rw (e) down)) refl refl)
      ]

  pub remove_server_session-Removes :
      (t : Transport) (name : String) (w : World X)
      → Removes t name w (remove_server_session site t name w)
  unfolding remove_server_session sessions_of
  remove_server_session-Removes t name w = elim (Option-cases (peer t w.env)) [
    | inl down ↦
        let (y, e, _) = law.closed t w.env down in rw (e) (inr refl, stuck (inl down) refl refl)
    | inr (p, own) ↦
        let (y, e, same) = law.connected t w.env p own in
        rw (e) (replace_sessions-Removes t p name (sessions_of name w) w y own same refl)
  ]

  cleanup_after :
      (channel : Option Channel) (t : Transport) (meta : ServerMeta) (check_destroy : Bool)
      (w w₁ : World X)
      → remove_server_session site t meta.server_name w ≡ (ok tt, w₁)
      → (cleanup site channel (some t) (some meta) check_destroy w).1.sessions ≡ w₁.sessions
  unfolding cleanup leave
  cleanup_after channel t meta check_destroy w w₁ e = rw (e) (
      follow-Quiet (if check_destroy then destroy_server_if_needed site channel meta else skip)
        (λ _. shut site channel >> close_if site (some t))
        (check-Quiet site channel meta check_destroy) (λ _. end-Quiet site channel (some t)) w₁)

  cleanup_stuck :
      (channel : Option Channel) (t : Transport) (meta : ServerMeta) (check_destroy : Bool)
      (w w₁ : World X)
      → remove_server_session site t meta.server_name w ≡ (raised os_error, w₁)
      → cleanup site channel (some t) (some meta) check_destroy w ≡ (raised os_error, w₁)
  unfolding cleanup leave
  cleanup_stuck channel t meta check_destroy w w₁ e = rw (e) refl

  Removed-to :
      (t : Transport) (name : String) (w w₁ w' : World X) (r r' : Result Void)
      → w'.sessions ≡ w₁.sessions
      → (r ≡ raised os_error → r' ≡ raised os_error)
      → Removed peer t name w r w₁
      → Removed peer t name w r' w'
  unfolding sessions_of
  Removed-to t name w w₁ w' r r' same ends (removed p own others rest) =
      removed p own (rw (same) others) (λ other d. rw (same) (rest other d))
  Removed-to t name w w₁ w' r r' same ends (stuck c e s) = stuck c (ends e) (same ∙ s)

  -- `remove_server_session` at its outcome, with the rest of `cleanup` to follow.
  cleanup_behind :
      (channel : Option Channel) (t : Transport) (meta : ServerMeta) (check_destroy : Bool)
      (w : World X) (c : Result Void × World X)
      → remove_server_session site t meta.server_name w ≡ c
      → Removes t meta.server_name w c
      → let p = cleanup site channel (some t) (some meta) check_destroy w in
        Removed peer t meta.server_name w p.0 p.1
  cleanup_behind channel t meta check_destroy w (r, w₁) e (inl done, m) =
      let e' : remove_server_session site t meta.server_name w ≡ (ok tt, w₁) = rw done at e in
      Removed-to t meta.server_name w w₁
        (cleanup site channel (some t) (some meta) check_destroy w).1 r
        (cleanup site channel (some t) (some meta) check_destroy w).0
        (cleanup_after channel t meta check_destroy w w₁ e') (λ f. absurd (cc (done, f))) m
  cleanup_behind channel t meta check_destroy w (r, w₁) e (inr failed, m) =
      let e' : remove_server_session site t meta.server_name w ≡ (raised os_error, w₁) =
        rw failed at e in
      let stops = cleanup_stuck channel t meta check_destroy w w₁ e' in
      Removed-to t meta.server_name w w₁
        (cleanup site channel (some t) (some meta) check_destroy w).1 r
        (cleanup site channel (some t) (some meta) check_destroy w).0
        (ap (λ (q : Result Void × World X). q.1.sessions) stops)
        (λ f. ap (λ (q : Result Void × World X). q.0) stops) m

  -- `cleanup` with a server, over a network where `getpeername` raises for a closed connection: when
  -- the transport and all the sessions of the server are connected, it takes the sessions of the
  -- transport's own peer off that server, and no other, before it checks the server, so they are gone
  -- however the check, the destruction or the close that follow end, and no other server's sessions
  -- change. When the transport or one session of the server is closed, `cleanup` raises the `OSError`
  -- and no session changes.
  pub cleanup-Removed :
      (channel : Option Channel) (t : Transport) (meta : ServerMeta) (check_destroy : Bool)
      (w : World X)
      → let p = cleanup site channel (some t) (some meta) check_destroy w in
        Removed peer t meta.server_name w p.0 p.1
  cleanup-Removed channel t meta check_destroy w =
      cleanup_behind channel t meta check_destroy w
        (remove_server_session site t meta.server_name w) refl
        (remove_server_session-Removes t meta.server_name w)
