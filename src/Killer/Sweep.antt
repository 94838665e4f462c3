-- ===== src/Killer/Sweep.antt =====
-- What `check_all_live_servers` does to the file of servers.
use lobbyboy.Base.{
  ◌≡◌, ◌≢◌, inl, inr, refl, ap, ◌∙◌, true, false, String, List, [], ◌∷◌, Option, none, some, arith,
  ◌===◌, ===_iff, Bool-cases,
}
use lobbyboy.Base.Int.{ℤ}
use lobbyboy.Base.Dict.{Dict, lookup, erase, NodupKeys, lookup-erase, erase-NodupKeys}
use lobbyboy.Act.{Result, ok, Void}
use lobbyboy.Config.Types.{ServerMeta}
use lobbyboy.Config.Servers.{load_local_servers, dump}
use lobbyboy.Config.Servers.Stored.{
  IsStored, AreStorable, erase-AreStorable, load_local_servers-dump,
}
use lobbyboy.World.{Transport, Provider, World}
use lobbyboy.Killer.{check_server, check_servers, check_all_live_servers}
use lobbyboy.Killer.Round.{Verdict, Called, broken_off, kept, gone, Leaves, check_server-Leaves}

nothing_in : (j : String) (m : ServerMeta) → lookup j [] ≢ some m
unfolding lookup
nothing_in j m f = cc f

module _ {X : Type 0} (now : X → ℤ) (providers : Dict (Provider X)) where
  -- What has become of a server: it was found due, the provider's call returned and it is gone, it was found not due and is there as
  -- before, or the round was broken off before it was done with and it is there as before.
  pub data Fate (sessions : Dict (List Transport)) (m : ServerMeta) (r : Result Void)
      (before after : Option ServerMeta) : Type 0 where
    destroyed :
        (v : Verdict now providers sessions m true)
        → Called now providers v
        → after ≡ none
        → Fate sessions m r before after
    spared :
        Verdict now providers sessions m false → after ≡ before → Fate sessions m r before after
    missed : r ≢ ok tt → after ≡ before → Fate sessions m r before after

  -- A pass over the servers `metas`, with `d` in the file before.
  pub record Swept (metas d : Dict ServerMeta) (w : World X) (r : Result Void) (w' : World X)
      : Type 0 where
    pub left : Dict ServerMeta
    pub db_is : w'.db ≡ dump left
    pub stored : IsStored left
    pub same_sessions : w'.sessions ≡ w.sessions
    pub others : (j : String) → lookup j metas ≡ none → lookup j left ≡ lookup j d
    pub fates :
        (j : String) (m : ServerMeta)
        → lookup j metas ≡ some m
        → Fate w.sessions m r (lookup j d) (lookup j left)

  abbrev pub Sweeps : Dict ServerMeta → Dict ServerMeta → World X → Result Void × World X → Type 0
  Sweeps metas d w (r, w') = Swept metas d w r w'

  stopped :
      (metas d : Dict ServerMeta) (w : World X) (r : Result Void) (w' : World X)
      → r ≢ ok tt
      → w'.db ≡ dump d
      → IsStored d
      → w'.sessions ≡ w.sessions
      → Swept metas d w r w'
  stopped metas d w r w' n e h same = record {
    left = d;
    db_is = e;
    stored = h;
    same_sessions = same;
    others = λ j a. refl;
    fates = λ j m f. missed n refl;
  }

  check_servers_step :
      (k : String) (m : ServerMeta) (metas : Dict ServerMeta) (w w₁ : World X)
      → check_server now providers m w ≡ (ok tt, w₁)
      → check_servers now providers ((k, m) ∷ metas) w ≡ check_servers now providers metas w₁
  unfolding check_servers
  check_servers_step k m metas w w₁ h = ground arith

  check_servers_stop :
      (k : String) (m : ServerMeta) (metas : Dict ServerMeta) (w w₁ : World X) (r : Result Void)
      → r ≢ ok tt
      → check_server now providers m w ≡ (r, w₁)
      → check_servers now providers ((k, m) ∷ metas) w ≡ (r, w₁)
  unfolding check_servers
  check_servers_stop k m metas w w₁ r n h = ground arith

  Fate-sessions :
      {S T : Dict (List Transport)} {m : ServerMeta} {r : Result Void}
      {before after : Option ServerMeta}
      → S ≡ T
      → Fate S m r before after
      → Fate T m r before after
  Fate-sessions same f = rw same at f

  -- The first server's fate is sealed, and the pass goes on from the state that it left.
  module _ (k : String) (m : ServerMeta) (metas d d₁ : Dict ServerMeta) (w w₁ : World X)
      (fresh : lookup k metas ≡ none) (elsewhere : (j : String) → j ≢ k → lookup j d₁ ≡ lookup j d)
      (same : w₁.sessions ≡ w.sessions)
      (mine : (r : Result Void) (after : Option ServerMeta)
        → after ≡ lookup k d₁
        → Fate w.sessions m r (lookup k d) after) where
    Fate-here :
        (r : Result Void) (w' : World X) (s : Swept metas d₁ w₁ r w') (j : String) (n : ServerMeta)
        → lookup j ((k, m) ∷ metas) ≡ some n
        → Fate w.sessions n r (lookup j d) (lookup j s.left)
    unfolding lookup
    Fate-here r w' s j n f = elim (Bool-cases (j === k)) [
      | inl here ↦
          let j_is : j ≡ k = (===_iff j k).0 here in
          let n_is : m ≡ n = ground arith in
          rw (j_is, ← n_is) (mine r (lookup k s.left) (s.others k fresh))
      | inr there ↦
          let away : j ≢ k = λ q. ground (arith, ===_iff j k) in
          let f' : lookup j metas ≡ some n = ground arith in
          rw (elsewhere j away) at (Fate-sessions same (s.fates j n f'))
    ]

    others_here :
        (r : Result Void) (w' : World X) (s : Swept metas d₁ w₁ r w') (j : String)
        → lookup j ((k, m) ∷ metas) ≡ none
        → lookup j s.left ≡ lookup j d
    unfolding lookup
    others_here r w' s j f =
        let away : j ≢ k = λ q. ground (arith, ===_iff j k) in
        let f' : lookup j metas ≡ none = ground arith in s.others j f' ∙ elsewhere j away

    carry_on :
        (r : Result Void) (w' : World X) → Swept metas d₁ w₁ r w' → Swept ((k, m) ∷ metas) d w r w'
    carry_on r w' s = record {
      left = s.left;
      db_is = s.db_is;
      stored = s.stored;
      same_sessions = s.same_sessions ∙ same;
      others = others_here r w' s;
      fates = Fate-here r w' s;
    }

  -- `check_server` at its outcome, with the pass over the other servers to follow.
  sweep_step :
      (k : String) (m : ServerMeta) (metas d : Dict ServerMeta) (w : World X)
      (c : Result Void × World X)
      → k ≡ m.server_name
      → lookup k metas ≡ none
      → w.db ≡ dump d
      → IsStored d
      → check_server now providers m w ≡ c
      → Leaves now providers m d w c
      → ((d₁ : Dict ServerMeta) (w₁ : World X)
          → w₁.db ≡ dump d₁
          → IsStored d₁
          → Sweeps metas d₁ w₁ (check_servers now providers metas w₁))
      → Sweeps ((k, m) ∷ metas) d w (check_servers now providers ((k, m) ∷ metas) w)
  sweep_step k m metas d w (r, w₁) named fresh e h ends (broken_off n db, same) rest =
      rw (check_servers_stop k m metas w w₁ r n ends)
        (stopped ((k, m) ∷ metas) d w r w₁ n (db ∙ e) h same)
  sweep_step k m metas d w (r, w₁) named fresh e h ends (kept done v db, same) rest =
      let ends' : check_server now providers m w ≡ (ok tt, w₁) = rw done at ends in
      rw (check_servers_step k m metas w w₁ ends') (
        carry_on k m metas d d w w₁ fresh (λ j a. refl) same (λ r' after q. spared v q) _ _
          (rest d w₁ (db ∙ e) h))
  sweep_step k m metas d w (r, w₁) named fresh e h ends (gone done v called db, same) rest =
      let ends' : check_server now providers m w ≡ (ok tt, w₁) = rw done at ends in
      let d₁ = erase m.server_name d in
      let absent : lookup k d₁ ≡ none =
        ground (arith, lookup-erase k m.server_name d, ===_iff k m.server_name) in
      rw (check_servers_step k m metas w w₁ ends') (
        carry_on k m metas d d₁ w w₁ fresh
          (λ j away. ground (arith, lookup-erase j m.server_name d, ===_iff j m.server_name)) same
          (λ r' after q. destroyed v called (q ∙ absent)) _ _
          (rest d₁ w₁ db (record {
            entries = erase-AreStorable m.server_name d h.entries;
            distinct = erase-NodupKeys m.server_name d h.distinct;
          })))

  check_servers-Sweeps :
      (metas d : Dict ServerMeta) (w : World X)
      → AreStorable metas
      → NodupKeys metas
      → w.db ≡ dump d
      → IsStored d
      → Sweeps metas d w (check_servers now providers metas w)
  unfolding check_servers
  check_servers-Sweeps [] d w a u e h = record {
    left = d;
    db_is = e;
    stored = h;
    same_sessions = refl;
    others = λ j f. refl;
    fates = λ j m f. absurd (nothing_in j m f);
  }
  check_servers-Sweeps ((k, m) ∷ metas) d w (named, storable, a) (fresh, u) e h =
      sweep_step k m metas d w (check_server now providers m w) named fresh e h refl
        (check_server-Leaves now providers m d w e h)
        (λ d₁ w₁ e₁ h₁. check_servers-Sweeps metas d₁ w₁ a u e₁ h₁)

  check_all_loaded :
      (d : Dict ServerMeta) (w : World X)
      → load_local_servers (now w.env) w.db ≡ ok d
      → check_all_live_servers now providers w ≡ check_servers now providers d w
  unfolding check_all_live_servers
  check_all_loaded d w h = ground arith

  pub check_all_live_servers-Sweeps :
      (d : Dict ServerMeta) (w : World X)
      → w.db ≡ dump d
      → IsStored d
      → Sweeps d d w (check_all_live_servers now providers w)
  check_all_live_servers-Sweeps d w e h =
      let loaded : load_local_servers (now w.env) w.db ≡ ok d =
        ap (load_local_servers (now w.env)) e ∙ load_local_servers-dump (now w.env) d h in
      rw (check_all_loaded d w loaded) (check_servers-Sweeps d d w h.entries h.distinct e h)
