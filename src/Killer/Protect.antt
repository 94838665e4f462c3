-- ===== src/Killer/Protect.antt =====
-- What no round of the patrol touches, and what ends the patrol.
use lobbyboy.Base.{
  ℕ, suc, ◌≡◌, ◌≢◌, ◌⊎◌, inl, inr, refl, sym, ◌∙◌, true, false, String, List, [], ◌∷◌, Option, none,
  some, arith, length,
}
use lobbyboy.Base.Int.{ℤ}
use lobbyboy.Base.Dict.{Dict, lookup}
use lobbyboy.Act.{Result, ok, Act, Void}
use lobbyboy.Config.Types.{ServerMeta}
use lobbyboy.Config.Servers.{dump}
use lobbyboy.Config.Servers.Stored.{IsStored}
use lobbyboy.World.{Transport, Provider, World, sessions_of}
use lobbyboy.Killer.{check_all_live_servers, patrol}
use lobbyboy.Killer.Decision.{need_destroy_exact}
use lobbyboy.Killer.Round.{Verdict}
use lobbyboy.Killer.Sweep.{Fate, destroyed, spared, missed, check_all_live_servers-Sweeps}

no_elements : {A : Type 0} (xs : List A) → length xs ≡ 0 → xs ≡ []
no_elements [] h = refl
no_elements (x ∷ xs) h = absurd (omega arith)

sessions_of_same :
    {X : Type 0} (name : String) (w v : World X)
    → w.sessions ≡ v.sessions
    → sessions_of name w ≡ sessions_of name v
unfolding sessions_of
sessions_of_same name w v h = rw h refl

module _ {X : Type 0} (now : X → ℤ) (providers : Dict (Provider X)) where
  not_due :
      (S : Dict (List Transport)) (w : World X) (m : ServerMeta)
      → w.sessions ≡ S
      → (m.manage ≡ false) ⊎ (sessions_of m.server_name w ≢ [])
      → ¬ Verdict now providers S m true
  not_due S w m same (inl unmanaged) v =
      let d = (need_destroy_exact now v.provider m v.at).0 (v.reason, v.said) in
      cc (unmanaged, d.managed)
  not_due S w m same (inr used) v =
      let d = (need_destroy_exact now v.provider m v.at).0 (v.reason, v.said) in
      used (
        sessions_of_same m.server_name w v.at (same ∙ sym v.same)
        ∙ no_elements (sessions_of m.server_name v.at) d.unused)

  protected :
      (w : World X) (m : ServerMeta) (r : Result Void) (after : Option ServerMeta)
      → (m.manage ≡ false) ⊎ (sessions_of m.server_name w ≢ [])
      → Fate now providers w.sessions m r (some m) after
      → after ≡ some m
  protected w m r after safe (destroyed v called q) = absurd (not_due w.sessions w m refl safe v)
  protected w m r after safe (spared v q) = q
  protected w m r after safe (missed n q) = q

  -- Whatever a round does and however it ends, a server that has an active session, or that is not
  -- managed here, stands in the file as before.
  pub check_all_live_servers_protects :
      (d : Dict ServerMeta) (w : World X)
      → w.db ≡ dump d
      → IsStored d
      → (left : Dict ServerMeta) × ((check_all_live_servers now providers w).1.db ≡ dump left)
        × ((j : String) (m : ServerMeta)
            → lookup j d ≡ some m
            → (m.manage ≡ false) ⊎ (sessions_of m.server_name w ≢ [])
            → lookup j left ≡ some m)
  check_all_live_servers_protects d w e h =
      let s = check_all_live_servers-Sweeps now providers d w e h in
      (
        s.left,
        s.db_is,
        λ j m f safe.
            protected w m (check_all_live_servers now providers w).0 (lookup j s.left) safe
              (rw f at (s.fates j m f)),
      )

  unknown :
      (S : Dict (List Transport)) (m : ServerMeta) (r : Result Void)
      (before after : Option ServerMeta)
      → lookup m.provider_name providers ≡ none
      → Fate now providers S m r before after
      → r ≢ ok tt
  unknown S m r before after absent (destroyed v called q) = cc (absent, v.is_known)
  unknown S m r before after absent (spared v q) = cc (absent, v.is_known)
  unknown S m r before after absent (missed n q) = n

  patrol_stop :
      (sleep : ℕ → Act X Void) (rounds cycle_sec : ℕ) (w : World X) (c : Result Void × World X)
      → c.0 ≢ ok tt
      → check_all_live_servers now providers w ≡ c
      → patrol now providers sleep (suc rounds) cycle_sec w ≡ c
  unfolding patrol
  patrol_stop sleep rounds cycle_sec w c n h = ground arith

  -- One server in the file whose provider is not configured ends the patrol in its first round, for
  -- good: however many rounds it could go on, it does no more than this one, which does not return.
  pub patrol_unknown_provider :
      (sleep : ℕ → Act X Void) (rounds cycle_sec : ℕ) (d : Dict ServerMeta) (w : World X)
      (j : String) (m : ServerMeta)
      → w.db ≡ dump d
      → IsStored d
      → lookup j d ≡ some m
      → lookup m.provider_name providers ≡ none
      → (patrol now providers sleep (suc rounds) cycle_sec w
          ≡ check_all_live_servers now providers w)
        × ((check_all_live_servers now providers w).0 ≢ ok tt)
  patrol_unknown_provider sleep rounds cycle_sec d w j m e h f absent =
      let s = check_all_live_servers-Sweeps now providers d w e h in
      let n : (check_all_live_servers now providers w).0 ≢ ok tt =
        unknown w.sessions m (check_all_live_servers now providers w).0 _ _ absent
          (s.fates j m f) in
      (patrol_stop sleep rounds cycle_sec w _ n refl, n)
