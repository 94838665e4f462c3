-- ===== src/Killer/Round.antt =====
-- What a round of the patrol does to the file of servers.
use lobbyboy.Base.{
  ◌≡◌, ◌≢◌, inl, inr, refl, Bool, true, false, String, List, [], ◌∷◌, Option, none, some, arith,
  Bool-cases, Option-cases,
}
use lobbyboy.Base.Int.{ℤ}
use lobbyboy.Base.Dict.{Dict, lookup, erase}
use lobbyboy.Exceptions.{Exn, plain}
use lobbyboy.Act.{Result, ok, raised, running, Void, returned, threw, still_running, ending}
use lobbyboy.Config.Types.{ServerMeta}
use lobbyboy.Config.Servers.{Content, dump, update_local_servers}
use lobbyboy.Config.Servers.Stored.{IsStored, load_local_servers-dump}
use lobbyboy.World.{Channel, Transport, Provider, World}
use lobbyboy.Killer.{need_destroy, unregister, destroy, check_server}

module _ {X : Type 0} (now : X → ℤ) (providers : Dict (Provider X)) where
  -- At some time, with those sessions, the check of the server has said `go`.
  pub record Verdict (sessions : Dict (List Transport)) (m : ServerMeta) (go : Bool) : Type 0 where
    pub provider : Provider X
    pub is_known : lookup m.provider_name providers ≡ some provider
    pub at : World X
    pub same : at.sessions ≡ sessions
    pub reason : String
    pub said : need_destroy now provider m at ≡ ok (go, reason)

  verdict :
      {S : Dict (List Transport)} {m : ServerMeta} {go : Bool} (p : Provider X)
      → lookup m.provider_name providers ≡ some p
      → (w : World X) → w.sessions ≡ S
      → (reason : String) → need_destroy now p m w ≡ ok (go, reason)
      → Verdict S m go
  verdict p found w same reason said = record {
    provider = p;
    is_known = found;
    at = w;
    same = same;
    reason = reason;
    said = said;
  }

  update_one :
      (time : ℤ) (m : ServerMeta) (d : Dict ServerMeta) (content : Content)
      → content ≡ dump d
      → IsStored d
      → update_local_servers time [] (m ∷ []) content
        ≡ (ok (erase m.server_name d), dump (erase m.server_name d))
  unfolding update_local_servers
  update_one time m d content e h = rw (e, load_local_servers-dump time d h) refl

  unregister_lem :
      (m : ServerMeta) (d : Dict ServerMeta) (w : World X)
      → w.db ≡ dump d
      → IsStored d
      → unregister now m w ≡ (ok tt, record w { db = dump (erase m.server_name d) })
  unfolding unregister
  unregister_lem m d w e h = ground (arith, update_one (now w.env) m d w.db e h)

  -- The provider's call has returned, right after the verdict.
  abbrev pub Called : {S : Dict (List Transport)} {m : ServerMeta} → Verdict S m true → Type 0
  Called {m = m} v = (answer : Bool) × ((v.provider.destroy_server m none v.at.env).0 ≡ ok answer)

  -- How the check of one server has ended.
  pub data Checked (m : ServerMeta) (d : Dict ServerMeta) (w : World X) (r : Result Void)
      (w' : World X) : Type 0 where
    broken_off : r ≢ ok tt → w'.db ≡ w.db → Checked m d w r w'
    kept : r ≡ ok tt → Verdict w.sessions m false → w'.db ≡ w.db → Checked m d w r w'
    gone :
        r ≡ ok tt
        → (v : Verdict w.sessions m true) → Called v
        → w'.db ≡ dump (erase m.server_name d)
        → Checked m d w r w'

  module _ (p : Provider X) (m : ServerMeta) (channel : Option Channel) (w : World X) where
    destroy_unmanaged : m.manage ≡ false → destroy now p m channel w ≡ (raised plain, w)
    unfolding destroy
    destroy_unmanaged h = ground arith

    destroy_raised :
        (e : Exn)
        → m.manage ≡ true
        → (p.destroy_server m channel w.env).0 ≡ raised e
        → destroy now p m channel w
          ≡ (raised e, record w { env = (p.destroy_server m channel w.env).1 })
    unfolding destroy
    destroy_raised e h k = ground arith

    destroy_running :
        m.manage ≡ true
        → (p.destroy_server m channel w.env).0 ≡ running
        → destroy now p m channel w
          ≡ (running, record w { env = (p.destroy_server m channel w.env).1 })
    unfolding destroy
    destroy_running h k = ground arith

    -- The provider's answer, `true` or `false`, makes no difference.
    destroy_returned :
        (d : Dict ServerMeta) (answer : Bool)
        → m.manage ≡ true
        → (p.destroy_server m channel w.env).0 ≡ ok answer
        → w.db ≡ dump d
        → IsStored d
        → destroy now p m channel w ≡ (
          ok tt,
          record w {
            db = dump (erase m.server_name d);
            env = (p.destroy_server m channel w.env).1;
          },
        )
    unfolding destroy
    destroy_returned d answer h k e s =
        ground
          (arith, unregister_lem m d (record w { env = (p.destroy_server m channel w.env).1 }) e s)

  -- What a check leaves, at the outcome of the whole action.
  abbrev pub Leaves : ServerMeta → Dict ServerMeta → World X → Result Void × World X → Type 0
  Leaves m d w (r, w') = Checked m d w r w' × (w'.sessions ≡ w.sessions)

  destroy-Leaves :
      (p : Provider X) (m : ServerMeta) (d : Dict ServerMeta) (w : World X)
      → w.db ≡ dump d
      → IsStored d
      → lookup m.provider_name providers ≡ some p
      → (reason : String) → need_destroy now p m w ≡ ok (true, reason)
      → Leaves m d w (destroy now p m none w)
  unfolding verdict
  destroy-Leaves p m d w e h found reason said = elim (Bool-cases m.manage) [
    | inr unmanaged ↦
        rw (destroy_unmanaged p m none w unmanaged) (broken_off (λ q. cc q) refl, refl)
    | inl managed ↦ elim (ending (p.destroy_server m none w.env).0) [
      | returned b done ↦
          rw (destroy_returned p m none w d b managed done e h)
            (gone refl (verdict p found w refl reason said) (b, done) refl, refl)
      | threw x done ↦
          rw (destroy_raised p m none w x managed done) (broken_off (λ q. cc q) refl, refl)
      | still_running done ↦
          rw (destroy_running p m none w managed done) (broken_off (λ q. cc q) refl, refl)
    ]
  ]

  module _ (m : ServerMeta) (w : World X) where
    check_server_unknown :
        lookup m.provider_name providers ≡ none → check_server now providers m w ≡ (raised plain, w)
    unfolding check_server
    check_server_unknown h = ground arith

    module _ (p : Provider X) (known : lookup m.provider_name providers ≡ some p) where
      check_server_raised :
          (e : Exn)
          → need_destroy now p m w ≡ raised e
          → check_server now providers m w ≡ (raised e, w)
      unfolding check_server
      check_server_raised e h = ground arith

      check_server_running :
          need_destroy now p m w ≡ running → check_server now providers m w ≡ (running, w)
      unfolding check_server
      check_server_running h = ground arith

      check_server_kept :
          (reason : String)
          → need_destroy now p m w ≡ ok (false, reason)
          → check_server now providers m w ≡ (ok tt, w)
      unfolding check_server
      check_server_kept reason h = ground arith

      check_server_due :
          (reason : String)
          → need_destroy now p m w ≡ ok (true, reason)
          → check_server now providers m w ≡ destroy now p m none w
      unfolding check_server
      check_server_due reason h = ground arith

  pub check_server-Leaves :
      (m : ServerMeta) (d : Dict ServerMeta) (w : World X)
      → w.db ≡ dump d
      → IsStored d
      → Leaves m d w (check_server now providers m w)
  check_server-Leaves m d w e h = elim (Option-cases (lookup m.provider_name providers)) [
    | inl absent ↦ rw (check_server_unknown m w absent) (broken_off (λ q. cc q) refl, refl)
    | inr (p, found) ↦ elim (ending (need_destroy now p m w)) [
      | returned (true, reason) said ↦
          rw (check_server_due m w p found reason said)
            (destroy-Leaves p m d w e h found reason said)
      | returned (false, reason) said ↦
          rw (check_server_kept m w p found reason said)
            (kept refl (verdict p found w refl reason said) refl, refl)
      | threw x said ↦
          rw (check_server_raised m w p found x said) (broken_off (λ q. cc q) refl, refl)
      | still_running said ↦
          rw (check_server_running m w p found said) (broken_off (λ q. cc q) refl, refl)
    ]
  ]
