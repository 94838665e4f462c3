-- ===== src/Killer/Decision.antt =====
-- When `need_destroy` (lobbyboy/server_killer.py) says that a server is to go.
use lobbyboy.Base.{
  ℕ, ◌≡◌, ◌≢◌, ◌↔◌, inl, inr, refl, sym, ap, ◌∙◌, true, String, [], Option, none, arith, length,
  given,
}
use lobbyboy.Base.Int.{ℤ, pos, ◌≤ℤ◌, mod_pos-lt}
use lobbyboy.Exceptions.{zero_division}
use lobbyboy.Act.{ok, raised}
use lobbyboy.Duration.{to_seconds}
use lobbyboy.Config.Types.{ConfigProvider, ServerMeta, live_sec}
use lobbyboy.World.{Provider, World, sessions_of}
use lobbyboy.Killer.{by_bill, by_life, need_destroy}
use lobbyboy.Killer.Verdict.{
  Margin, IsDue, life_verdict_over, decide-by_life, decide-IsDue, by_life_due,
}

-- A server is to be destroyed exactly if it has no active session, is managed here, and either its
-- provider's shortest life is zero, or that life is over and the billing cycle of its provider, which
-- is not zero, ends within the safe time (which is zero if it is not set).
pub need_destroy_exact :
    {X : Type 0} (now : X → ℤ) (p : Provider X) (meta : ServerMeta) (w : World X)
    → ((reason : String) × (need_destroy now p meta w ≡ ok (true, reason)))
      ↔ IsDue p.config meta (length (sessions_of meta.server_name w)) (live_sec (now w.env) meta)
unfolding need_destroy
need_destroy_exact now p meta w = (
  λ (reason, h). decide-IsDue p.config meta _ _ reason h,
  λ d.
      let live = live_sec (now w.env) meta in
      let (reason, e) = by_life_due p.config live d.life d.life_set d.over in
      (reason, decide-by_life p.config meta _ live d.unused d.managed ∙ e),
)

no_safe_time : (o : Option String) (safe : ℕ) → given o ≡ none → Margin (given o) safe → safe ≡ 0
no_safe_time o safe unset h = rw unset at h

by_bill_zero :
    (config : ConfigProvider) (live : ℤ)
    → to_seconds config.bill_time_unit ≡ ok 0
    → by_bill config live ≡ raised zero_division
unfolding by_bill
by_bill_zero config live h = rw h refl

module _ {X : Type 0} (now : X → ℤ) (p : Provider X) (meta : ServerMeta) (w : World X) where
  -- With a shortest life that is not zero and no safe time, `need_destroy` says of no server of the
  -- provider that it is to be destroyed, however long it has lived.
  pub need_destroy_no_safe_time :
      (life : ℕ) (reason : String)
      → given p.config.destroy_safe_time ≡ none
      → to_seconds p.config.min_life_to_live ≡ ok life
      → life ≢ 0
      → need_destroy now p meta w ≢ ok (true, reason)
  unfolding live_sec
  need_destroy_no_safe_time life reason unset set long h =
      let live = live_sec (now w.env) meta in
      let d = (need_destroy_exact now p meta w).0 (reason, h) in
      let same : d.life ≡ life = cc (set, d.life_set) in
      elim d.over [
        | inl zero ↦ long (sym same ∙ zero)
        | inr (over, soon) ↦
            let safe_zero : soon.safe ≡ 0 =
              no_safe_time p.config.destroy_safe_time soon.safe unset soon.safe_set in
            absurd (omega (arith, safe_zero, soon.soon, mod_pos-lt live soon.bill soon.bill_pos))
      ]

  -- With a shortest life that is not zero and a billing cycle of zero seconds, the check of an unused
  -- server of ours whose life is over raises a `ZeroDivisionError`.
  pub need_destroy_zero_bill :
      (life : ℕ)
      → sessions_of meta.server_name w ≡ []
      → meta.manage ≡ true
      → to_seconds p.config.min_life_to_live ≡ ok life
      → life ≢ 0
      → pos life ≤ℤ live_sec (now w.env) meta
      → to_seconds p.config.bill_time_unit ≡ ok 0
      → need_destroy now p meta w ≡ raised zero_division
  unfolding need_destroy by_life
  need_destroy_zero_bill life unused managed set long over zero =
      let live = live_sec (now w.env) meta in
      decide-by_life p.config meta _ live (ap length unused) managed
      ∙ rw set (life_verdict_over p.config life live _ long over ∙ by_bill_zero p.config live zero)
