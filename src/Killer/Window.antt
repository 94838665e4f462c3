-- ===== src/Killer/Window.antt =====
-- The patrol (lobbyboy/server_killer.py) against the end of a billing cycle, over rounds at a fixed
-- distance.
use native.Mathlib.Nat.{mod-lt}
use lobbyboy.Base.{
  ℕ, zero, suc, ◌+◌, ◌-◌, ◌*◌, ◌%◌, ◌≤◌, ◌<◌, ◌≡◌, inl, inr, ap, true, String, arith, leb,
  Bool-cases, given, length, [],
}
use lobbyboy.Base.Int.{ℤ, pos, mod_pos}
use lobbyboy.Act.{ok}
use lobbyboy.Duration.{to_seconds}
use lobbyboy.Config.Types.{ServerMeta, live_sec}
use lobbyboy.World.{Provider, World, sessions_of}
use lobbyboy.Killer.{safe_seconds, need_destroy}
use lobbyboy.Killer.Verdict.{safe_seconds-Margin}
use lobbyboy.Killer.Decision.{need_destroy_exact}

mod_step :
    (live bill period : ℕ)
    → live % bill + period < bill
    → (live + period) % bill ≡ live % bill + period
mod_step live bill period h = grind arith

-- Some round comes when at most `safe` seconds of the cycle are left, and no later than its end.
window :
    (fuel live bill safe period : ℕ)
    → bill - live % bill < fuel
    → 0 < bill
    → 0 < period
    → period ≤ safe
    → (rounds : ℕ) × (bill ≤ (live + rounds * period) % bill + safe)
      × (live % bill + rounds * period < bill)
window zero live bill safe period enough b p s = absurd (omega arith)
window (suc fuel) live bill safe period enough b p s =
    elim (Bool-cases (leb bill (live % bill + safe))) [
      | inl soon ↦
          let start : live + 0 * period ≡ live = omega arith in
          (0, rw start (ground arith), omega (arith, mod-lt live b))
      | inr early ↦
          let room : live % bill + safe < bill = ground arith in
          let step : (live + period) % bill ≡ live % bill + period =
            mod_step live bill period (omega arith) in
          let (rounds, soon, within) =
            window fuel (live + period) bill safe period (omega arith) b p s in
          let total : live + suc rounds * period ≡ live + period + rounds * period = omega arith in
          (suc rounds, rw total soon, omega arith)
    ]

-- Rounds come every `period` seconds, no more than the safe time apart. Then an unused server of ours
-- whose shortest life is over is found due in one of them, before its current billing cycle ends.
pub need_destroy_before_bill :
    {X : Type 0} (now : X → ℤ) (p : Provider X) (meta : ServerMeta) (w : World X) (round : ℕ → X)
    (life live bill safe period : ℕ)
    → sessions_of meta.server_name w ≡ []
    → meta.manage ≡ true
    → to_seconds p.config.min_life_to_live ≡ ok life
    → to_seconds p.config.bill_time_unit ≡ ok bill
    → safe_seconds (given p.config.destroy_safe_time) ≡ ok safe
    → ((k : ℕ) → live_sec (now (round k)) meta ≡ pos (live + k * period))
    → life ≤ live
    → 0 < bill
    → 0 < period
    → period ≤ safe
    → (k : ℕ) × (live % bill + k * period < bill)
      × ((reason : String) × (need_destroy now p meta (record w { env = round k })
            ≡ ok (true, reason)))
unfolding sessions_of mod_pos
need_destroy_before_bill now p meta w round life live bill safe period unused managed life_set
      bill_set safe_set ticks over b q s =
    let (k, soon, within) = window (suc bill) live bill safe period (omega arith) b q s in
    (
      k,
      within,
      (need_destroy_exact now p meta (record w { env = round k })).1 (record {
        unused = ap length unused;
        managed = managed;
        life = life;
        life_set = life_set;
        over = rw (ticks k) (
            inr (
              omega arith,
              record {
                bill = bill;
                safe = safe;
                bill_set = bill_set;
                safe_set = safe_seconds-Margin (given p.config.destroy_safe_time) safe safe_set;
                bill_pos = b;
                soon = soon;
              },
            ));
      }),
    )
