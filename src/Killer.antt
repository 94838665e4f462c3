-- ===== src/Killer.antt =====
-- lobbyboy/server_killer.py: when a server is destroyed, and the patrol that does it.
pub mod Verdict
pub mod Decision
pub mod Window
pub mod Round
pub mod Sweep
pub mod Protect
use lobbyboy.Base.{
  ℕ, zero, suc, ◌+◌, ◌-◌, Bool, true, false, String, ◌<>◌, List, [], ◌∷◌, Option, none, some, ltb,
  ◌==◌, if◌then◌else◌, length, given,
}
use lobbyboy.Base.Int.{ℤ, pos, negsuc, ◌-ℤ◌, ltb_ℤ, leb_ℤ, mod_pos, pos_part}
use lobbyboy.Base.Dict.{Dict, lookup}
use lobbyboy.Exceptions.{plain, zero_division}
use lobbyboy.Act.{
  Result, ok, raised, running, bind, Act, Void, skip, raise, pure, lift, gets, ◌>>=◌, ◌>>◌,
}
use lobbyboy.Text.Print.{decimal}
use lobbyboy.Duration.{to_seconds, humanize_seconds}
use lobbyboy.Config.Types.{ConfigProvider, ServerMeta, live_sec}
use lobbyboy.Config.Servers.{load_local_servers, update_local_servers}
use lobbyboy.World.{Channel, Provider, World, outside, on_db, sessions_of}

-- A setting as it is printed in a message.
shown : Option String → String
shown none = "None"
shown (some s) = s

still : ℤ → String → Option String → String
unfolding shown
still ttl setting value =
    "still have "
    <> humanize_seconds (pos_part ttl)
    <> " to live("
    <> setting
    <> "="
    <> shown value
    <> ")."

-- `to_seconds(config.destroy_safe_time) if config.destroy_safe_time else 0`
unfoldable pub safe_seconds : Option String → Result ℕ
safe_seconds none = ok 0
safe_seconds (some s) = to_seconds (some s)

-- `live_sec % bill`
remainder : ℤ → ℕ → Result ℕ
remainder live bill = if bill == 0 then raised zero_division else ok (mod_pos live bill)

-- What is left of the billing cycle, less the safe time.
bill_ttl : ℕ → ℕ → ℕ → ℤ
unfolding ◌-ℤ◌
bill_ttl bill used safe = pos bill -ℤ pos used -ℤ pos safe

bill_verdict : ConfigProvider → ℤ → Bool × String
unfolding still
bill_verdict config ttl =
    if ltb_ℤ (pos 0) ttl
    then (false, still ttl "bill_time_unit" config.bill_time_unit)
    else (true, "is about to enter the next billing cycle.")

-- The part of `need_destroy` behind the check of the shortest life: the billing cycle.
pub by_bill : ConfigProvider → ℤ → Result (Bool × String)
unfolding safe_seconds remainder bill_ttl bill_verdict
by_bill config live = bind (to_seconds config.bill_time_unit) λ bill.
    bind (remainder live bill) λ used.
      bind (safe_seconds (given config.destroy_safe_time))
        λ safe. ok (bill_verdict config (bill_ttl bill used safe))

-- What is left of the shortest life.
life_ttl : ℕ → ℤ → ℤ
unfolding ◌-ℤ◌
life_ttl life live = pos life -ℤ live

pub life_verdict : ConfigProvider → ℕ → ℤ → Result (Bool × String) → Result (Bool × String)
unfolding still life_ttl
life_verdict config life live otherwise =
    if life == 0
    then ok (true, "min_life_to_live less or equal 0: 0.")
    else if ltb_ℤ (pos 0) (life_ttl life live)
    then ok (false, still (life_ttl life live) "min_life_to_live" config.min_life_to_live)
    else otherwise

pub by_life : ConfigProvider → ℤ → Result (Bool × String)
unfolding by_bill life_verdict
by_life config live =
    bind (to_seconds config.min_life_to_live)
      λ life. life_verdict config life live (by_bill config live)

-- `need_destroy`, for so many sessions and so long a life.
unfoldable pub decide : ConfigProvider → ServerMeta → ℕ → ℤ → Result (Bool × String)
unfolding by_life
decide config meta sessions live =
    if ltb 0 sessions
    then ok (false, "still have " <> decimal sessions <> " active sessions.")
    else if meta.manage
    then by_life config live
    else ok (false, "server " <> meta.server_name <> " has flag not manage by me.")

module _ {X : Type 0} (now : X → ℤ) where
  -- The check by itself, at the state of the world.
  unfoldable pub need_destroy : Provider X → ServerMeta → World X → Result (Bool × String)
  unfolding decide live_sec
  need_destroy p meta w =
      decide p.config meta (length (sessions_of meta.server_name w)) (live_sec (now w.env) meta)

  -- `with available_server_db_lock: update_local_servers(…, deleted=[meta])`
  unfoldable pub unregister : ServerMeta → Act (World X) Void
  unregister meta = do
    time ← gets (λ w. now w.env)
    on_db (update_local_servers time [] (meta ∷ []))
    skip

  -- The result of the provider's own `destroy_server` is dropped.
  unfoldable pub destroy : Provider X → ServerMeta → Option Channel → Act (World X) Void
  destroy p meta channel = do
    if meta.manage then skip else raise plain
    outside (p.destroy_server meta channel)
    unregister meta

abbrev pub known : {X : Type 0} → Option (Provider X) → Act (World X) (Provider X)
known none = raise plain
known (some p) = pure p

module _ {X : Type 0} (now : X → ℤ) (watched_providers : Dict (Provider X)) where
  -- One round of the loop in `check_all_live_servers`.
  unfoldable pub check_server : ServerMeta → Act (World X) Void
  check_server meta = do
    p ← known (lookup meta.provider_name watched_providers)
    verdict ← λ w. (need_destroy now p meta w, w)
    if verdict.0 then destroy now p meta none else skip

  unfoldable pub check_servers : Dict ServerMeta → Act (World X) Void
  check_servers [] = skip
  check_servers ((_, meta) ∷ metas) = do check_server meta; check_servers metas

  unfoldable pub check_all_live_servers : Act (World X) Void
  check_all_live_servers w =
      let loaded = load_local_servers (now w.env) w.db in
      (do metas ← lift loaded; check_servers metas) w

  -- `while 1`, for so many rounds; `sleep` is `time.sleep`.
  unfoldable pub patrol : (ℕ → Act X Void) → ℕ → ℕ → Act (World X) Void
  patrol sleep zero cycle_sec = lift running
  patrol sleep (suc rounds) cycle_sec = do
    check_all_live_servers
    outside (sleep cycle_sec)
    patrol sleep rounds cycle_sec
