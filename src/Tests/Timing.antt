-- ===== src/Tests/Timing.antt =====
-- When servers are destroyed, at a clock that is the world's own state.
use lobbyboy.Base.{
  ◌≡◌, ◌≢◌, refl, ℕ, ◌+◌, ◌*◌, ◌%◌, ◌<◌, true, false, String, [], none, some, length, ◌↔◌, ◌⊎◌,
  arith,
}
use lobbyboy.Base.Int.{pos, mod_pos}
use lobbyboy.Base.Dict.{Dict, lookup}
use lobbyboy.Exceptions.{zero_division}
use lobbyboy.Act.{ok, raised, skip}
use lobbyboy.Duration.{to_seconds, humanize_seconds}
use lobbyboy.Config.Types.{ServerMeta, live_sec}
use lobbyboy.Config.Servers.{dump}
use lobbyboy.Config.Servers.Stored.{IsStored}
use lobbyboy.World.{sessions_of}
use lobbyboy.Killer.{need_destroy, check_all_live_servers, patrol, safe_seconds}
use lobbyboy.Killer.Decision.{need_destroy_exact, need_destroy_no_safe_time, need_destroy_zero_bill}
use lobbyboy.Killer.Verdict.{IsDue}
use lobbyboy.Killer.Window.{need_destroy_before_bill}
use lobbyboy.Killer.Protect.{check_all_live_servers_protects, patrol_unknown_provider}
use lobbyboy.Tests.Fixtures.{by_the_hour, web, db, cloud, clouds, two_servers, world}

need_destroy_test :
    (need_destroy pos (cloud by_the_hour) web (world 3400)
      ≡ ok (false, "still have 0:03:20 to live(min_life_to_live=1h)."))
    × (need_destroy pos (cloud by_the_hour) web (world 7000)
        ≡ ok (true, "is about to enter the next billing cycle."))
    × (need_destroy pos (cloud by_the_hour) db (world 7000)
        ≡ ok (false, "still have 1 active sessions."))
unfolding need_destroy sessions_of lookup to_seconds humanize_seconds mod_pos
need_destroy_test = (refl, refl, refl)

pub two_servers-IsStored : IsStored two_servers
unfolding lookup
two_servers-IsStored = record {
  entries = (refl, tt, (refl, tt, tt));
  distinct = (refl, (refl, tt));
}

need_destroy_exact_example :
    ((reason : String) × (need_destroy pos (cloud by_the_hour) web (world 7000)
        ≡ ok (true, reason)))
    ↔ IsDue by_the_hour web
        (length (sessions_of {X = ℕ} web.server_name (world 7000)))
        (live_sec (pos 7000) web)
need_destroy_exact_example = need_destroy_exact pos (cloud by_the_hour) web (world 7000)

need_destroy_no_safe_time_example :
    need_destroy pos (cloud (record by_the_hour { destroy_safe_time = none })) web (world 7000)
    ≢ ok (true, "is about to enter the next billing cycle.")
unfolding to_seconds
need_destroy_no_safe_time_example =
    need_destroy_no_safe_time pos (cloud (record by_the_hour { destroy_safe_time = none })) web
      (world 7000) 3600 "is about to enter the next billing cycle." refl refl (λ h. cc h)

need_destroy_zero_bill_example :
    need_destroy pos (cloud (record by_the_hour { bill_time_unit = some "0" })) web (world 7000)
    ≡ raised zero_division
unfolding to_seconds sessions_of live_sec lookup
need_destroy_zero_bill_example =
    need_destroy_zero_bill pos (cloud (record by_the_hour { bill_time_unit = some "0" })) web
      (world 7000) 3600 refl refl refl (λ h. cc h) (omega arith) refl

need_destroy_before_bill_example :
    (k : ℕ) × (3601 % 3600 + k * 60 < 3600)
    × ((reason : String) × (need_destroy pos
            (cloud by_the_hour)
            web
            (record (world 0) { env = 3601 + k * 60 })
          ≡ ok (true, reason)))
unfolding to_seconds sessions_of live_sec safe_seconds lookup
need_destroy_before_bill_example =
    need_destroy_before_bill pos (cloud by_the_hour) web (world 0) (λ k. 3601 + k * 60) 3600 3601
      3600 300 60 refl refl refl refl refl (λ k. ground arith) (omega arith) (omega arith)
      (omega arith) (omega arith)

check_all_live_servers_protects_example :
    (left : Dict ServerMeta) × ((check_all_live_servers pos clouds (world 7000)).1.db ≡ dump left)
    × ((j : String) (m : ServerMeta)
        → lookup j two_servers ≡ some m
        → (m.manage ≡ false) ⊎ (sessions_of {X = ℕ} m.server_name (world 7000) ≢ [])
        → lookup j left ≡ some m)
check_all_live_servers_protects_example =
    check_all_live_servers_protects pos clouds two_servers (world 7000) refl two_servers-IsStored

patrol_unknown_provider_example :
    (patrol pos [] (λ n. skip) 3 30 (world 7000) ≡ check_all_live_servers pos [] (world 7000))
    × ((check_all_live_servers pos [] (world 7000)).0 ≢ ok tt)
unfolding lookup
patrol_unknown_provider_example =
    patrol_unknown_provider pos [] (λ n. skip) 2 30 two_servers (world 7000) "web" web refl
      two_servers-IsStored refl refl
