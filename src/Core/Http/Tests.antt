-- ===== src/Core/Http/Tests.antt =====
-- Requests to a core with one suspension in its log.
use novig_take_home.Base.{ℕ, ◌<◌, ◌↔◌, true, ◌≡◌, refl, [], ◌∷◌, arith, string_eq}
use novig_take_home.Base.Int.{ℤ, pos, sub64, int64, ◌+ℤ◌, ◌-ℤ◌}
use novig_take_home.Base.Map.{get}
use novig_take_home.Base.Errors.{ok}
use novig_take_home.Domain.{status_suspended}
use novig_take_home.Domain.Breaker.{apply_breaker, default_breaker_config}
use novig_take_home.Core.Fixture.{table, two_states, open_market}
use novig_take_home.Core.ReplicaHealth.{ReplicaHeartbeat}
use novig_take_home.Core.Service.Fixture.{
  suspended_event, one_event_core, one_event_core-Consistent,
}
use novig_take_home.Core.Service.State.{milliseconds}
use novig_take_home.Core.Service.Signals.{metrics}
use novig_take_home.Core.Service.Consistency.{Consistent}
use novig_take_home.Core.Http.{
  method_post, post_scenario, post_heartbeat, run_spike_scenario, handle_heartbeat, handle,
}
use novig_take_home.Core.Http.Spike.{run_spike_scenario-suspends}
use novig_take_home.Core.Http.Answers.{IsAccepted, handle_iff, handle-error, handle-Consistent}

abbrev clock : ℕ → ℤ
clock j = pos 5_000

abbrev nameless : ReplicaHeartbeat
nameless = record {
  replica_id = "";
  connected = true;
  last_applied_seq = pos 0;
  core_last_seq = pos 0;
  last_sync_at = pos 0;
}

run_spike_scenario-suspends_example :
    let total =
      metrics table "m1" (run_spike_scenario table "m1" (pos 5_000) clock one_event_core) in
    (total ≡ record {
      bet_count_30s = pos 144;
      stake_sum_30s_cents = pos 360_000;
      liability_delta_30s_cents = pos 2_400_000;
    })
    × ((apply_breaker (pos 6_000) open_market total default_breaker_config).0.status
        ≡ status_suspended)
unfolding get sub64 int64 ◌+ℤ◌ ◌-ℤ◌ milliseconds
run_spike_scenario-suspends_example =
    run_spike_scenario-suspends table "m1" (pos 5_000) (pos 6_000) clock one_event_core open_market
      (λ h. cc h) (λ h. cc h) refl (λ j. omega arith) refl

handle_iff_example :
    ((handle table (post_scenario method_post "spike" "") (pos 5_000) clock one_event_core).0.status
      < 400)
    ↔ IsAccepted (post_scenario method_post "spike" "")
handle_iff_example =
    handle_iff table (pos 5_000) clock one_event_core (post_scenario method_post "spike" "")

handle-error_example :
    (handle table (post_heartbeat method_post (ok nameless)) (pos 5_000) clock one_event_core).1
    ≡ one_event_core
unfolding handle handle_heartbeat
handle-error_example =
    handle-error table (pos 5_000) clock one_event_core (post_heartbeat method_post (ok nameless))
      (omega arith)

handle-Consistent_example :
    Consistent table two_states []
      (suspended_event ∷ [])
      1
      (handle table (post_scenario method_post "spike" "") (pos 5_000) clock one_event_core).1
handle-Consistent_example =
    handle-Consistent table two_states [] (suspended_event ∷ []) 1
      (post_scenario method_post "spike" "") (pos 5_000) clock one_event_core
      one_event_core-Consistent
