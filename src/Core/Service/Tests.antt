-- ===== src/Core/Service/Tests.antt =====
-- Runs of the core at concrete inputs.
use novig_take_home.Base.Sort.{IsSortedBy}
use mathlib.Core.List.{Perm}
use novig_take_home.Core.ReplicaHealth.{by_replica_id}
use novig_take_home.Core.Service.Replicas.{replica_statuses, statuses_of}
use novig_take_home.Core.Service.Replicas.Listing.{replica_statuses-sorted}
use novig_take_home.Base.{◌≡◌, refl, Bool, List, [], ◌∷◌, some, arith}
use novig_take_home.Base.Int.{pos}
use novig_take_home.Domain.{SignalInput, market_suspended}
use novig_take_home.Domain.Breaker.{default_breaker_config}
use novig_take_home.Core.Fixture.{table, two_states, suspended_market}
use novig_take_home.Core.EventStore.{last_seq, max_seq}
use novig_take_home.Core.Hub.Contents.{new_sse_hub-Buffered}
use novig_take_home.Core.Hub.Invariant.{new_sse_hub-Inv}
use novig_take_home.Core.Service.State.{Service, ServiceConfig, new_service, initial_service}
use novig_take_home.Core.Service.Emit.{emit_event}
use novig_take_home.Core.Service.Emission.{Inv, Emitted, emit_event-Emitted}
use novig_take_home.Core.Service.Evaluate.{Visit}
use novig_take_home.Core.Service.Consistency.{Advanced}
use novig_take_home.Core.Service.History.{Call, ticks, ingests, run}
use novig_take_home.Core.Service.Lifetime.{run-new_service}

abbrev config : ServiceConfig
config = record {
  breaker = default_breaker_config;
  tick_interval = pos 0;
  window_duration = pos 0;
  default_market_id = "m1";
  replica_stale_after = pos 0;
  replica_offline_after = pos 0;
}

abbrev full_config : ServiceConfig
full_config = record {
  breaker = default_breaker_config;
  tick_interval = pos 1_000_000_000;
  window_duration = pos 30_000_000_000;
  default_market_id = "m1";
  replica_stale_after = pos 5_000_000_000;
  replica_offline_after = pos 15_000_000_000;
}

abbrev fresh : Service table
fresh = initial_service table full_config (pos 0) [] (pos 0)

abbrev burst : SignalInput
burst = record {
  market_id = "";
  bet_count = pos 144;
  stake_cents = pos 360_000;
  liability_delta_cents = pos 2_400_000;
  ts_unix_ms = pos 900;
}

abbrev visit : Visit
visit = record { market_id = "m1"; event_id = "e1"; ts_unix_ms = pos 1_000 }

abbrev calls : List Call
calls = ingests burst (pos 900) ∷ ticks (visit ∷ []) (pos 1_000) ∷ []

run-new_service_example : Advanced table two_states [] [] 0 1 (run table two_states calls fresh)
unfolding new_service last_seq max_seq
run-new_service_example =
    run-new_service table two_states 0 [] refl config (pos 0) fresh calls refl (omega arith)

fresh-Inv : Inv table 0 fresh
fresh-Inv = record {
  log = refl;
  last = refl;
  hub = new_sse_hub-Inv;
  contents = new_sse_hub-Buffered [];
}

emit_event-Emitted_example :
    (done : Bool) × (s' : Service table) × (emit_event table two_states market_suspended "m1"
        suspended_market "e1"
        (pos 1_000)
        fresh
      ≡ some (done, s'))
    × Emitted table two_states market_suspended "m1" suspended_market 0 fresh done s'
emit_event-Emitted_example =
    emit_event-Emitted table two_states market_suspended "m1" suspended_market 0 fresh "e1"
      (pos 1_000) fresh-Inv (omega arith)

statuses_in_order :
    let r = replica_statuses table (pos 1_000) fresh in
    IsSortedBy by_replica_id r.0.replicas
    × Perm r.0.replicas (statuses_of r.1.last_seq r.1.replicas)
statuses_in_order = replica_statuses-sorted table (pos 1_000) fresh
