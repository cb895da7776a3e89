-- ===== src/Core/Service/Fixture.antt =====
-- A core with one suspension in its log.
use novig_take_home.Base.{
  String, ◌≡◌, refl, [], ◌∷◌, some, arith, inl, inr, sym, ap, ◌∙◌, string_eq, eq_iff, subst,
}
use novig_take_home.Base.Int.{pos}
use novig_take_home.Base.Map.{get}
use novig_take_home.Domain.{MarketState, ReplicationEvent, market_suspended}
use novig_take_home.Domain.Breaker.Coherence.{at_suspended}
use novig_take_home.Core.Fixture.{table, two_states, suspended_market}
use novig_take_home.Core.Hub.{new_sse_hub}
use novig_take_home.Core.Hub.Invariant.{new_sse_hub-Inv}
use novig_take_home.Core.Hub.Contents.{new_sse_hub-Buffered}
use novig_take_home.Core.Service.State.{Service, new_market}
use novig_take_home.Core.Service.Replay.{Member, new_market-Member, last_state}
use novig_take_home.Core.Service.Consistency.{Consistent}

abbrev pub suspended_event : ReplicationEvent
suspended_event = record {
  seq = pos 1;
  event_id = "e1";
  ts_unix_ms = pos 1_000;
  event_type = market_suspended;
  market_id = "m1";
  payload = "suspended";
}

abbrev pub one_event_core : Service table
one_event_core = record {
  store = suspended_event ∷ [];
  hub = new_sse_hub;
  cfg = record {
    breaker = record {
      bet_count_threshold = pos 120;
      liability_threshold_cents = pos 2_000_000;
      cooldown_ms = pos 60_000;
    };
    tick_interval = pos 1_000_000_000;
    window_duration = pos 30_000_000_000;
    default_market_id = "m1";
    replica_stale_after = pos 5_000_000_000;
    replica_offline_after = pos 15_000_000_000;
  };
  last_seq = pos 1;
  markets = ("m1", suspended_market) ∷ [];
  signal_window = [];
  replicas = [];
}

only_market :
    (id : String) (m : MarketState)
    → get one_event_core.markets id ≡ some m
    → ("m1" ≡ id) × (suspended_market ≡ m)
unfolding get
only_market id m h = ground (arith, eq_iff "m1" id)

suspended_market-Member : Member "m1" suspended_market
suspended_market-Member = record { named = refl; coherent = at_suspended refl (inl refl) }

pub one_event_core-Consistent :
    Consistent table two_states [] (suspended_event ∷ []) 1 one_event_core
unfolding last_state get
one_event_core-Consistent = record {
  inv = record {
    log = (refl, refl);
    last = refl;
    hub = new_sse_hub-Inv;
    contents = new_sse_hub-Buffered (suspended_event ∷ []);
  };
  log = refl;
  members = λ id m h.
      subst (λ k. Member k m) (only_market id m h).0
        (subst (λ x. Member "m1" x) (only_market id m h).1 suspended_market-Member);
  replays = record {
    present = λ id m h. inl (ground (arith, only_market id m h, eq_iff "m1" id));
    absent = λ id h. ground (arith, eq_iff "m1" id);
  };
  sound = (
    record {
      state = suspended_market;
      carries = refl;
      member = suspended_market-Member;
      announces = refl;
    },
    tt,
  );
}

-- The core before that event.
abbrev pub open_core : Service table
open_core = record one_event_core {
  store = [];
  last_seq = pos 0;
  markets = ("m1", new_market "m1" (pos 0)) ∷ [];
}

only_open :
    (id : String) (m : MarketState)
    → get open_core.markets id ≡ some m
    → ("m1" ≡ id) × (new_market "m1" (pos 0) ≡ m)
unfolding get
only_open id m h = ground (arith, eq_iff "m1" id)

pub open_core-Consistent : Consistent table two_states [] [] 0 open_core
unfolding last_state get
open_core-Consistent = record {
  inv = record {
    log = refl;
    last = refl;
    hub = new_sse_hub-Inv;
    contents = new_sse_hub-Buffered [];
  };
  log = refl;
  members = λ id m h.
      let (named, e) = only_open id m h in
      subst (λ k. Member k m) named (subst (λ x. Member "m1" x) e (new_market-Member "m1" (pos 0)));
  replays = record {
    present = λ id m h.
        let (named, e) = only_open id m h in
        inr (refl, pos 0, sym e ∙ ap (λ k. new_market k (pos 0)) named);
    absent = λ id h. refl;
  };
  sound = tt;
}
