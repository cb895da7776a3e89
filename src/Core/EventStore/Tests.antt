-- ===== src/Core/EventStore/Tests.antt =====
-- Reads of a small log.
use novig_take_home.Base.{String, ◌≡◌, refl, List, [], ◌∷◌, arith}
use novig_take_home.Base.Int.{ℤ, pos}
use novig_take_home.Domain.{ReplicationEvent, market_updated}
use novig_take_home.Core.EventStore.{select_from}
use novig_take_home.Core.EventStore.Log.{Split, select_from-Split}

abbrev event : ℤ → String → ReplicationEvent
event seq id = record {
  seq = seq;
  event_id = id;
  ts_unix_ms = pos 0;
  event_type = market_updated;
  market_id = "m1";
  payload = "open";
}

abbrev three : List ReplicationEvent
three = event (pos 1) "a" ∷ event (pos 2) "b" ∷ event (pos 3) "c" ∷ []

-- The rows of a table in another order come back sorted.
sorted :
    select_from (pos 2) (event (pos 3) "c" ∷ event (pos 1) "a" ∷ event (pos 2) "b" ∷ [])
    ≡ event (pos 2) "b" ∷ event (pos 3) "c" ∷ []
unfolding select_from
sorted = refl

select_from-Split_example : Split 0 1 3 three
select_from-Split_example =
    select_from-Split 0 1 3 three (omega arith) (omega arith) (refl, (refl, (refl, refl)))
