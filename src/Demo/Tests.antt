-- ===== src/Demo/Tests.antt =====
-- A script whose first polls are lost, and whose replicas then show what it waits for.
use novig_take_home.Base.{◌≡◌, ◌↔◌, refl, List, [], ◌∷◌, true}
use novig_take_home.Base.Int.{pos}
use novig_take_home.Base.Errors.{errorf, eof, sentinel, Result, ok, err}
use novig_take_home.Domain.{MarketState}
use novig_take_home.Core.Fixture.{open_market, suspended_market}
use novig_take_home.Replica.Fixture.{in_memory, empty_tables, full_config}
use novig_take_home.Replica.Service.State.{Service, Status, restored}
use novig_take_home.Replica.Service.Connection.{Reply, response}
use novig_take_home.Replica.Http.{Body, market_body, status_body}
use novig_take_home.Demo.{default_market_id, verified, script}
use novig_take_home.Demo.Verified.{Poll, lost, reaches, Polls, as_run, HasSeen, script-verified_iff}

abbrev decode_market : Body → Result MarketState
decode_market (market_body m) = ok m
decode_market _ = err (errorf "no market" [])

abbrev decode_status : Body → Result Status
decode_status (status_body s) = ok s
decode_status _ = err (errorf "no status" [])

abbrev with_market : MarketState → Service in_memory
with_market m = record (restored in_memory full_config empty_tables (pos 0)) {
  connected = true;
  markets = (default_market_id, m) ∷ [];
}

abbrev is_open : List (Poll in_memory)
is_open = lost (sentinel eof) ∷ reaches (with_market open_market) ∷ []

abbrev is_suspended : List (Poll in_memory)
is_suspended = reaches (with_market open_market) ∷ reaches (with_market suspended_market) ∷ []

abbrev done : Reply {0} Unit
done = response (pos 200) "" tt

abbrev polls : Polls in_memory decode_market decode_status
polls = record {
  connects1 = is_open;
  connects2 = is_open;
  spike = done;
  suspends1 = is_suspended;
  suspends2 = is_suspended;
  normalize = done;
  reopens1 = is_open;
  reopens2 = is_open;
}

script-verified_example :
    (script (as_run in_memory decode_market decode_status polls) ≡ verified)
    ↔ HasSeen in_memory decode_market decode_status polls
script-verified_example =
    script-verified_iff in_memory decode_market decode_status polls (λ m. refl) (λ s. refl)
