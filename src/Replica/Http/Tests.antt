-- ===== src/Replica/Http/Tests.antt =====
-- Requests to a replica with one market.
use novig_take_home.Base.{String, true, ◌≡◌, ◌≢◌, ◌↔◌, List, [], ◌∷◌, some, string_eq}
use novig_take_home.Base.Int.{pos}
use novig_take_home.Base.Map.{get}
use novig_take_home.Base.Sort.{IsSortedBy}
use mathlib.Core.List.{Perm}
use novig_take_home.Domain.{MarketState}
use novig_take_home.Core.Fixture.{open_market, suspended_market}
use novig_take_home.Replica.Fixture.{in_memory, full_config, empty_tables}
use novig_take_home.Replica.Service.State.{Service, restored}
use novig_take_home.Replica.Http.{
  markets_body, market_body, by_market_id, markets, handle_markets, handle_market,
}
use novig_take_home.Replica.Http.Listing.{handle_markets-sorted, handle_market_iff}

abbrev two_markets : Service in_memory
two_markets = record (restored in_memory full_config empty_tables (pos 0)) {
  markets = ("m2", record open_market { market_id = "m2" }) ∷ ("m1", suspended_market) ∷ [];
}

markets_in_order :
    (listing : List MarketState) × (handle_markets in_memory true two_markets
      ≡ (200, markets_body listing))
    × IsSortedBy by_market_id listing
    × Perm listing (markets in_memory two_markets)
markets_in_order = handle_markets-sorted in_memory two_markets

handle_market_iff_example :
    (handle_market in_memory true "m1" [] two_markets ≡ (200, market_body suspended_market)) ↔ (
      (true ≡ true)
      × (◌≢◌ {A = String} "m1" "")
      × (◌≡◌ {A = List String} [] [])
      × (get two_markets.markets "m1" ≡ some suspended_market))
handle_market_iff_example = handle_market_iff in_memory two_markets true "m1" [] suspended_market
