-- ===== src/Replica/Http.antt =====
-- internal/replica/http.go, with `Markets` of internal/replica/service.go. A handler takes whether
-- the method is GET, and returns the status and the body before it is encoded; it only reads the
-- service. The mux is left out.
pub mod Listing
mod Tests
use novig_take_home.Base.{
  ℕ, String, Bool, true, false, List, [], ◌∷◌, Option, none, some, if◌then◌else◌, ◌==◌, string_eq,
}
use novig_take_home.Base.Map.{Map}
use novig_take_home.Base.Order.{str_leb}
use novig_take_home.Base.Sort.{sort_by}
use novig_take_home.Domain.{MarketState, ReplicationEvent}
use novig_take_home.Replica.Store.{Sqlite}
use novig_take_home.Replica.Service.State.{Service, Status, market_by_id, market_history, status}

pub data Body : Type 0 where
  error_body : String → Body
  markets_body : List MarketState → Body
  market_body : MarketState → Body
  history_body : String → List ReplicationEvent → Body
  status_body : Status → Body
  healthy : Body

-- The loop of `Markets`. Go goes through a map in any order; the listing is sorted after it.
abbrev pub values : Map String MarketState → List MarketState
values [] = []
values ((_, market) ∷ rest) = market ∷ values rest

abbrev pub by_market_id : MarketState → MarketState → Bool
by_market_id a b = str_leb a.market_id b.market_id

not_found : ℕ × Body
not_found = (404, error_body "not found")

not_allowed : ℕ × Body
not_allowed = (405, error_body "method not allowed")

unfoldable pub found_market : Option MarketState → ℕ × Body
found_market none = (404, error_body "market not found")
found_market (some market) = (200, market_body market)

module _ (sql : Sqlite) where
  abbrev pub markets : Service sql → List MarketState
  markets s = values s.markets

  unfoldable pub handle_markets : Bool → Service sql → ℕ × Body
  unfolding not_allowed
  handle_markets is_get s =
      if is_get then (200, markets_body (sort_by by_market_id (markets s))) else not_allowed

  -- What follows the identifier in the path.
  unfoldable pub market_route : String → List String → Service sql → ℕ × Body
  unfolding not_found found_market
  market_route market_id [] s = found_market (market_by_id sql market_id s)
  market_route market_id (part ∷ []) s =
      if part == "history"
      then (200, history_body market_id (market_history sql market_id s))
      else not_found
  market_route market_id (_ ∷ _ ∷ _) s = not_found

  -- The rest of the path after "/markets/", as `strings.Split` parts it at "/": there is always a
  -- first part, which is empty for an empty rest.
  unfoldable pub handle_market : Bool → String → List String → Service sql → ℕ × Body
  unfolding market_route not_allowed not_found
  handle_market is_get market_id parts s =
      if is_get
      then (if market_id == "" then not_found else market_route market_id parts s)
      else not_allowed

  unfoldable pub handle_status : Bool → Service sql → ℕ × Body
  unfolding not_allowed
  handle_status is_get s = if is_get then (200, status_body (status sql s)) else not_allowed
