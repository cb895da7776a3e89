-- ===== src/Domain/Json.antt =====
-- encoding/json on market states, a parameter of the core and of the replica.
use novig_take_home.Base.{String, ◌≡◌}
use novig_take_home.Base.Errors.{Result, ok}
use novig_take_home.Domain.Types.{MarketState}

-- What is read back from an encoded state is that state.
pub record Json : Type 0 where
  pub marshal : MarketState → Result String
  pub unmarshal : String → Result MarketState
  pub unmarshal-marshal :
      (state : MarketState) (payload : String)
      → marshal state ≡ ok payload
      → unmarshal payload ≡ ok state
