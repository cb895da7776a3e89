-- ===== src/Core/Service/Replay.antt =====
-- The markets of the core as the replay of its log.
use novig_take_home.Base.{
  String, ◌≡◌, refl, sym, ap, subst, ◌∙◌, ◌⊎◌, inl, inr, List, [], ◌∷◌, ◌++◌, Option, none, some,
  arith, ◌==◌, if◌then◌else◌, string_eq, eq_iff,
}
use novig_take_home.Base.Int.{ℤ}
use novig_take_home.Base.Errors.{Result, ok, err}
use novig_take_home.Base.Map.{Map, get, insert, get-insert, get-insert_inv}
use novig_take_home.Domain.{MarketState, ReplicationEvent}
use novig_take_home.Domain.Breaker.Coherence.{IsCoherent, at_open}
use novig_take_home.Core.Service.State.{new_market}
use novig_take_home.Domain.Json.{Json}

-- A market stands under its own identifier, and its status fields agree.
pub record Member (market_id : String) (m : MarketState) : Type 0 where
  pub named : m.market_id ≡ market_id
  pub coherent : IsCoherent m

pub new_market-Member : (market_id : String) (now : ℤ) → Member market_id (new_market market_id now)
new_market-Member market_id now = record { named = refl; coherent = at_open refl refl refl }

abbrev pub Members : Map String MarketState → Type 0
Members markets = (id : String) (m : MarketState) → get markets id ≡ some m → Member id m

pub Members-insert :
    (id : String) (m : MarketState) (markets : Map String MarketState)
    → Members markets
    → Member id m
    → Members (insert id m markets)
Members-insert id m markets all one j w found = elim (get-insert_inv id j m w markets found) [
  | inl (i, e) ↦
      subst (λ (k : String). Member k w) i (subst (λ (v : MarketState). Member id v) e one)
  | inr (ne, old) ↦ all j w old
]

abbrev pub payload_state : Result MarketState → Option MarketState
payload_state (ok m) = some m
payload_state (err e) = none

module _ (json : Json) where
  -- The state that the last event of a market carries.
  unfoldable pub last_state : List ReplicationEvent → String → Option MarketState
  last_state [] id = none
  last_state (evt ∷ rest) id = elim (last_state rest id) [
    | some m ↦ some m
    | none ↦ if evt.market_id == id then payload_state (json.unmarshal evt.payload) else none
  ]

  pub last_state-append :
      (evts : List ReplicationEvent) (evt : ReplicationEvent) (m : MarketState) (id : String)
      → json.unmarshal evt.payload ≡ ok m
      → last_state (evts ++ evt ∷ []) id
        ≡ (if evt.market_id == id then some m else last_state evts id)
  unfolding last_state
  last_state-append [] evt m id h = ground arith
  last_state-append (x ∷ evts) evt m id h = ground (arith, last_state-append evts evt m id h)

  -- Each market holds the state of its last event, or is as it was when it was first seen and has
  -- no event; a market with an event is there.
  pub record Replays (evts : List ReplicationEvent) (markets : Map String MarketState)
      : Type 0 where
    pub present :
        (id : String) (m : MarketState)
        → get markets id ≡ some m
        → (last_state evts id ≡ some m)
          ⊎ ((last_state evts id ≡ none) × (now : ℤ) × (m ≡ new_market id now))
    pub absent : (id : String) → get markets id ≡ none → last_state evts id ≡ none

  pub Replays-new :
      (evts : List ReplicationEvent) (markets : Map String MarketState) (id : String) (now : ℤ)
      → Replays evts markets
      → get markets id ≡ none
      → Replays evts (insert id (new_market id now) markets)
  Replays-new evts markets id now r missing = record {
    present = λ j m found. elim (get-insert_inv id j (new_market id now) m markets found) [
      | inl (i, e) ↦ inr (rw (← i) (r.absent id missing), now, sym e ∙ ap (λ k. new_market k now) i)
      | inr (ne, old) ↦ r.present j m old
    ];
    absent =
        λ j gone. r.absent j (ground (arith, get-insert id j (new_market id now) markets, gone));
  }

  pub Replays-event :
      (evts : List ReplicationEvent) (markets : Map String MarketState) (evt : ReplicationEvent)
      (m : MarketState)
      → Replays evts markets
      → json.unmarshal evt.payload ≡ ok m
      → Replays (evts ++ evt ∷ []) (insert evt.market_id m markets)
  Replays-event evts markets evt m r h = record {
    present = λ j w found. elim (get-insert_inv evt.market_id j m w markets found) [
      | inl (i, e) ↦ inl (ground (arith, last_state-append evts evt m j h, eq_iff evt.market_id j))
      | inr (ne, old) ↦
          let same : last_state (evts ++ evt ∷ []) j ≡ last_state evts j =
            ground (arith, last_state-append evts evt m j h, eq_iff evt.market_id j) in
          rw same (r.present j w old)
    ];
    absent = λ j gone.
        let before : get markets j ≡ none =
          ground (arith, get-insert evt.market_id j m markets, gone) in
        ground (
          arith,
          last_state-append evts evt m j h,
          get-insert evt.market_id j m markets,
          gone,
          r.absent j before,
        );
  }
