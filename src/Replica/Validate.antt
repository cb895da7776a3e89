-- ===== src/Replica/Validate.antt =====
-- internal/replica/service.go: the checks of a snapshot and of an event. A `range` over a map visits
-- its entries in the order of the list, which is any.
pub mod Accepted
pub mod Snapshots
use novig_take_home.Base.{
  String, true, false, List, [], ◌∷◌, Option, none, some, ◌==◌, if◌then◌else◌, not, string_eq,
}
use novig_take_home.Base.Int.{ℤ, pos, ltb_ℤ, leb_ℤ}
use novig_take_home.Base.Errors.{Arg, int, text, Error, errorf, wrap, Result, ok, err}
use novig_take_home.Base.Map.{Map, insert}
use novig_take_home.Domain.{
  MarketState, ReplicationEvent, SnapshotResponse, EventType, market_updated, market_suspended,
  market_reopened, other_event, MarketStatus, status_unset, status_open, status_suspended,
  other_status, status_eq,
}
use novig_take_home.Domain.Json.{Json}

abbrev event_type_text : EventType → String
event_type_text market_updated = "MARKET_UPDATED"
event_type_text market_suspended = "MARKET_SUSPENDED"
event_type_text market_reopened = "MARKET_REOPENED"
event_type_text (other_event s) = s

abbrev status_text : MarketStatus → String
status_text status_unset = ""
status_text status_open = "OPEN"
status_text status_suspended = "SUSPENDED"
status_text (other_status s) = s

abbrev pub unsupported_status : MarketStatus → Option Error
unsupported_status status_open = none
unsupported_status status_suspended = none
unsupported_status status =
    some (errorf "unsupported market status %q" (text (status_text status) ∷ []))

-- `none` is a nil error.
unfoldable pub validate_market_state : MarketState → Option Error
validate_market_state market =
    if market.market_id == ""
    then some (errorf "market_id is required" [])
    else unsupported_status market.status

abbrev pub unsupported_event : EventType → Option Error
unsupported_event (other_event s) = some (errorf "unsupported event_type %q" (text s ∷ []))
unsupported_event _ = none

unfoldable pub validate_event_envelope : ReplicationEvent → Option Error
validate_event_envelope evt =
    if evt.event_id == ""
    then some (errorf "event_id is required" [])
    else if leb_ℤ evt.seq (pos 0)
    then some (errorf "seq must be >= 1: %d" (int evt.seq ∷ []))
    else if evt.market_id == ""
    then some (errorf "market_id is required" [])
    else unsupported_event evt.event_type

-- The status that an event type asks of its payload.
abbrev status_mismatch : EventType → MarketStatus → Error
status_mismatch event_type status =
    errorf "event_type=%s requires payload status=%s"
      (text (event_type_text event_type) ∷ text (status_text status) ∷ [])

abbrev pub validate_status : EventType → MarketState → Result MarketState
validate_status market_suspended market =
    if market.status == status_suspended
    then ok market
    else err (status_mismatch market_suspended status_suspended)
validate_status market_reopened market =
    if market.status == status_open
    then ok market
    else err (status_mismatch market_reopened status_open)
validate_status _ market = ok market

unfoldable pub validate_payload : ReplicationEvent → MarketState → Result MarketState
unfolding validate_market_state
validate_payload evt market = elim (validate_market_state market) [
  | some e ↦ err (wrap "invalid payload market state: %w" [] e)
  | none ↦
      if market.market_id == evt.market_id
      then validate_status evt.event_type market
      else err (
          errorf "payload market_id mismatch: envelope=%q payload=%q"
            (text evt.market_id ∷ text market.market_id ∷ []))
]

unfoldable pub decode_and_validate_event_payload : Json → ReplicationEvent → Result MarketState
unfolding validate_payload
decode_and_validate_event_payload json evt = elim (json.unmarshal evt.payload) [
  | err e ↦ err (wrap "decode payload: %w" [] e)
  | ok market ↦ validate_payload evt market
]

-- One round of the loop over the snapshot's markets.
unfoldable pub validate_entry : String → MarketState → Option Error
unfolding validate_market_state
validate_entry market_id market =
    if market_id == ""
    then some (errorf "snapshot market_id key must be non-empty" [])
    else if not (market.market_id == market_id)
    then some (
        errorf "snapshot market_id mismatch for key=%q payload=%q"
          (text market_id ∷ text market.market_id ∷ []))
    else elim (validate_market_state market) [
      | none ↦ none
      | some e ↦ some (wrap "invalid snapshot market %q: %w" (text market_id ∷ []) e)
    ]

unfoldable pub validate_entries :
    Map String MarketState → Map String MarketState → Result (Map String MarketState)
unfolding validate_entry
validate_entries [] validated = ok validated
validate_entries ((market_id, market) ∷ rest) validated = elim (validate_entry market_id market) [
  | some e ↦ err e
  | none ↦ validate_entries rest (insert market_id market validated)
]

-- A nil map of markets is the empty one, for which the loop returns the same.
unfoldable pub validate_snapshot : SnapshotResponse → ℤ → Result (Map String MarketState)
unfolding validate_entries
validate_snapshot snapshot min_seq =
    if ltb_ℤ snapshot.last_seq (pos 0)
    then err (errorf "snapshot last_seq must be >= 0: %d" (int snapshot.last_seq ∷ []))
    else if ltb_ℤ snapshot.last_seq min_seq
    then err (
        errorf "snapshot last_seq regressed: current=%d snapshot=%d"
          (int min_seq ∷ int snapshot.last_seq ∷ []))
    else validate_entries snapshot.markets []
