-- ===== src/Replica/Validate/Accepted.antt =====
-- Which states and events are accepted.
use novig_take_home.Base.{
  ◌≡◌, ◌≢◌, ◌↔◌, refl, sym, ap, ◌∙◌, subst, none, arith, eq_iff, ◌==◌, Bool-cases, Option-cases,
  inl, inr, ◌⊎◌, string_eq,
}
use novig_take_home.Base.Int.{pos, ◌<ℤ◌}
use novig_take_home.Base.Errors.{ok, Result-cases}
use novig_take_home.Domain.{
  MarketState, ReplicationEvent, EventType, market_updated, market_suspended, market_reopened,
  other_event, MarketStatus, status_open, status_suspended, status_eq, same_status_iff,
}
use novig_take_home.Domain.Json.{Json}
use novig_take_home.Replica.Validate.{
  unsupported_event, validate_status, validate_market_state, validate_event_envelope,
  validate_payload, decode_and_validate_event_payload,
}

-- A state with an identifier, open or suspended.
abbrev pub IsWellFormed : MarketState → Type 0
IsWellFormed market =
    (market.market_id ≢ "") × ((market.status ≡ status_open) ⊎ (market.status ≡ status_suspended))

pub validate_market_state_iff :
    (market : MarketState) → (validate_market_state market ≡ none) ↔ IsWellFormed market
unfolding validate_market_state
validate_market_state_iff market = ground (arith, eq_iff market.market_id "")

-- The status that an event's type asks for.
abbrev pub Requires : EventType → MarketStatus → Type 0
Requires market_suspended status = status ≡ status_suspended
Requires market_reopened status = status ≡ status_open
Requires _ status = Unit

abbrev pub IsSupported : EventType → Type 0
IsSupported (other_event _) = ⊥
IsSupported _ = Unit

abbrev pub IsEnvelope : ReplicationEvent → Type 0
IsEnvelope evt =
    (evt.event_id ≢ "") × (pos 0 <ℤ evt.seq) × (evt.market_id ≢ "") × IsSupported evt.event_type

unsupported_event_iff :
    (event_type : EventType) → (unsupported_event event_type ≡ none) ↔ IsSupported event_type
unsupported_event_iff market_updated = (λ _. tt, λ _. refl)
unsupported_event_iff market_suspended = (λ _. tt, λ _. refl)
unsupported_event_iff market_reopened = (λ _. tt, λ _. refl)
unsupported_event_iff (other_event s) = (λ h. cc h, λ x. absurd x)

pub validate_event_envelope_iff :
    (evt : ReplicationEvent) → (validate_event_envelope evt ≡ none) ↔ IsEnvelope evt
unfolding validate_event_envelope
validate_event_envelope_iff evt =
    ground
      (arith, eq_iff evt.event_id "", eq_iff evt.market_id "", unsupported_event_iff evt.event_type)

validate_status_iff :
    (event_type : EventType) (state market : MarketState)
    → (validate_status event_type state ≡ ok market)
      ↔ ((state ≡ market) × Requires event_type market.status)
validate_status_iff market_updated state market = ground arith
validate_status_iff market_suspended state market =
    ground (arith, same_status_iff state.status status_suspended)
validate_status_iff market_reopened state market =
    ground (arith, same_status_iff state.status status_open)
validate_status_iff (other_event s) state market = ground arith

-- What is asked of a payload's state.
abbrev pub IsPayloadOf : ReplicationEvent → MarketState → Type 0
IsPayloadOf evt market =
    IsWellFormed market × (market.market_id ≡ evt.market_id) × Requires evt.event_type market.status

validate_payload_iff :
    (evt : ReplicationEvent) (state market : MarketState)
    → (validate_payload evt state ≡ ok market) ↔ ((state ≡ market) × IsPayloadOf evt market)
unfolding validate_payload
validate_payload_iff evt state market = elim (Option-cases (validate_market_state state)) [
  | inl e ↦
      let wf = (validate_market_state_iff state).0 e in
      elim (Bool-cases (state.market_id == evt.market_id)) [
        | inl same ↦
            let id = (eq_iff state.market_id evt.market_id).0 same in
            rw (e, same, validate_payload)
              (
                λ h.
                    let (eq, req) = (validate_status_iff evt.event_type state market).0 h in
                    (
                      eq,
                      (
                        subst IsWellFormed eq wf,
                        subst (λ (m : MarketState). m.market_id ≡ evt.market_id) eq id,
                        req,
                      ),
                    ),
                λ h. (validate_status_iff evt.event_type state market).1 (h.0, h.1.2),
              )
        | inr other ↦
            rw (e, other, validate_payload)
              (
                λ h. cc h,
                λ h. absurd (
                    cc (
                      sym other
                      ∙ (eq_iff state.market_id evt.market_id).1
                          (ap (λ (m : MarketState). m.market_id) h.0 ∙ h.1.1))),
              )
      ]
  | inr (x, e) ↦
      rw (e, validate_payload)
        (
          λ h. cc h,
          λ h. absurd (
              cc
                (sym e ∙ (validate_market_state_iff state).1 (subst IsWellFormed (sym h.0) h.1.0))),
        )
]

-- An event's payload is accepted as a state exactly when it decodes to that state, and the state is
-- well formed, of the event's market, and of the status that the event's type requires.
pub decode_and_validate_event_payload_iff :
    (json : Json) (evt : ReplicationEvent) (market : MarketState)
    → (decode_and_validate_event_payload json evt ≡ ok market)
      ↔ ((json.unmarshal evt.payload ≡ ok market) × IsPayloadOf evt market)
unfolding decode_and_validate_event_payload
decode_and_validate_event_payload_iff json evt market =
    elim (Result-cases (json.unmarshal evt.payload)) [
      | inl (state, e) ↦
          rw (e, decode_and_validate_event_payload)
            (
              λ h. let (eq, good) = (validate_payload_iff evt state market).0 h in (ap ok eq, good),
              λ h. (validate_payload_iff evt state market).1 (cc h.0, h.1),
            )
      | inr (x, e) ↦ rw (e, decode_and_validate_event_payload) (λ h. cc h, λ h. cc h.0)
    ]
