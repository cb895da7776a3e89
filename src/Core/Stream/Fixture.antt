-- ===== src/Core/Stream/Fixture.antt =====
-- A response in memory that encodes one event, and a stream over it.
use novig_take_home.Base.{
  String, Bool, true, false, ◌≡◌, ◌≢◌, refl, sym, ap, List, [], ◌∷◌, ◌++◌, none, some, arith, ◌==◌,
  ◌&&◌, string_eq, eq_iff, if◌then◌else◌, Bool-cases, inl, inr,
}
use novig_take_home.Base.Int.{pos, int_eq, add64, int64, ◌+ℤ◌}
use novig_take_home.Base.Map.{insert}
use novig_take_home.Base.Decimal.{Bytes}
use novig_take_home.Base.Errors.{Error, errorf, Result, ok, err}
use novig_take_home.Domain.{ReplicationEvent, EventType, market_suspended}
use novig_take_home.Core.Fixture.{table}
use novig_take_home.Core.Hub.{subscribe}
use novig_take_home.Core.Service.State.{Service}
use novig_take_home.Core.Service.Fixture.{suspended_event, one_event_core}
use novig_take_home.Core.Stream.{
  Chunk, Response, Stream, opening, open_stream, streaming, parse_from_seq,
}

pub never_none : (e : Error) → none ≢ some e
never_none e h = cc h

abbrev is_suspension : EventType → Bool
is_suspension market_suspended = true
is_suspension _ = false

abbrev is_known : ReplicationEvent → Bool
is_known evt =
    evt.seq == pos 1
    && (evt.event_id == "e1"
        && (evt.ts_unix_ms == pos 1_000
            && (is_suspension evt.event_type
                && (evt.market_id == "m1" && evt.payload == "suspended"))))

is_suspension_lem : (t : EventType) → is_suspension t ≡ true → t ≡ market_suspended
is_suspension_lem t h = ground arith

is_known_lem : (evt : ReplicationEvent) → is_known evt ≡ true → evt ≡ suspended_event
is_known_lem evt h = ground (
  arith,
  int_eq.equals_iff evt.seq (pos 1),
  int_eq.equals_iff evt.ts_unix_ms (pos 1_000),
  eq_iff evt.event_id "e1",
  eq_iff evt.market_id "m1",
  eq_iff evt.payload "suspended",
  is_suspension_lem evt.event_type,
)

abbrev encode_event : ReplicationEvent → Result String
encode_event evt = if is_known evt then ok "event" else err (errorf "unsupported value" [])

abbrev pub decode_event : String → Result ReplicationEvent
decode_event text = ok suspended_event

pub decode_event-encode_event :
    (evt : ReplicationEvent) (text : String)
    → encode_event evt ≡ ok text
    → decode_event text ≡ ok evt
decode_event-encode_event evt text h = elim (Bool-cases (is_known evt)) [
  | inl known ↦ ap ok (sym (is_known_lem evt known))
  | inr other ↦ let impossible = (rw other at h) in cc impossible
]

abbrev pub buffer : Response
buffer = record {
  Conn = List Chunk;
  written = λ w. w;
  write = λ text w. (none, w ++ text ∷ []);
  marshal_event = encode_event;
  write_done = λ text w w' h. ap (λ z. z.1) (sym h);
  write_failed = λ text w w' e h. absurd (never_none e (ap (λ z. z.0) h));
}

abbrev pub opened : Stream buffer
opened = record {
  phase = opening;
  conn = [];
  next_seq = pos 1;
  channel = 0;
  id = pos 0;
  status = none;
}

abbrev pub subscribed_core : Service table
subscribed_core = record one_event_core {
  hub = record {
    next_id = pos 1;
    subscribers = (pos 0, 0) ∷ [];
    channels = record { capacity = 1_024; buffer = []; closed = false } ∷ [];
  };
}

pub open_stream_first :
    (raw : Bytes)
    → parse_from_seq raw ≡ some (pos 1)
    → open_stream buffer table raw true [] one_event_core ≡ streaming opened subscribed_core
unfolding open_stream subscribe add64 insert int64 ◌+ℤ◌
open_stream_first raw e = rw (e, open_stream) refl
