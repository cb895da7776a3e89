-- ===== src/Replica/Service/Connection.antt =====
-- internal/replica/service.go: `fetchSnapshot`, `consumeStream` around its frames, and the error of
-- `monitorStreamIdle`. What the network yields is an argument.
pub mod Settles
use novig_take_home.Base.{
  String, Bool, true, false, List, [], ◌∷◌, Option, none, some, if◌then◌else◌, ◌==◌,
}
use novig_take_home.Base.Int.{ℤ, pos, add64, int_eq}
use novig_take_home.Base.Decimal.{Bytes, format_int}
use novig_take_home.Base.Errors.{
  Error, sentinel, eof, stream_idle_timeout, errorf, wrap, int, text, Result, ok, err,
}
use novig_take_home.Base.Map.{Map}
use novig_take_home.Domain.{MarketState, SnapshotResponse}
use novig_take_home.Domain.Json.{Json}
use novig_take_home.Replica.Store.{Sqlite}
use novig_take_home.Replica.Service.State.{
  Service, set_connected, reset_reconnect_backoff, clear_last_error,
}
use novig_take_home.Replica.Service.Stream.{Line, consume_lines}
use novig_take_home.Replica.Service.Refresh.{refresh_from_snapshot}

-- A request that fails before there is a response; or a response, with its status, the text that
-- is read of its body if the status is not 200, and what is read of it else.
pub data Reply {ℓ} (A : Type ℓ) : Type ℓ where
  no_response : Error → Reply A
  response : ℤ → String → A → Reply A

-- What encoding/json makes of a snapshot's text; `none` is a nil map.
pub record SnapshotBody : Type 0 where
  pub last_seq : ℤ
  pub markets : Option (Map String MarketState)

abbrev given_markets : Option (Map String MarketState) → Map String MarketState
given_markets none = []
given_markets (some markets) = markets

unfoldable pub decoded_snapshot : Result SnapshotBody → Result SnapshotResponse
decoded_snapshot (err e) = err e
decoded_snapshot (ok body) =
    ok (record { last_seq = body.last_seq; markets = given_markets body.markets })

unfoldable pub fetch_snapshot : Reply (Result SnapshotBody) → Result SnapshotResponse
unfolding decoded_snapshot
fetch_snapshot (no_response e) = err e
fetch_snapshot (response status body decoded) =
    if status == pos 200
    then decoded_snapshot decoded
    else err (errorf "snapshot status %d: %s" (int status ∷ text body ∷ []))

-- The lines of a stream with the time at which each is read, whether the monitor's timer has run
-- out by the end, and the error of the scanner.
pub record Frames : Type 0 where
  pub lines : List (Line × ℤ)
  pub timed_out : Bool
  pub scan_error : Option Error

-- The duration is an argument of the format.
unfoldable pub stream_end : ℤ → Frames → Error
stream_end idle_timeout frames = elim frames.timed_out [
  | true ↦ wrap "%w after %s" (int idle_timeout ∷ []) (sentinel stream_idle_timeout)
  | false ↦ elim frames.scan_error [ some e ↦ e | none ↦ sentinel eof ]
]

module _ (sql : Sqlite) where
  unfoldable pub ensure_bootstrapped :
      Reply (Result SnapshotBody) → ℤ → Service sql → Option Error × Service sql
  unfolding fetch_snapshot
  ensure_bootstrapped reply now_ms s =
      if s.bootstrapped
      then (none, s)
      else refresh_from_snapshot sql (fetch_snapshot reply) now_ms s

  -- The number in the request's query.
  unfoldable pub stream_query : Service sql → Bytes
  stream_query s = format_int (add64 s.last_applied_seq (pos 1))

  module _ (json : Json) where
    -- From a response of status 200 on: the connection is marked, and unmarked at the return.
    unfoldable pub read_stream : Frames → Service sql → Error × Service sql
    unfolding stream_end
    read_stream frames s =
        let open_service =
          clear_last_error sql (reset_reconnect_backoff sql (set_connected sql true s)) in
        let (e, s') =
          consume_lines sql json frames.lines (stream_end s.cfg.stream_idle_timeout frames)
            open_service in
        (e, set_connected sql false s')

    unfoldable pub on_reply : Reply Frames → Service sql → Error × Service sql
    unfolding read_stream
    on_reply (no_response e) s = (e, s)
    on_reply (response status body frames) s =
        if status == pos 200
        then read_stream frames s
        else (errorf "stream status %d: %s" (int status ∷ text body ∷ []), s)

    -- The network answers to that number. The loop ends with an error always.
    unfoldable pub consume_stream : (Bytes → Reply Frames) → Service sql → Error × Service sql
    unfolding on_reply stream_query
    consume_stream network s = on_reply (network (stream_query s)) s
