-- ===== src/Core/Stream.antt =====
-- internal/core/http.go: `handleStream` and `writeSSEEvent`. The response is a parameter: a write
-- may fail, and one that does not adds its text. encoding/json on events is a parameter too. The
-- proofs are in the modules below.
pub mod Since
pub mod Writing
pub mod Serving
pub mod Steps
pub mod Schedule
pub mod Exact
pub mod Fixture
mod Tests
use novig_take_home.Base.{
  ℕ, String, Bool, true, false, ◌≡◌, List, [], ◌∷◌, ◌++◌, Option, none, some, if◌then◌else◌,
}
use novig_take_home.Base.Int.{ℤ, pos, ltb_ℤ, add64}
use novig_take_home.Base.Decimal.{Bytes, parse_int}
use novig_take_home.Base.Errors.{Error, Result, ok, err}
use novig_take_home.Domain.{ReplicationEvent}
use novig_take_home.Core.EventStore.{Sqlite, events_from_seq}
use novig_take_home.Core.Hub.{
  SseHub, subscribe, unsubscribe, receive, Received, event, drained, waits,
}
use novig_take_home.Core.Service.State.{Service}

-- What is written in one call: ":connected\n\n", ":keepalive\n\n", "event: replication\n", and
-- "data: %s\n\n" with the event's JSON; or the one line of JSON of an error response.
pub data Chunk : Type 0 where
  connected keepalive event_line error_body : Chunk
  data_line : String → Chunk

-- The response of one request, and the encoding of events.
pub record Response : Type 1 where
  pub Conn : Type 0
  pub written : Conn → List Chunk
  pub write : Chunk → Conn → Option Error × Conn
  pub marshal_event : ReplicationEvent → Result String
  pub write_done :
      (text : Chunk) (w w' : Conn) → write text w ≡ (none, w') → written w' ≡ written w ++ text ∷ []
  -- Nothing whole is written by a call that fails.
  pub write_failed :
      (text : Chunk) (w w' : Conn) (e : Error)
      → write text w ≡ (some e, w')
      → written w' ≡ written w

-- `from_seq` of the query, which is 1 if it is not given.
unfoldable pub parse_from_seq : Bytes → Option ℤ
parse_from_seq [] = some (pos 1)
parse_from_seq (c ∷ s) = elim (parse_int (c ∷ s)) [
  | none ↦ none
  | some parsed ↦ if ltb_ℤ parsed (pos 1) then none else some parsed
]

-- What the `select` finds ready: the request's end, the heartbeat's tick, or the channel.
pub data Ready : Type 0 where
  request_done heartbeat from_channel : Ready

-- Where a handler stands: before its backlog is read; in its loop; before the read of the events
-- that are missing before one that it has received; before the deferred `unsubscribe`; or after.
pub data Phase : Type 0 where
  opening looping : Phase
  filling : ReplicationEvent → Phase
  returning closed : Phase

module _ (http : Response) where
  open http use {Conn, write, marshal_event}

  unfoldable pub write_frame : String → Conn → Option Error × Conn
  write_frame payload w =
      let (failed, w') = write event_line w in
      elim failed [ some e ↦ (some e, w') | none ↦ write (data_line payload) w' ]

  -- `none` is a nil error.
  unfoldable pub write_sse_event : ReplicationEvent → Conn → Option Error × Conn
  unfolding write_frame
  write_sse_event evt w = elim (marshal_event evt) [
    | err e ↦ (some e, w)
    | ok payload ↦ write_frame payload w
  ]

  -- The state of a handler from its subscription on. `status` is that of an error response.
  pub record Stream : Type 0 where
    pub phase : Phase
    pub conn : Conn
    pub next_seq : ℤ
    pub channel : ℕ
    pub id : ℤ
    pub status : Option ℕ

  abbrev pub at_phase : Phase → Stream → Stream
  at_phase phase st = record st { phase = phase }

  -- Writing one event, and whether that succeeds: the next number moves only after the write.
  unfoldable pub send : ReplicationEvent → Stream → Bool × Stream
  unfolding write_sse_event
  send evt st =
      let (failed, w) = write_sse_event evt st.conn in
      elim failed [
        | some _ ↦ (false, record st { conn = w })
        | none ↦ (true, record st { conn = w; next_seq = add64 evt.seq (pos 1) })
      ]

  -- The loops over the backlog and over a gap's events stop at the first failed write.
  unfoldable pub send_all : List ReplicationEvent → Stream → Bool × Stream
  send_all [] st = (true, st)
  send_all (evt ∷ rest) st =
      let (done, st') = send evt st in elim done [ false ↦ (false, st') | true ↦ send_all rest st' ]

  -- The loop goes on after writes that succeed, and returns after one that fails.
  abbrev pub continue : Bool × Stream → Stream
  continue (true, st) = at_phase looping st
  continue (false, st) = at_phase returning st

  -- After the gap's events: the event itself, unless it was among them.
  unfoldable pub send_unless_sent : ReplicationEvent → Bool × Stream → Stream
  unfolding send
  send_unless_sent evt (false, st) = at_phase returning st
  send_unless_sent evt (true, st) =
      if ltb_ℤ evt.seq st.next_seq then at_phase looping st else continue (send evt st)

  unfoldable pub fill_gap : ReplicationEvent → Result (List ReplicationEvent) → Stream → Stream
  unfolding send_all send_unless_sent
  fill_gap evt (err _) st = at_phase returning st
  fill_gap evt (ok events) st = send_unless_sent evt (send_all events st)

  -- An event that is behind is skipped, the next one is written, and one ahead has its gap filled.
  unfoldable pub on_event : ReplicationEvent → Stream → Stream
  unfolding send
  on_event evt st =
      if ltb_ℤ evt.seq st.next_seq
      then st
      else if ltb_ℤ st.next_seq evt.seq
      then at_phase (filling evt) st
      else continue (send evt st)

  unfoldable pub on_received : Received → Stream → Stream
  unfolding on_event
  on_received (event evt) st = on_event evt st
  on_received drained st = at_phase returning st
  on_received waits st = st

  unfoldable pub write_text : Chunk → Stream → Bool × Stream
  write_text text st =
      let (failed, w) = write text st.conn in
      (elim failed [ some _ ↦ false | none ↦ true ], record st { conn = w })

  unfoldable pub send_backlog : List ReplicationEvent → Bool × Stream → Stream
  unfolding send_all
  send_backlog backlog (false, st) = at_phase returning st
  send_backlog backlog (true, st) = continue (send_all backlog st)

  unfoldable pub start_stream : Result (List ReplicationEvent) → Stream → Stream
  unfolding send_backlog write_text
  start_stream (err _) st = record (write_text error_body st).1 {
    phase = returning;
    status = some 500;
  }
  start_stream (ok backlog) st = send_backlog backlog (write_text connected st)

  module _ (sql : Sqlite) where
    abbrev pub with_hub : Service sql → SseHub → Service sql
    with_hub s hub = record s { hub = hub }

    unfoldable pub on_ready : Ready → Stream → Service sql → Stream × Service sql
    unfolding on_received write_text
    on_ready request_done st s = (at_phase returning st, s)
    on_ready heartbeat st s = (continue (write_text keepalive st), s)
    on_ready from_channel st s =
        let (got, hub) = receive st.channel s.hub in (on_received got st, with_hub s hub)

    -- What a read of the log from the next number on makes of the stream.
    abbrev pub read_then :
        (Result (List ReplicationEvent) → Stream → Stream)
        → Stream
        → Service sql
        → Stream × Service sql
    read_then then_do st s =
        let (found, store) = events_from_seq sql st.next_seq s.store in
        (then_do found st, record s { store = store })

    -- The deferred call of `unsubscribe`; `none` is a panic of the hub.
    unfoldable pub leave : Stream → Service sql → Option (Stream × Service sql)
    leave st s = elim (unsubscribe st.id s.hub) [
      | none ↦ none
      | some hub ↦ some (at_phase closed st, with_hub s hub)
    ]

    unfoldable pub step_in : Phase → Ready → Stream → Service sql → Option (Stream × Service sql)
    unfolding on_ready start_stream fill_gap leave
    step_in opening ready st s = some (read_then start_stream st s)
    step_in looping ready st s = some (on_ready ready st s)
    step_in (filling evt) ready st s = some (read_then (fill_gap evt) st s)
    step_in returning ready st s = leave st s
    step_in closed ready st s = some (st, s)

    -- One step: at most one access to what the handler shares with the service, and then what is
    -- the handler's own. `ready` is what the `select` of the loop finds. A call of another user
    -- comes between two steps, so that its insert and its broadcast are one act here.
    unfoldable pub step : Ready → Stream → Service sql → Option (Stream × Service sql)
    unfolding step_in
    step ready st s = step_in st.phase ready st s

    -- How a request ends before its subscription, with status 400 or 500, or its stream.
    pub data Opened : Type 0 where
      refused : ℕ → Opened
      streaming : Stream → Service sql → Opened

    unfoldable pub subscribe_from : ℤ → Conn → Service sql → Opened
    subscribe_from from_seq w s =
        let (channel, id, hub) = subscribe 1024 s.hub in
        streaming
          (record {
            phase = opening;
            conn = w;
            next_seq = from_seq;
            channel = channel;
            id = id;
            status = none;
          })
          (with_hub s hub)

    -- `raw` is the query's value, and `flushes` whether the response can be flushed.
    unfoldable pub open_stream : Bytes → Bool → Conn → Service sql → Opened
    unfolding subscribe_from parse_from_seq
    open_stream raw flushes w s = elim (parse_from_seq raw) [
      | none ↦ refused 400
      | some from_seq ↦ if flushes then subscribe_from from_seq w s else refused 500
    ]
