-- ===== src/EndToEnd/Wire.antt =====
-- What a handler of the core writes, as a replica reads it.
use Prim.Native.String.{len}
use novig_take_home.Base.{
  ℕ, suc, ◌+◌, ◌<◌, ◌^◌, String, true, ◌≡◌, refl, sym, ap, ◌∙◌, subst, List, [], ◌∷◌, ◌++◌, Option,
  none, some, false, Bool, leb, if◌then◌else◌, ◌*◌, arith, append_assoc, string_eq,
}
use novig_take_home.Base.Int.{ℤ, pos, add64, int64, ◌+ℤ◌, int_eq}
use novig_take_home.Base.Decimal.{format_int}
use novig_take_home.Base.Lists.{length, length-append, All, All-prefix, All-append_inv}
use novig_take_home.Base.Errors.{Error, errorf, Result, ok}
use novig_take_home.Base.Map.{get}
use novig_take_home.Domain.{ReplicationEvent}
use novig_take_home.Domain.Json.{Json}
use novig_take_home.Core.EventStore as Events
use novig_take_home.Core.EventStore.{select_from}
use novig_take_home.Core.EventStore.Log.{Sequenced, Sequenced-length}
use novig_take_home.Core.Service.State as Core
use novig_take_home.Core.Service.Replay.{last_state}
use novig_take_home.Core.Service.Consistency.{Consistent, Sound}
use novig_take_home.Core.Service.Emission.{next_seq}
use novig_take_home.Core.Stream as Handler
use novig_take_home.Core.Stream.{
  Chunk, connected, keepalive, event_line, error_body, Response, Stream, Opened, streaming,
  open_stream, parse_from_seq,
}
use novig_take_home.Core.Stream.Since.{
  since, since-append, since-all, since-none, select_from-since, Sequenced-split,
}
use novig_take_home.Core.Stream.Writing.{Encodes, payloads, sent_data}
use novig_take_home.Core.Stream.Schedule.{Act, total_emits, run}
use novig_take_home.Core.Stream.Exact.{open_stream-Streamed, parse_from_seq-format_int}
use novig_take_home.Replica.Store.{Sqlite, AppliedEvent}
use novig_take_home.Replica.Service.State.{Service, set_connected}
use novig_take_home.Replica.Service.Stream.{Line, other_line, data_line, consume_lines}
use novig_take_home.Replica.Service.Stream.Lines.{Reliable, AreNew, LinesOf, at_end, skips, carries}
use novig_take_home.Replica.Service.Stream.CatchUp.{or_else, consume_lines-CaughtUp}
use novig_take_home.Replica.Service.Connection.{
  stream_query, Reply, response, Frames, stream_end, read_stream, on_reply,
}
use novig_take_home.EndToEnd.{IsNamed, All-IsGood, Sequenced-tail}

-- The longest line that the scanner's buffer holds, with its newline.
abbrev pub max_line : ℕ
max_line = 2 * 1_024 * 1_024

-- Whether "data: ", the text and the newline fit.
abbrev pub fits_line : String → Bool
fits_line text = leb (6 + len text + 1) max_line

-- The lines that the scanner finds in what was written, and its error: each text ends with an empty
-- line but the one that only names the event and the body of an error response. A line that is too
-- long ends the scan. `parse` is encoding/json.
unfoldable pub lines_of :
    (String → Result ReplicationEvent) → ℤ → List Chunk → List (Line × ℤ) × Option Error
lines_of parse now_ms [] = ([], none)
lines_of parse now_ms (connected ∷ rest) =
    let (lines, problem) = lines_of parse now_ms rest in
    ((other_line, now_ms) ∷ (other_line, now_ms) ∷ lines, problem)
lines_of parse now_ms (keepalive ∷ rest) =
    let (lines, problem) = lines_of parse now_ms rest in
    ((other_line, now_ms) ∷ (other_line, now_ms) ∷ lines, problem)
lines_of parse now_ms (event_line ∷ rest) =
    let (lines, problem) = lines_of parse now_ms rest in ((other_line, now_ms) ∷ lines, problem)
lines_of parse now_ms (error_body ∷ rest) =
    let (lines, problem) = lines_of parse now_ms rest in ((other_line, now_ms) ∷ lines, problem)
lines_of parse now_ms (Handler.data_line text ∷ rest) =
    let (lines, problem) = lines_of parse now_ms rest in
    if fits_line text
    then ((data_line (parse text), now_ms) ∷ (other_line, now_ms) ∷ lines, problem)
    else ([], some (errorf "bufio.Scanner: token too long" []))

abbrev status_code : Option ℕ → ℤ
status_code none = pos 200
status_code (some code) = pos code

-- How a stream ends for its reader, after the lines: by the monitor, by an error of the connection,
-- or else at its end.
pub record Cut : Type 0 where
  pub timed_out : Bool
  pub broken : Option Error

abbrev pub frames_of : Cut → List (Line × ℤ) × Option Error → Frames
frames_of cut (lines, problem) = record {
  lines = lines;
  timed_out = cut.timed_out;
  scan_error = or_else problem cut.broken;
}

-- The error at the end of a stream whose lines all fit.
abbrev pub cut_error : ℤ → Cut → Error
cut_error idle_timeout cut = stream_end idle_timeout (frames_of cut ([], none))

module _ (http : Response) (parse : String → Result ReplicationEvent) where
  -- The response, as the replica's client has it.
  abbrev pub reply_of : ℤ → Cut → String → Stream http → Reply Frames
  reply_of now_ms cut body st =
      response (status_code st.status) body
        (frames_of cut (lines_of parse now_ms (http.written st.conn)))

  -- An event that encoding/json reads back from its text, and whose line is not too long.
  abbrev pub IsReadable : ReplicationEvent → Type 0
  IsReadable evt =
      (text : String)
      → http.marshal_event evt ≡ ok text
      → (parse text ≡ ok evt) × (fits_line text ≡ true)

  lines_of-LinesOf :
      (now_ms : ℤ) (chunks : List Chunk) (evts : List ReplicationEvent)
      → Encodes http evts (payloads chunks)
      → All IsReadable evts
      → LinesOf evts (lines_of parse now_ms chunks).0 × ((lines_of parse now_ms chunks).1 ≡ none)
  unfolding payloads lines_of
  lines_of-LinesOf now_ms [] [] e good = (at_end, refl)
  lines_of-LinesOf now_ms [] (x ∷ evts) e good = absurd e
  lines_of-LinesOf now_ms (connected ∷ rest) evts e good =
      let (lines, clean) = lines_of-LinesOf now_ms rest evts e good in
      (skips now_ms (skips now_ms lines), clean)
  lines_of-LinesOf now_ms (keepalive ∷ rest) evts e good =
      let (lines, clean) = lines_of-LinesOf now_ms rest evts e good in
      (skips now_ms (skips now_ms lines), clean)
  lines_of-LinesOf now_ms (event_line ∷ rest) evts e good =
      let (lines, clean) = lines_of-LinesOf now_ms rest evts e good in (skips now_ms lines, clean)
  lines_of-LinesOf now_ms (error_body ∷ rest) evts e good =
      let (lines, clean) = lines_of-LinesOf now_ms rest evts e good in (skips now_ms lines, clean)
  lines_of-LinesOf now_ms (Handler.data_line text ∷ rest) [] e good = absurd e
  lines_of-LinesOf now_ms (Handler.data_line text ∷ rest) (evt ∷ evts) e good =
      let (lines, clean) = lines_of-LinesOf now_ms rest evts e.1 good.1 in
      let (read, fits) = good.0 text e.0 in
      rw (fits, read) (carries evt now_ms (skips now_ms lines), clean)

AreNew-prefix :
    (rows : List AppliedEvent) (xs ys : List ReplicationEvent)
    → AreNew rows (xs ++ ys)
    → AreNew rows xs
AreNew-prefix rows [] ys h = tt
AreNew-prefix rows (x ∷ xs) ys h = (h.0, All-prefix _ xs ys h.1, AreNew-prefix rows xs ys h.2)

some_injective {ℓ} : {A : Type ℓ} (a b : A) → some a ≡ some b → a ≡ b
some_injective a b h = cc h

-- What a gap-free log has after its first part.
select_from-after :
    (n m : ℕ) (old new : List ReplicationEvent)
    → Sequenced 0 old n
    → Sequenced 0 (old ++ new) m
    → select_from (pos (suc n)) (old ++ new) ≡ new
select_from-after n m old new first all =
    let more = Sequenced-tail 0 n m old new first all in
    select_from-since n 0 m (old ++ new) all
    ∙ since-append (pos (suc n)) old new
    ∙ ap (λ z. z ++ since (pos (suc n)) new) (since-none n 0 n old (omega arith) first)
    ∙ since-all n n m new (omega arith) more

regroup : (a b c d : List ReplicationEvent) → a ++ ((b ++ c) ++ d) ≡ (a ++ b) ++ (c ++ d)
regroup a b c d = ap (λ z. a ++ z) (append_assoc b c d) ∙ sym (append_assoc a b (c ++ d))

module _ (core_sql : Events.Sqlite) (sql : Sqlite) (json : Json) where
  asked_number :
      (n : ℕ) (s : Service sql) (from_seq : ℤ)
      → s.last_applied_seq ≡ pos n
      → n + 1 < 2 ^ 63
      → parse_from_seq (stream_query sql s) ≡ some from_seq
      → from_seq ≡ pos (suc n)
  unfolding stream_query add64 int64 ◌+ℤ◌
  asked_number n s from_seq at room h =
      let query : stream_query sql s ≡ format_int (pos (suc n)) =
        ap (λ z. format_int (add64 z (pos 1))) at ∙ ap format_int (next_seq n room) in
      let read = parse_from_seq-format_int (pos (suc n)) (omega arith) (omega (arith, room)) in
      some_injective from_seq (pos (suc n)) (sym h ∙ ap parse_from_seq query ∙ read)

  -- The service from a response of status 200 on.
  abbrev pub begun : Service sql → Service sql
  begun s = record s { connected = true; reconnect_attempts = pos 0; last_error = none }

  -- What a replica at number n makes of what a handler has sent it.
  pub record Delivered (http : Response) (parse : String → Result ReplicationEvent) (now_ms : ℤ)
      (n : ℕ) (cut : Cut) (body : String) (s : Service sql)
      (r : Option (Stream http × Core.Service core_sql)) : Type 0 where
    pub stream : Stream http
    pub core : Core.Service core_sql
    pub returns : r ≡ some (stream, core)
    pub sent : List ReplicationEvent
    pub joined :
        sent ++ select_from stream.next_seq (core_sql.rows core.store)
        ≡ select_from (pos (suc n)) (core_sql.rows core.store)
    pub replica : Service sql
    pub reads :
        on_reply sql json (reply_of http parse now_ms cut body stream) s
        ≡ (cut_error s.cfg.stream_idle_timeout cut, replica)
    pub number : replica.last_applied_seq ≡ pos (n + length sent)
    pub states :
        (id : String)
        → get replica.markets id ≡ or_else (last_state json sent id) (get s.markets id)

  module _ (http : Response) (parse : String → Result ReplicationEvent) where
    on_reply-reads :
        (now_ms : ℤ) (cut : Cut) (body : String) (st : Stream http) (s : Service sql)
        → st.status ≡ none
        → (lines_of parse now_ms (http.written st.conn)).1 ≡ none
        → let c =
            consume_lines sql json
              (lines_of parse now_ms (http.written st.conn)).0
              (cut_error s.cfg.stream_idle_timeout cut)
              (begun s) in
          on_reply sql json (reply_of http parse now_ms cut body st) s
          ≡ (c.0, set_connected sql false c.1)
    unfolding on_reply read_stream
    on_reply-reads now_ms cut body st s fine clean = rw (fine, clean) refl

  module _ (http : Response) (parse : String → Result ReplicationEvent) (works : Reliable sql) where
    -- The core is consistent with its log, whose first n events the replica has; nothing of data is
    -- in the response yet; and the handler has begun the stream that the replica asks for. Beside
    -- any calls of other users, in any order that leaves room for the numbers in 64 bits, and after
    -- which the status is not that of an error: the replica, whose client has the response so far,
    -- reads all the events that the handler has written, up to the end or the cut of the stream,
    -- with whose error it returns. The events written are, with what the log then has from the
    -- handler's next number on, exactly those after the first n; the replica's number is higher by
    -- as many, and each market has the state that the last of them carries, or the one it had. The
    -- replica's store does not fail. The events after the first n have identifiers that are not
    -- empty and new, and each, if encoding/json encodes it, is what it decodes from the text, and its
    -- line fits the scanner's buffer of 2 MiB.
    pub stream-Delivered :
        (before old evts : List ReplicationEvent) (n m : ℕ) (core : Core.Service core_sql)
        (w : http.Conn) (acts : List Act) (st : Stream http) (core₁ : Core.Service core_sql)
        (now_ms : ℤ) (cut : Cut) (body : String) (s : Service sql)
        → Consistent core_sql json before (old ++ evts) m core
        → Sequenced 0 (before ++ old) n
        → s.last_applied_seq ≡ pos n
        → sent_data http w ≡ []
        → m + total_emits acts + 1 < 2 ^ 63
        → open_stream http core_sql (stream_query sql s) true w core ≡ streaming st core₁
        → ((st' : Stream http) (core' : Core.Service core_sql)
            → run http core_sql json acts st core₁ ≡ some (st', core')
            → let later = select_from (pos (suc n)) (core_sql.rows core'.store) in
              (st'.status ≡ none)
              × All IsNamed later
              × AreNew (sql.tables s.store).applied_events later
              × All (IsReadable http parse) later)
        → Delivered http parse now_ms n cut body s (run http core_sql json acts st core₁)
    stream-Delivered before old evts n m core w acts st core₁ now_ms cut body s c first at clean
          room opened fresh =
        let a =
          open_stream-Streamed http core_sql json before (old ++ evts) m (stream_query sql s) w core
            acts st core₁ c clean room opened in
        let c' = a.consistent in
        let rows : core_sql.rows a.service.store ≡ (before ++ old) ++ (evts ++ a.new) =
          c'.log ∙ regroup before old evts a.new in
        let log = subst (λ z. Sequenced 0 z (m + length a.new)) rows c'.inv.log in
        let more =
          Sequenced-tail 0 n (m + length a.new) (before ++ old) (evts ++ a.new) first log in
        let old_seq =
          Sequenced-tail 0 n m (before ++ old) evts first
            (subst (λ z. Sequenced 0 z m) (c.log ∙ sym (append_assoc before old evts)) c.inv.log) in
        let small : n + 1 < 2 ^ 63 = omega (arith, room, Sequenced-length n m evts old_seq) in
        let from = asked_number n s a.from_seq at small a.asked in
        let later : select_from (pos (suc n)) (core_sql.rows a.service.store) ≡ evts ++ a.new =
          ap (select_from (pos (suc n))) rows
          ∙ select_from-after n (m + length a.new) (before ++ old) (evts ++ a.new) first log in
        let joined : a.sent ++ select_from a.stream.next_seq (core_sql.rows a.service.store)
            ≡ select_from (pos (suc n)) (core_sql.rows a.service.store) =
          subst
            (λ z.
              a.sent ++ select_from a.stream.next_seq (core_sql.rows a.service.store)
              ≡ select_from z (core_sql.rows a.service.store))
            from a.joined in
        let rest = select_from a.stream.next_seq (core_sql.rows a.service.store) in
        let parts : a.sent ++ rest ≡ evts ++ a.new = joined ∙ later in
        let (fine, named, new_ids, readable) = fresh a.stream a.service a.returns in
        let sound =
          All-append_inv (Sound core_sql json) old (evts ++ a.new)
            (subst (All (Sound core_sql json)) (append_assoc old evts a.new) c'.sound) in
        let whole = subst (λ z. Sequenced n z (m + length a.new)) (sym parts) more in
        let sent_seq = (Sequenced-split n (m + length a.new) a.sent rest whole).0 in
        let few : n + length a.sent < 2 ^ 63 = omega (
          arith,
          a.room,
          Sequenced-length n (m + length a.new) (a.sent ++ rest) whole,
          length-append a.sent rest,
        ) in
        let scanned = lines_of parse now_ms (http.written a.stream.conn) in
        let ended = cut_error s.cfg.stream_idle_timeout cut in
        let (lines, clean) =
          lines_of-LinesOf http parse now_ms (http.written a.stream.conn) a.sent a.encoded (
            All-prefix _ a.sent rest (subst (All (IsReadable http parse)) (sym joined) readable)) in
        let done =
          consume_lines-CaughtUp sql json works n (n + length a.sent) a.sent scanned.0 ended
            (begun s) lines sent_seq few
            (All-IsGood core_sql sql json n (n + length a.sent) a.sent sent_seq
              (All-prefix _ a.sent rest (subst (All (Sound core_sql json)) (sym parts) sound))
              (All-prefix _ a.sent rest (subst (All IsNamed) (sym joined) named)))
            (AreNew-prefix _ a.sent rest
              (subst (AreNew (sql.tables s.store).applied_events) (sym joined) new_ids))
            at in
        let c = consume_lines sql json scanned.0 ended (begun s) in
        record {
          stream = a.stream;
          core = a.service;
          returns = a.returns;
          sent = a.sent;
          joined = joined;
          replica = set_connected sql false c.1;
          reads =
              on_reply-reads http parse now_ms cut body a.stream s fine clean
              ∙ ap (λ z. (z, set_connected sql false c.1)) done.to_the_end;
          number = done.number;
          states = done.states;
        }
