-- ===== src/Core/Stream/Exact.antt =====
-- A request for the stream, from its query to whatever stands in its response.
use novig_take_home.Base.{
  ℕ, zero, suc, ◌+◌, ◌<◌, ◌^◌, true, ◌≡◌, refl, sym, ap, ◌∙◌, List, [], ◌∷◌, ◌++◌, Option, none,
  some, arith, inl, inr, Option-cases, if◌then◌else◌,
}
use novig_take_home.Base.Int.{ℤ, pos, negsuc, ltb_ℤ, ◌<ℤ◌, InInt64}
use novig_take_home.Base.Decimal.{
  Bytes, parse_int, format_int, parse_int-format_int, format_int-cons,
}
use novig_take_home.Base.Lists.{length}
use novig_take_home.Domain.{ReplicationEvent}
use novig_take_home.Domain.Json.{Json}
use novig_take_home.Core.EventStore.{Sqlite, select_from}
use novig_take_home.Core.EventStore.Log.{Sequenced}
use novig_take_home.Core.Hub.{subscribe}
use novig_take_home.Core.Hub.Invariant.{subscribe-Inv}
use novig_take_home.Core.Hub.Contents.{subscribe-Buffered}
use novig_take_home.Core.Service.State.{Service}
use novig_take_home.Core.Service.Consistency.{Consistent}
use novig_take_home.Core.Service.History.{hub-Consistent}
use novig_take_home.Core.Stream.{
  Response, Stream, Opened, streaming, parse_from_seq, subscribe_from, open_stream,
}
use novig_take_home.Core.Stream.Since.{since, select_from-since}
use novig_take_home.Core.Stream.Writing.{Encodes, sent_data}
use novig_take_home.Core.Stream.Schedule.{Act, total_emits, run, Ran, run-Ran}

at_least_one :
    (k m : ℤ) → (if ltb_ℤ k (pos 1) then none else some k) ≡ some m → (f : ℕ) × (m ≡ pos (suc f))
at_least_one (pos zero) m h = cc h
at_least_one (pos (suc n)) m h = (n, ground arith)
at_least_one (negsuc n) m h = absurd (ground arith)

parse_from_seq-positive :
    (raw : Bytes) (from_seq : ℤ)
    → parse_from_seq raw ≡ some from_seq
    → (f : ℕ) × (from_seq ≡ pos (suc f))
unfolding parse_from_seq
parse_from_seq-positive [] from_seq h = (0, cc h)
parse_from_seq-positive (c ∷ s) from_seq h = elim (Option-cases (parse_int (c ∷ s))) [
  | inl bad ↦ let impossible = (rw (bad, parse_from_seq) at h) in cc impossible
  | inr (k, e) ↦ at_least_one k from_seq (rw (e, parse_from_seq) at h)
]

read_back :
    (c : ℕ) (s : Bytes) (k : ℤ)
    → parse_int (c ∷ s) ≡ some k
    → pos 0 <ℤ k
    → parse_from_seq (c ∷ s) ≡ some k
unfolding parse_from_seq
read_back c s k e low = rw (e, parse_from_seq) (ground arith)

-- A number of 64 bits and of at least 1 that a replica prints into the query is the one that the
-- handler reads.
pub parse_from_seq-format_int :
    (k : ℤ) → pos 0 <ℤ k → InInt64 k → parse_from_seq (format_int k) ≡ some k
parse_from_seq-format_int k low room =
    let (c, s, e) = format_int-cons k in
    let read : parse_int (c ∷ s) ≡ some k = ap parse_int (sym e) ∙ parse_int-format_int k room in
    ap parse_from_seq e ∙ read_back c s k read low

-- What the log has from a number on, as the store's query finds it.
as_selected :
    (f n : ℕ) (from next : ℤ) (rows sent : List ReplicationEvent) (j : ℕ)
    → Sequenced 0 rows n
    → from ≡ pos (suc f)
    → next ≡ pos (suc j)
    → sent ++ since (pos (suc j)) rows ≡ since (pos (suc f)) rows
    → sent ++ select_from next rows ≡ select_from from rows
as_selected f n from next rows sent j log first number joined =
    ap (λ z. sent ++ select_from z rows) number
    ∙ ap (λ z. sent ++ z) (select_from-since j 0 n rows log)
    ∙ joined
    ∙ sym (select_from-since f 0 n rows log)
    ∙ ap (λ z. select_from z rows) (sym first)

module _ (http : Response) (sql : Sqlite) where
  module _ (json : Json) (before evts : List ReplicationEvent) (n : ℕ) where
    -- What a run leaves: the core is consistent with a longer log, and in the response are the
    -- encodings of events that, with what the log has from the handler's next number on, make up what
    -- it has from the number that was asked for.
    pub record Streamed (raw : Bytes) (r : Option (Stream http × Service sql)) : Type 0 where
      pub from_seq : ℤ
      pub asked : parse_from_seq raw ≡ some from_seq
      pub stream : Stream http
      pub service : Service sql
      pub returns : r ≡ some (stream, service)
      pub sent : List ReplicationEvent
      pub encoded : Encodes http sent (sent_data http stream.conn)
      pub new : List ReplicationEvent
      pub consistent : Consistent sql json before (evts ++ new) (n + length new) service
      pub room : n + length new + 1 < 2 ^ 63
      pub joined :
          sent ++ select_from stream.next_seq (sql.rows service.store)
          ≡ select_from from_seq (sql.rows service.store)

    subscribed-Ran :
        (f : ℕ) (w : http.Conn) (s : Service sql) (acts : List Act)
        → Consistent sql json before evts n s
        → sent_data http w ≡ []
        → n + total_emits acts + 1 < 2 ^ 63
        → (st : Stream http) × (s₁ : Service sql) × (subscribe_from http sql (pos (suc f)) w s
            ≡ streaming st s₁)
          × Ran http sql json f before evts n (run http sql json acts st s₁)
    unfolding subscribe_from
    subscribed-Ran f w s acts c clean room =
        let sub = subscribe 1024 s.hub in
        (
          _,
          _,
          refl,
          run-Ran http sql json f before evts n acts _ (record s { hub = sub.2 })
              (hub-Consistent sql json before evts n s c sub.2 (subscribe-Inv 1024 s.hub c.inv.hub)
                (subscribe-Buffered (sql.rows s.store) s.hub c.inv.contents 1024))
              (
                (
                  f,
                  record {
                    sent = [];
                    encoded = rw clean tt;
                    number = refl;
                    joined = refl;
                    ahead = omega arith;
                    reach = inl refl;
                  },
                ),
                tt,
              )
              room,
        )

    -- The core is consistent with its log, no data are in the response yet, and the handler has
    -- begun its stream. Beside any calls of other users, in any order that leaves room for the
    -- numbers in 64 bits, it never panics, and neither does a call. Its response holds at each point
    -- the encodings of events that, with what the log then has from the handler's next number on,
    -- are exactly what the log has from the number that was asked for: none is lost, written twice
    -- or out of order.
    pub open_stream-Streamed :
        (raw : Bytes) (w : http.Conn) (s : Service sql) (acts : List Act) (st : Stream http)
        (s₁ : Service sql)
        → Consistent sql json before evts n s
        → sent_data http w ≡ []
        → n + total_emits acts + 1 < 2 ^ 63
        → open_stream http sql raw true w s ≡ streaming st s₁
        → Streamed raw (run http sql json acts st s₁)
    unfolding open_stream
    open_stream-Streamed raw w s acts st s₁ c clean room opened =
        elim (Option-cases (parse_from_seq raw)) [
          | inl bad ↦ let impossible = (rw (bad, open_stream) at opened) in cc impossible
          | inr (k, e) ↦
              let (f, from) = parse_from_seq-positive raw k e in
              let (st', s', begun, ran) = subscribed-Ran f w s acts c clean room in
              let same : ◌≡◌ {A = Opened http sql} (streaming st' s') (streaming st s₁) =
                sym begun
                ∙ ap (λ z. subscribe_from http sql z w s) (sym from)
                ∙ (rw (e, open_stream) at opened) in
              let st_same : st' ≡ st = cc same in
              let s_same : s' ≡ s₁ = cc same in
              let ((j, v), _) = ran.fine in
              record {
                from_seq = k;
                asked = e;
                stream = ran.stream;
                service = ran.service;
                returns =
                    ap (λ z. run http sql json acts z s₁) (sym st_same)
                    ∙ ap (λ z. run http sql json acts st' z) (sym s_same)
                    ∙ ran.returns;
                sent = v.sent;
                encoded = v.encoded;
                new = ran.new;
                consistent = ran.consistent;
                room = ran.room;
                joined =
                    as_selected f (n + length ran.new) k ran.stream.next_seq
                      (sql.rows ran.service.store) v.sent j ran.consistent.inv.log from v.number
                      v.joined;
              }
        ]
