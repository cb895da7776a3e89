-- ===== src/EndToEnd/Rounds.antt =====
-- The first round of a replica, as it runs where nothing fails.
use novig_take_home.Base.{
  String, true, false, ◌≡◌, refl, ap, ◌∙◌, none, some, inl, inr, string_eq, Option-cases, ◌||◌,
}
use novig_take_home.Base.Int.{ℤ, pos, add64, int_eq}
use novig_take_home.Base.Decimal.{Bytes, format_int}
use novig_take_home.Base.Errors.{is, sentinel, eof, Result, ok}
use novig_take_home.Base.Map.{Map}
use novig_take_home.Domain.{MarketState, SnapshotResponse}
use novig_take_home.Domain.Json.{Json}
use novig_take_home.Replica.Backoff.{Float64}
use novig_take_home.Replica.Store.{Sqlite, set_checkpoint}
use novig_take_home.Replica.Validate.{validate_snapshot}
use novig_take_home.Replica.Service.State.{Service, set_connected}
use novig_take_home.Replica.Service.Refresh.{install, store_snapshot, refresh_from_snapshot}
use novig_take_home.Replica.Service.Stream.{consume_lines}
use novig_take_home.Replica.Service.Connection.{
  Reply, response, SnapshotBody, fetch_snapshot, decoded_snapshot, Frames, stream_end, read_stream,
  on_reply, consume_stream, stream_query, ensure_bootstrapped,
}
use novig_take_home.Replica.Service.Start.{
  Round, wait_backoff, after_stream, bootstrapped_round, start_round,
}

module _ (sql : Sqlite) where
  pub refresh-installs :
      (snapshot : SnapshotResponse) (markets : Map String MarketState) (now_ms : ℤ)
      (s : Service sql)
      → validate_snapshot snapshot s.last_applied_seq ≡ ok markets
      → (set_checkpoint sql snapshot.last_seq now_ms s.store).0 ≡ none
      → refresh_from_snapshot sql (ok snapshot) now_ms s ≡ (
        none,
        install sql markets snapshot.last_seq now_ms
            (record s { store = (set_checkpoint sql snapshot.last_seq now_ms s.store).1 }),
      )
  unfolding refresh_from_snapshot store_snapshot
  refresh-installs snapshot markets now_ms s valid stored =
      rw (valid, refresh_from_snapshot, stored, store_snapshot) refl

  pub stored_rows :
      (seq now_ms : ℤ) (db : sql.Db)
      → (set_checkpoint sql seq now_ms db).0 ≡ none
      → (sql.tables (set_checkpoint sql seq now_ms db).1).applied_events
        ≡ (sql.tables db).applied_events
  unfolding set_checkpoint
  stored_rows seq now_ms db h = elim (Option-cases (sql.exec_update seq now_ms db).0) [
    | inl e ↦
        ap (λ z. z.applied_events)
          (sql.update_done seq now_ms db _ (ap (λ z. (z, (sql.exec_update seq now_ms db).1)) e))
    | inr (x, e) ↦ let impossible = (rw (e, set_checkpoint) at h) in cc impossible
  ]

  module _ (json : Json) where
    -- A stream of status 200 that ends without an error.
    pub read_stream_lem :
        (frames : Frames) (s : Service sql)
        → frames.timed_out ≡ false
        → frames.scan_error ≡ none
        → let begun : Service sql = record s {
          connected = true;
          reconnect_attempts = pos 0;
          last_error = none;
        } in
          let c = consume_lines sql json frames.lines (sentinel eof) begun in
          read_stream sql json frames s ≡ (c.0, set_connected sql false c.1)
    unfolding read_stream
    read_stream_lem frames s quiet clean = rw (quiet, stream_end, clean) refl

    answered_lem :
        (network : Bytes → Reply Frames) (s : Service sql) (body : String) (frames : Frames)
        → network (format_int (add64 s.last_applied_seq (pos 1))) ≡ response (pos 200) body frames
        → consume_stream sql json network s ≡ read_stream sql json frames s
    unfolding consume_stream stream_query on_reply
    answered_lem network s body frames answered = ap (λ z. on_reply sql json z s) answered

    ended_lem :
        (f : Float64) (r : Round f) (s : Service sql)
        → r.done_after ≡ false
        → after_stream f sql json r (sentinel eof, s)
          ≡ wait_backoff f sql json r.random (set_connected sql false s)
    unfolding after_stream is
    ended_lem f r s going = simp (going, ◌||◌) refl

    -- A round whose stream is read to its end.
    pub round_lem :
        (f : Float64) (r : Round f) (s begun after : Service sql) (body : String) (frames : Frames)
        → r.done ≡ false
        → r.done_after ≡ false
        → ensure_bootstrapped sql r.snapshot r.snapshot_ms s ≡ (none, begun)
        → r.stream (format_int (add64 begun.last_applied_seq (pos 1)))
          ≡ response (pos 200) body frames
        → read_stream sql json frames begun ≡ (sentinel eof, after)
        → start_round f sql json r s
          ≡ wait_backoff f sql json r.random (set_connected sql false after)
    unfolding start_round bootstrapped_round
    round_lem f r s begun after body frames on going there answered ended = simp (on) (
        ap (bootstrapped_round f sql json r) there
        ∙ ap (after_stream f sql json r) (answered_lem r.stream begun body frames answered ∙ ended)
        ∙ ended_lem f r after going)

    pub ensure_lem :
        (reply : Reply (Result SnapshotBody)) (now_ms : ℤ) (s : Service sql) (body : String)
        (snapshot : SnapshotResponse)
        → s.bootstrapped ≡ false
        → reply
          ≡ response
              (pos 200)
              body
              (ok (record { last_seq = snapshot.last_seq; markets = some snapshot.markets }))
        → ensure_bootstrapped sql reply now_ms s ≡ refresh_from_snapshot sql (ok snapshot) now_ms s
    unfolding ensure_bootstrapped fetch_snapshot decoded_snapshot
    ensure_lem reply now_ms s body snapshot not_yet e =
        simp (not_yet) (ap (λ z. refresh_from_snapshot sql (fetch_snapshot z) now_ms s) e)
