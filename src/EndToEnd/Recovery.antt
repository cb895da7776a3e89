-- ===== src/EndToEnd/Recovery.antt =====
-- A replica that finds a gap in its stream: the snapshot that it fetches then, and its next round.
use novig_take_home.Base.{
  ℕ, ◌<◌, ◌^◌, String, true, false, ◌≡◌, refl, ap, ◌∙◌, List, [], ◌∷◌, ◌++◌, none, some, ◌||◌,
  string_eq,
}
use novig_take_home.Base.Int.{ℤ, pos, ◌≤ℤ◌, add64}
use novig_take_home.Base.Decimal.{format_int}
use novig_take_home.Base.Lists.{All}
use novig_take_home.Base.Errors.{
  Error, sentinel, errorf, wrap, is, seq_gap, canceled, eof, stream_idle_timeout, ok,
}
use novig_take_home.Base.Map.{Map, get}
use novig_take_home.Base.Map.Keys.{NodupKeys}
use novig_take_home.Domain.{MarketState, ReplicationEvent, SnapshotResponse}
use novig_take_home.Domain.Json.{Json}
use novig_take_home.Core.EventStore as Events
use novig_take_home.Core.Service.State as Core
use novig_take_home.Core.Service.Replay.{last_state}
use novig_take_home.Core.Service.Consistency.{Consistent}
use novig_take_home.Replica.Backoff.{Float64}
use novig_take_home.Replica.Store.{Sqlite, set_checkpoint}
use novig_take_home.Replica.Validate.{validate_snapshot}
use novig_take_home.Replica.Validate.Snapshots.{validate_snapshot_iff}
use novig_take_home.Replica.Service.State.{Service, set_last_error}
use novig_take_home.Replica.Service.Refresh.{install, refresh_from_snapshot}
use novig_take_home.Replica.Service.Stream.Lines.{Reliable, AreNew, LinesOf}
use novig_take_home.Replica.Service.Connection.{
  response, Frames, fetch_snapshot, decoded_snapshot, ensure_bootstrapped, consume_stream,
}
use novig_take_home.Replica.Service.Start.{
  Round, Next, returns, again, waits, wait_backoff, after_refresh, on_gap, after_stream,
  bootstrapped_round, start_round, start,
}
use novig_take_home.EndToEnd.{IsNamed}
use novig_take_home.EndToEnd.Rounds.{refresh-installs}
use novig_take_home.EndToEnd.Bootstrap.{acceptable, installed-converges}

-- An error is that of a gap, or a cancellation, and never both.
gap_not_canceled : (e : Error) → is e seq_gap ≡ true → is e canceled ≡ false
unfolding is
gap_not_canceled (sentinel seq_gap) h = refl
gap_not_canceled (sentinel stream_idle_timeout) h = refl
gap_not_canceled (sentinel eof) h = refl
gap_not_canceled (sentinel canceled) h = cc h
gap_not_canceled (errorf f args) h = refl
gap_not_canceled (wrap f args e) h = gap_not_canceled e h

module _ (core_sql : Events.Sqlite) (sql : Sqlite) (json : Json) (f : Float64)
    (works : Reliable sql) where
  -- The loop after a round.
  abbrev after_round : List (Round f) → Next f × Service sql → List (Next f) × Service sql
  after_round rounds p =
      let (rest, after) = start f sql json rounds p.1 in
      elim p.0 [
        | returns ↦ (returns ∷ [], p.1)
        | again ↦ (again ∷ rest, after)
        | waits delay ↦ (waits delay ∷ rest, after)
      ]

  two_rounds :
      (r r' : Round f) (s s₁ s₂ : Service sql) (delay : ℤ)
      → start_round f sql json r s ≡ (again, s₁)
      → start_round f sql json r' s₁ ≡ (waits delay, s₂)
      → start f sql json (r ∷ r' ∷ []) s ≡ (again ∷ waits delay ∷ [], s₂)
  unfolding start
  two_rounds r r' s s₁ s₂ delay first second =
      ap (after_round (r' ∷ [])) first
      ∙ ap (λ (q : List (Next f) × Service sql). (again ∷ q.0, q.1)) (ap (after_round []) second)

  ready_lem :
      (r : Round f) (s : Service sql)
      → s.bootstrapped ≡ true
      → ensure_bootstrapped sql r.snapshot r.snapshot_ms s ≡ (none, s)
  unfolding ensure_bootstrapped
  ready_lem r s bootstrapped = simp (bootstrapped) refl

  refreshed_lem :
      (r : Round f) (gapped : Service sql) (e : Error) (body : String) (snapshot : SnapshotResponse)
      (validated : Map String MarketState)
      → r.refresh
        ≡ response
            (pos 200)
            body
            (ok (record { last_seq = snapshot.last_seq; markets = some snapshot.markets }))
      → validate_snapshot snapshot gapped.last_applied_seq ≡ ok validated
      → (set_checkpoint sql snapshot.last_seq r.refresh_ms gapped.store).0 ≡ none
      → on_gap f sql json r e gapped ≡ (
        again,
        install sql validated snapshot.last_seq r.refresh_ms (record gapped {
          store = (set_checkpoint sql snapshot.last_seq r.refresh_ms gapped.store).1;
        }),
      )
  unfolding on_gap after_refresh fetch_snapshot decoded_snapshot set_last_error
  refreshed_lem r gapped e body snapshot validated fetched valid stored =
      let noted : Service sql = record gapped { last_error = some e } in
      ap
        (λ z.
          after_refresh f sql json r.random
            (refresh_from_snapshot sql (fetch_snapshot z) r.refresh_ms noted))
        fetched
      ∙ ap (after_refresh f sql json r.random)
          (refresh-installs sql snapshot validated r.refresh_ms noted valid stored)

  -- The state after a gap whose snapshot is stored: no delay, and the checkpoint moves with it.
  gap_round_lem :
      (r : Round f) (s gapped : Service sql) (e : Error) (body : String)
      (snapshot : SnapshotResponse) (validated : Map String MarketState)
      → r.done ≡ false
      → r.done_after ≡ false
      → s.bootstrapped ≡ true
      → consume_stream sql json r.stream s ≡ (e, gapped)
      → is e seq_gap ≡ true
      → r.refresh
        ≡ response
            (pos 200)
            body
            (ok (record { last_seq = snapshot.last_seq; markets = some snapshot.markets }))
      → validate_snapshot snapshot gapped.last_applied_seq ≡ ok validated
      → (set_checkpoint sql snapshot.last_seq r.refresh_ms gapped.store).0 ≡ none
      → start_round f sql json r s ≡ (
        again,
        install sql validated snapshot.last_seq r.refresh_ms (record gapped {
          store = (set_checkpoint sql snapshot.last_seq r.refresh_ms gapped.store).1;
        }),
      )
  unfolding start_round ensure_bootstrapped bootstrapped_round after_stream
  gap_round_lem r s gapped e body snapshot validated on going bootstrapped ended gap fetched valid
        stored =
      simp (on, bootstrapped)
        (ap (after_stream f sql json r) ended
          ∙ simp (going, gap_not_canceled e gap, gap, ◌||◌)
              (refreshed_lem r gapped e body snapshot validated fetched valid stored))

  -- The core was consistent with its log when it answered a snapshot, and is so with more events. A
  -- bootstrapped replica's stream ends with a gap, with a number not above the core's. It fetches the
  -- snapshot, which holds the core's number and its markets, none without an identifier, each once.
  -- The next round's stream, which answers to the number after it, has the lines of the events
  -- since, whose identifiers are not empty and new to the replica, and then ends. The stores do not
  -- fail, and the context is not done. Then the next round follows at once, and after it the replica
  -- has the core's number, and of each market that has ever had an event since the core began it has
  -- the state that the core has.
  pub start-recovers :
      (before old new : List ReplicationEvent) (n m : ℕ) (core₀ core₁ : Core.Service core_sql)
      (markets : Map String MarketState) (e : Error) (gapped : Service sql) (body body' : String)
      (frames : Frames) (r r' : Round f) (s : Service sql) (id : String) (state : MarketState)
      → Consistent core_sql json before old n core₀
      → Consistent core_sql json before (old ++ new) m core₁
      → m < 2 ^ 63
      → NodupKeys markets
      → ((k : String) → get markets k ≡ get core₀.markets k)
      → get core₀.markets "" ≡ none
      → ((seq ts_ms : ℤ) (db : sql.Db) → (set_checkpoint sql seq ts_ms db).0 ≡ none)
      → s.bootstrapped ≡ true
      → r.done ≡ false
      → r.done_after ≡ false
      → consume_stream sql json r.stream s ≡ (e, gapped)
      → is e seq_gap ≡ true
      → gapped.last_applied_seq ≤ℤ core₀.last_seq
      → r.refresh
        ≡ response
            (pos 200)
            body
            (ok (record { last_seq = core₀.last_seq; markets = some markets }))
      → r'.done ≡ false
      → r'.done_after ≡ false
      → r'.stream (format_int (add64 core₀.last_seq (pos 1))) ≡ response (pos 200) body' frames
      → LinesOf new frames.lines
      → frames.timed_out ≡ false
      → frames.scan_error ≡ none
      → All IsNamed new
      → AreNew (sql.tables gapped.store).applied_events new
      → last_state json (old ++ new) id ≡ some state
      → let (nexts, s') = start f sql json (r ∷ r' ∷ []) s in
        ((delay : ℤ) × (nexts ≡ again ∷ waits delay ∷ []))
        × (s'.last_applied_seq ≡ core₁.last_seq)
        × (get core₁.markets id ≡ some state)
        × (get s'.markets id ≡ some state)
  unfolding wait_backoff
  start-recovers before old new n m core₀ core₁ markets e gapped body body' frames r r' s id state
        c₀ c₁ room nodup same named stores ready on going ended gap low fetched on' going' answered
        lines quiet clean ids new_ids h =
      let snapshot : SnapshotResponse = record { last_seq = core₀.last_seq; markets = markets } in
      let good =
        acceptable core_sql json before old n core₀ markets gapped.last_applied_seq c₀ nodup same
          named low in
      let (validated, valid, entries) =
        (validate_snapshot_iff snapshot gapped.last_applied_seq nodup).1 good in
      let stored = stores core₀.last_seq r.refresh_ms gapped.store in
      let begun : Service sql = install sql validated core₀.last_seq r.refresh_ms (record gapped {
        store = (set_checkpoint sql core₀.last_seq r.refresh_ms gapped.store).1;
      }) in
      let first =
        gap_round_lem r s gapped e body snapshot validated on going ready ended gap fetched valid
          stored in
      let (second, number, held, reached) =
        installed-converges core_sql sql json f works before old new n m core₀ core₁ markets
          validated r.refresh_ms body' frames r' begun gapped id state c₀ c₁ room same entries
          stored on' going' (ready_lem r' begun refl) answered lines quiet clean ids new_ids h in
      let whole = two_rounds r r' s begun _ _ first second in
      (
        (_, ap (λ z. z.0) whole),
        ap (λ z. z.1.last_applied_seq) whole ∙ number,
        held,
        ap (λ z. get z.1.markets id) whole ∙ reached,
      )
