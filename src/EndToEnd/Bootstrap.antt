-- ===== src/EndToEnd/Bootstrap.antt =====
-- A new replica: one round of its loop against the core's snapshot and then its stream.
use novig_take_home.Base.{
  ℕ, ◌<◌, ◌^◌, String, true, false, ◌≡◌, sym, ap, ◌∙◌, subst, List, [], ◌∷◌, ◌++◌, none, some,
  arith, inl, inr, string_eq, append_assoc, Option-cases, ◌⊎◌,
}
use novig_take_home.Base.Int.{ℤ, pos, ◌≤ℤ◌, add64, int_eq}
use novig_take_home.Base.Decimal.{format_int}
use novig_take_home.Base.Lists.{All, All-append_inv}
use novig_take_home.Base.Errors.{sentinel, eof, ok}
use novig_take_home.Base.Map.{Map, get}
use novig_take_home.Base.Map.Keys.{NodupKeys, get-cons_self, get-cons_tail}
use novig_take_home.Domain.{
  MarketState, ReplicationEvent, SnapshotResponse, status_open, status_suspended,
}
use novig_take_home.Domain.Json.{Json}
use novig_take_home.Domain.Breaker.Coherence.{IsCoherent, at_open, at_suspended}
use novig_take_home.Core.EventStore as Events
use novig_take_home.Core.Service.State as Core
use novig_take_home.Core.Service.Replay.{last_state}
use novig_take_home.Core.Service.Consistency.{Consistent}
use novig_take_home.Replica.Backoff.{Float64}
use novig_take_home.Replica.Store.{Sqlite, set_checkpoint}
use novig_take_home.Replica.Validate.Snapshots.{IsAcceptable, IsEntry, validate_snapshot_iff}
use novig_take_home.Replica.Service.State.{Service, set_connected}
use novig_take_home.Replica.Service.Refresh.{install}
use novig_take_home.Replica.Service.Stream.{consume_lines}
use novig_take_home.Replica.Service.Stream.Lines.{Reliable, AreNew, LinesOf}
use novig_take_home.Replica.Service.Stream.CatchUp.{or_else, consume_lines-CaughtUp}
use novig_take_home.Replica.Service.Connection.{response, Frames, ensure_bootstrapped}
use novig_take_home.Replica.Service.Start.{Round, wait_backoff, start_round}
use novig_take_home.EndToEnd.{IsNamed, All-IsGood, core_state, Sequenced-tail}
use novig_take_home.EndToEnd.Rounds.{
  refresh-installs, stored_rows, read_stream_lem, round_lem, ensure_lem,
}

-- A later state of a market takes the place of an earlier one.
last_state-append_all :
    (json : Json) (old new : List ReplicationEvent) (id : String)
    → last_state json (old ++ new) id ≡ or_else (last_state json new id) (last_state json old id)
unfolding last_state
last_state-append_all json [] new id = ground arith
last_state-append_all json (evt ∷ old) new id =
    ground (arith, last_state-append_all json old new id)

lookups-All :
    (P : String → MarketState → Type 0) (markets : Map String MarketState)
    → NodupKeys markets
    → ((id : String) (m : MarketState) → get markets id ≡ some m → P id m)
    → All (λ (entry : String × MarketState). P entry.0 entry.1) markets
lookups-All P [] nodup each = tt
lookups-All P ((k, v) ∷ rest) (absent, nodup) each = (
  each k v (get-cons_self k v rest),
  lookups-All P rest nodup (λ id m h. each id m (get-cons_tail k id v m rest absent h).1),
)

coherent_status :
    (m : MarketState) → IsCoherent m → (m.status ≡ status_open) ⊎ (m.status ≡ status_suspended)
coherent_status m (at_open e _ _) = inl e
coherent_status m (at_suspended e _) = inr e

-- A received map with the core's markets is acceptable.
pub acceptable :
    (core_sql : Events.Sqlite) (json : Json) (before old : List ReplicationEvent) (n : ℕ)
    (core : Core.Service core_sql) (markets : Map String MarketState) (least : ℤ)
    → Consistent core_sql json before old n core
    → NodupKeys markets
    → ((id : String) → get markets id ≡ get core.markets id)
    → get core.markets "" ≡ none
    → least ≤ℤ core.last_seq
    → IsAcceptable (record { last_seq = core.last_seq; markets = markets }) least
acceptable core_sql json before old n core markets least c nodup same named low = (
  subst (λ z. pos 0 ≤ℤ z) (sym c.inv.last) (omega arith),
  low,
  lookups-All (λ id m. IsEntry (id, m)) markets nodup
      (λ id m found.
        let there = sym (same id) ∙ found in
        let member = c.members id m there in
        (
          member.named,
          (
            λ empty.
                let e = sym there ∙ ap (get core.markets) (sym member.named ∙ empty) ∙ named in
                cc e,
            coherent_status m member.coherent,
          ),
        )),
)

-- The state that the markets of a snapshot and the later events make up.
later_state :
    (core_sql : Events.Sqlite) (sql : Sqlite) (json : Json) (before old new : List ReplicationEvent)
    (n : ℕ) (core : Core.Service core_sql) (id : String) (state : MarketState)
    → Consistent core_sql json before old n core
    → last_state json (old ++ new) id ≡ some state
    → or_else (last_state json new id) (get core.markets id) ≡ some state
later_state core_sql sql json before old new n core id state c h =
    let joined = sym (last_state-append_all json old new id) ∙ h in
    elim (Option-cases (last_state json new id)) [
      | inl none_new ↦
          let kept = (rw none_new at joined) in
          rw none_new (core_state core_sql sql json before old n core id state c kept)
      | inr (m, some_new) ↦ rw some_new (rw some_new at joined)
    ]

module _ (core_sql : Events.Sqlite) (sql : Sqlite) (json : Json) (f : Float64)
    (works : Reliable sql) where
  -- From a snapshot that was just installed: the stream of the events since brings the core's state.
  pub installed-converges :
      (before old new : List ReplicationEvent) (n m : ℕ) (core₀ core₁ : Core.Service core_sql)
      (markets validated : Map String MarketState) (at_ms : ℤ) (body : String) (frames : Frames)
      (r : Round f) (s s₀ : Service sql) (id : String) (state : MarketState)
      → Consistent core_sql json before old n core₀
      → Consistent core_sql json before (old ++ new) m core₁
      → m < 2 ^ 63
      → ((k : String) → get markets k ≡ get core₀.markets k)
      → ((k : String) → get validated k ≡ get markets k)
      → (set_checkpoint sql core₀.last_seq at_ms s₀.store).0 ≡ none
      → r.done ≡ false
      → r.done_after ≡ false
      → let begun : Service sql =
          install sql validated core₀.last_seq at_ms
            (record s₀ { store = (set_checkpoint sql core₀.last_seq at_ms s₀.store).1 }) in
        let opened : Service sql = record begun {
          connected = true;
          reconnect_attempts = pos 0;
          last_error = none;
        } in
        let c = consume_lines sql json frames.lines (sentinel eof) opened in
        ensure_bootstrapped sql r.snapshot r.snapshot_ms s ≡ (none, begun)
        → r.stream (format_int (add64 core₀.last_seq (pos 1))) ≡ response (pos 200) body frames
        → LinesOf new frames.lines
        → frames.timed_out ≡ false
        → frames.scan_error ≡ none
        → All IsNamed new
        → AreNew (sql.tables s₀.store).applied_events new
        → last_state json (old ++ new) id ≡ some state
        → (start_round f sql json r s
            ≡ wait_backoff f sql json r.random
                (set_connected sql false (set_connected sql false c.1)))
          × (c.1.last_applied_seq ≡ core₁.last_seq)
          × (get core₁.markets id ≡ some state)
          × (get c.1.markets id ≡ some state)
  installed-converges before old new n m core₀ core₁ markets validated at_ms body frames r s s₀ id
        state c₀ c₁ room same entries stored on going there answered lines quiet clean ids new_ids
        h =
      let begun =
        install sql validated core₀.last_seq at_ms
          (record s₀ { store = (set_checkpoint sql core₀.last_seq at_ms s₀.store).1 }) in
      let seqs =
        Sequenced-tail 0 n m (before ++ old) new (rw (← c₀.log) c₀.inv.log)
          (rw (append_assoc, ← c₁.log) c₁.inv.log) in
      let opened : Service sql = record begun {
        connected = true;
        reconnect_attempts = pos 0;
        last_error = none;
      } in
      let done =
        consume_lines-CaughtUp sql json works n m new frames.lines (sentinel eof) opened lines seqs
          room (All-IsGood core_sql sql json n m new seqs (All-append_inv _ old new c₁.sound) ids)
          (rw (stored_rows sql core₀.last_seq at_ms s₀.store stored) new_ids) c₀.inv.last in
      let c = consume_lines sql json frames.lines (sentinel eof) opened in
      let ended =
        read_stream_lem sql json frames begun quiet clean
        ∙ ap (λ z. (z, set_connected sql false c.1)) done.to_the_end in
      (
        round_lem sql json f r s begun (set_connected sql false c.1) body frames on going there
            answered ended,
        done.number ∙ sym c₁.inv.last,
        core_state core_sql sql json before (old ++ new) m core₁ id state c₁ h,
        done.states id
            ∙ ap (or_else (last_state json new id)) (entries id ∙ same id)
            ∙ later_state core_sql sql json before old new n core₀ id state c₀ h,
      )

  -- The core was consistent with its log when it answered the snapshot, and is so with more events.
  -- The snapshot holds its number and its markets, none without an identifier, each once; it is not
  -- below the replica's number, and the stores do not fail. The stream that answers to the number
  -- after it has the lines of the events since, whose identifiers are not empty and new to the
  -- replica, and then ends. After that round of the loop, in which the context is not done, the
  -- replica has the core's number, and of each market that has ever had an event since the core
  -- began it has the state that the core has.
  pub start_round-converges :
      (before old new : List ReplicationEvent) (n m : ℕ) (core₀ core₁ : Core.Service core_sql)
      (markets : Map String MarketState) (body body' : String) (frames : Frames) (r : Round f)
      (s : Service sql) (id : String) (state : MarketState)
      → Consistent core_sql json before old n core₀
      → Consistent core_sql json before (old ++ new) m core₁
      → m < 2 ^ 63
      → NodupKeys markets
      → ((k : String) → get markets k ≡ get core₀.markets k)
      → get core₀.markets "" ≡ none
      → ((seq ts_ms : ℤ) (db : sql.Db) → (set_checkpoint sql seq ts_ms db).0 ≡ none)
      → s.bootstrapped ≡ false
      → s.last_applied_seq ≤ℤ core₀.last_seq
      → r.done ≡ false
      → r.done_after ≡ false
      → r.snapshot
        ≡ response
            (pos 200)
            body
            (ok (record { last_seq = core₀.last_seq; markets = some markets }))
      → r.stream (format_int (add64 core₀.last_seq (pos 1))) ≡ response (pos 200) body' frames
      → LinesOf new frames.lines
      → frames.timed_out ≡ false
      → frames.scan_error ≡ none
      → All IsNamed new
      → AreNew (sql.tables s.store).applied_events new
      → last_state json (old ++ new) id ≡ some state
      → let s' = (start_round f sql json r s).1 in
        (s'.last_applied_seq ≡ core₁.last_seq)
        × (get core₁.markets id ≡ some state)
        × (get s'.markets id ≡ some state)
  unfolding wait_backoff
  start_round-converges before old new n m core₀ core₁ markets body body' frames r s id state c₀ c₁
        room nodup same named stores not_yet low on going fetched answered lines quiet clean ids
        new_ids h =
      let snapshot : SnapshotResponse = record { last_seq = core₀.last_seq; markets = markets } in
      let good =
        acceptable core_sql json before old n core₀ markets s.last_applied_seq c₀ nodup same named
          low in
      let (validated, valid, entries) =
        (validate_snapshot_iff snapshot s.last_applied_seq nodup).1 good in
      let stored = stores core₀.last_seq r.snapshot_ms s.store in
      let there =
        ensure_lem sql json r.snapshot r.snapshot_ms s body snapshot not_yet fetched
        ∙ refresh-installs sql snapshot validated r.snapshot_ms s valid stored in
      let (round, number, held, reached) =
        installed-converges before old new n m core₀ core₁ markets validated r.snapshot_ms body'
          frames r s s id state c₀ c₁ room same entries stored on going there answered lines quiet
          clean ids new_ids h in
      (
        ap (λ z. z.1.last_applied_seq) round ∙ number,
        held,
        ap (λ z. get z.1.markets id) round ∙ reached,
      )
