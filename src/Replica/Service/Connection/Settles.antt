-- ===== src/Replica/Service/Connection/Settles.antt =====
-- What a stream and a snapshot keep: the number, the checkpoint and the connection.
use novig_take_home.Base.{
  ◌≡◌, refl, ap, ◌∙◌, true, false, List, [], ◌∷◌, none, inl, inr, Bool-cases, Option-cases, ◌==◌,
}
use novig_take_home.Base.Int.{ℤ, pos, InInt64, int_eq}
use novig_take_home.Base.Decimal.{Bytes}
use novig_take_home.Base.Errors.{Error, Result, ok, err}
use novig_take_home.Base.Lists.{All}
use novig_take_home.Domain.Json.{Json}
use novig_take_home.Replica.Store.{Sqlite}
use novig_take_home.Replica.Service.State.{Service}
use novig_take_home.Replica.Service.Refresh.{refresh_from_snapshot}
use novig_take_home.Replica.Service.Refresh.Outcome.{
  installed, kept, refresh_from_snapshot-Refreshed,
}
use novig_take_home.Replica.Service.Stream.{
  Line, other_line, data_line, consume_line, consume_lines,
}
use novig_take_home.Replica.Service.Lifetime.{
  IsCall, refreshes, Inv, Steps, same-Steps, process-Steps, refresh-Steps, ≤ℤ_trans,
}
use novig_take_home.Replica.Service.Connection.{
  Reply, no_response, response, SnapshotBody, fetch_snapshot, Frames, stream_end, read_stream,
  on_reply, consume_stream, stream_query, ensure_bootstrapped,
}

-- The numbers that the network brings are of 64 bits.
abbrev pub IsSizedBody : Reply (Result SnapshotBody) → Type 0
IsSizedBody (response _ _ (ok body)) = InInt64 body.last_seq
IsSizedBody _ = Unit

abbrev pub IsSizedLine : Line × ℤ → Type 0
IsSizedLine (data_line (ok evt), _) = InInt64 evt.seq
IsSizedLine _ = Unit

abbrev pub IsSizedStream : Reply Frames → Type 0
IsSizedStream (no_response _) = Unit
IsSizedStream (response _ _ frames) = All IsSizedLine frames.lines

fetched-IsCall :
    (reply : Reply (Result SnapshotBody)) (now_ms : ℤ)
    → IsSizedBody reply
    → IsCall (refreshes (fetch_snapshot reply) now_ms)
unfolding fetch_snapshot
fetched-IsCall (no_response e) now_ms sized = tt
fetched-IsCall (response status body (err e)) now_ms sized = elim (Bool-cases (status == pos 200)) [
  | inl fine ↦ rw (fine, fetch_snapshot) tt
  | inr other ↦ rw (other, fetch_snapshot) tt
]
fetched-IsCall (response status body (ok b)) now_ms sized = elim (Bool-cases (status == pos 200)) [
  | inl fine ↦ rw (fine, fetch_snapshot) sized
  | inr other ↦ rw (other, fetch_snapshot) tt
]

module _ (sql : Sqlite) (json : Json) where
  Steps-refl : (s : Service sql) → Inv sql json s → Steps sql json s s
  Steps-refl s v = same-Steps sql json s s v refl refl

  Steps-trans :
      (s s' s'' : Service sql) → Steps sql json s s' → Steps sql json s' s'' → Steps sql json s s''
  Steps-trans s s' s'' a b =
      (b.0, ≤ℤ_trans s.last_applied_seq s'.last_applied_seq s''.last_applied_seq a.1 b.1)

  consume_line-Steps :
      (line : Line) (now_ms : ℤ) (s : Service sql)
      → IsSizedLine (line, now_ms)
      → Inv sql json s
      → Steps sql json s (consume_line sql json line now_ms s).1
  unfolding consume_line
  consume_line-Steps other_line now_ms s sized v = Steps-refl s v
  consume_line-Steps (data_line (err e)) now_ms s sized v = Steps-refl s v
  consume_line-Steps (data_line (ok evt)) now_ms s sized v =
      process-Steps sql json evt now_ms s sized v

  consume_lines-Steps :
      (lines : List (Line × ℤ)) (ended : Error) (s : Service sql)
      → All IsSizedLine lines
      → Inv sql json s
      → Steps sql json s (consume_lines sql json lines ended s).1
  unfolding consume_lines
  consume_lines-Steps [] ended s sized v = Steps-refl s v
  consume_lines-Steps ((line, now_ms) ∷ rest) ended s sized v =
      let a = consume_line-Steps line now_ms s sized.0 v in
      elim (Option-cases (consume_line sql json line now_ms s).0) [
        | inl e ↦
            rw (e, consume_lines)
              (Steps-trans s _ _ a (consume_lines-Steps rest ended _ sized.1 a.0))
        | inr (x, e) ↦ rw (e, consume_lines) a
      ]

  -- What a step of the loop between two streams keeps.
  unfoldable pub Settles : Service sql → Service sql → Type 0
  Settles s s' = Steps sql json s s' × ((s.connected ≡ false) → s'.connected ≡ false)

  pub same-Settles :
      (s s' : Service sql)
      → Inv sql json s
      → sql.tables s'.store ≡ sql.tables s.store
      → s'.last_applied_seq ≡ s.last_applied_seq
      → ((s.connected ≡ false) → s'.connected ≡ false)
      → Settles s s'
  unfolding Settles
  same-Settles s s' v t e off = (same-Steps sql json s s' v t e, off)

  pub Settles-trans : (s s' s'' : Service sql) → Settles s s' → Settles s' s'' → Settles s s''
  unfolding Settles
  Settles-trans s s' s'' a b = (Steps-trans s s' s'' a.0 b.0, λ h. b.1 (a.1 h))

  pub refresh-Settles :
      (reply : Reply (Result SnapshotBody)) (now_ms : ℤ) (s : Service sql)
      → IsSizedBody reply
      → Inv sql json s
      → Settles s (refresh_from_snapshot sql (fetch_snapshot reply) now_ms s).1
  unfolding Settles
  refresh-Settles reply now_ms s sized v = (
    refresh-Steps sql json (fetch_snapshot reply) now_ms s (fetched-IsCall reply now_ms sized) v,
    λ off. elim (refresh_from_snapshot-Refreshed sql now_ms (fetch_snapshot reply) s) [
      | installed snapshot markets _ _ _ _ e ↦ ap (λ z. z.connected) e ∙ off
      | kept _ _ _ _ e ↦ ap (λ z. z.connected) e ∙ off
    ],
  )

  pub Settles-Inv : (s s' : Service sql) → Settles s s' → Inv sql json s'
  unfolding Settles
  Settles-Inv s s' a = a.0.0

  -- At the end of a stream the connection is unmarked.
  read_stream-Settles :
      (frames : Frames) (s : Service sql)
      → All IsSizedLine frames.lines
      → Inv sql json s
      → Settles s (read_stream sql json frames s).1
  unfolding Settles read_stream
  read_stream-Settles frames s sized v =
      let begun : Service sql = record s {
        connected = true;
        reconnect_attempts = pos 0;
        last_error = none;
      } in
      let ended = stream_end s.cfg.stream_idle_timeout frames in
      let after = (consume_lines sql json frames.lines ended begun).1 in
      let a = same-Steps sql json s begun v refl refl in
      let b = consume_lines-Steps frames.lines ended begun sized a.0 in
      let c = same-Steps sql json after (record after { connected = false }) b.0 refl refl in
      (Steps-trans s begun _ a (Steps-trans begun after _ b c), λ _. refl)

  on_reply-Settles :
      (reply : Reply Frames) (s : Service sql)
      → IsSizedStream reply
      → Inv sql json s
      → Settles s (on_reply sql json reply s).1
  unfolding on_reply
  on_reply-Settles (no_response e) s sized v = same-Settles s s v refl refl (λ h. h)
  on_reply-Settles (response status body frames) s sized v = elim (Bool-cases (status == pos 200)) [
    | inl good ↦ rw (good, on_reply) (read_stream-Settles frames s sized v)
    | inr bad ↦ rw (bad, on_reply) (same-Settles s s v refl refl (λ h. h))
  ]

  pub consume_stream-Settles :
      (network : Bytes → Reply Frames) (s : Service sql)
      → ((query : Bytes) → IsSizedStream (network query))
      → Inv sql json s
      → Settles s (consume_stream sql json network s).1
  unfolding consume_stream
  consume_stream-Settles network s sized v =
      on_reply-Settles (network (stream_query sql s)) s (sized (stream_query sql s)) v

  pub ensure_bootstrapped-Settles :
      (reply : Reply (Result SnapshotBody)) (now_ms : ℤ) (s : Service sql)
      → IsSizedBody reply
      → Inv sql json s
      → Settles s (ensure_bootstrapped sql reply now_ms s).1
  unfolding ensure_bootstrapped
  ensure_bootstrapped-Settles reply now_ms s sized v = elim (Bool-cases s.bootstrapped) [
    | inl before ↦ simp (before, ensure_bootstrapped) (same-Settles s s v refl refl (λ h. h))
    | inr not_yet ↦ simp (not_yet, ensure_bootstrapped) (refresh-Settles reply now_ms s sized v)
  ]
