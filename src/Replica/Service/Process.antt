-- ===== src/Replica/Service/Process.antt =====
-- internal/replica/service.go: `processEvent`. The clock's reading is an argument.
pub mod Outcome
use novig_take_home.Base.{
  String, Bool, true, false, List, [], ◌∷◌, ◌++◌, Option, none, some, ◌==◌, if◌then◌else◌, not,
  string_eq,
}
use novig_take_home.Base.Int.{ℤ, pos, add64, int_eq}
use novig_take_home.Base.Errors.{int, Error, sentinel, seq_gap, wrap, Result, ok, err}
use novig_take_home.Base.Map.{insert}
use novig_take_home.Domain.{MarketState, ReplicationEvent}
use novig_take_home.Domain.Json.{Json}
use novig_take_home.Replica.Store.{Sqlite, is_event_applied, commit_applied_event}
use novig_take_home.Replica.Validate.{validate_event_envelope, decode_and_validate_event_payload}
use novig_take_home.Replica.Service.State.{Service, update_core_last_seq, history_of}

-- `ErrSeqGap`
abbrev pub gap_error : ℤ → ℤ → Error
gap_error expected got =
    wrap "%w: expected=%d got=%d" (int expected ∷ int got ∷ []) (sentinel seq_gap)

module _ (sql : Sqlite) where
  -- The writes under the mutex after a commit.
  unfoldable pub apply_event : ReplicationEvent → MarketState → ℤ → Service sql → Service sql
  unfolding update_core_last_seq
  apply_event evt market now_ms s =
      let applied = record s {
        markets = insert market.market_id market s.markets;
        history =
            insert market.market_id (history_of sql s.history market.market_id ++ evt ∷ [])
              s.history;
        last_applied_seq = evt.seq;
        last_sync_at_ms = now_ms;
      } in
      update_core_last_seq sql evt.seq applied

  unfoldable pub commit_event :
      ReplicationEvent → MarketState → ℤ → Service sql → Option Error × Service sql
  unfolding apply_event
  commit_event evt market now_ms s =
      let (committed, store) = commit_applied_event sql evt.event_id evt.seq now_ms s.store in
      let s' : Service sql = record s { store = store } in
      elim committed [
        | err e ↦ (some e, s')
        | ok false ↦ (none, update_core_last_seq sql evt.seq s')
        | ok true ↦ (none, apply_event evt market now_ms s')
      ]

  unfoldable pub process_new_event :
      Json → ReplicationEvent → ℤ → Service sql → Option Error × Service sql
  unfolding commit_event
  process_new_event json evt now_ms s =
      let expected = add64 s.last_applied_seq (pos 1) in
      if evt.seq == expected
      then elim (decode_and_validate_event_payload json evt) [
        | err e ↦ (some e, s)
        | ok market ↦ commit_event evt market now_ms s
      ]
      else (some (gap_error expected evt.seq), s)

  -- `none` is a nil error.
  unfoldable pub process_event :
      Json → ReplicationEvent → ℤ → Service sql → Option Error × Service sql
  unfolding process_new_event
  process_event json evt now_ms s = elim (validate_event_envelope evt) [
    | some e ↦ (some e, s)
    | none ↦
        let (answer, store) = is_event_applied sql evt.event_id s.store in
        let s' : Service sql = record s { store = store } in
        elim answer [
          | err e ↦ (some e, s')
          | ok true ↦ (none, update_core_last_seq sql evt.seq s')
          | ok false ↦ process_new_event json evt now_ms s'
        ]
  ]
