-- ===== src/Core/Service/Emit.antt =====
-- internal/core/service.go: `emitEventLocked`. encoding/json is a parameter; the identifier of
-- uuid.NewString and the clock's reading for the event are arguments.
use novig_take_home.Base.{String, Bool, true, false, Option, none, some}
use novig_take_home.Base.Int.{ℤ, pos, add64}
use novig_take_home.Base.Errors.{ok, err}
use novig_take_home.Domain.Json.{Json}
use novig_take_home.Domain.{MarketState, EventType, ReplicationEvent}
use novig_take_home.Core.EventStore.{Sqlite, insert, last_seq}
use novig_take_home.Core.Hub.{broadcast}
use novig_take_home.Core.Service.State.{Service}

module _ (sql : Sqlite) where
  -- After a failed insert: the number is taken from the store, or set back if that fails too.
  unfoldable pub reload_last_seq : ℤ → Service sql → sql.Db → Service sql
  reload_last_seq prev_seq s store =
      let (last, store') = last_seq sql store in
      record s { store = store'; last_seq = elim last [ ok n ↦ n | err _ ↦ prev_seq ] }

  unfoldable pub persist : ReplicationEvent → Service sql → Option (Bool × Service sql)
  unfolding reload_last_seq
  persist evt s =
      let (failed, store) = insert sql evt s.store in
      elim failed [
        | some _ ↦ some (false, reload_last_seq s.last_seq s store)
        | none ↦ elim (broadcast evt s.hub) [
          | none ↦ none
          | some hub ↦ some (true, record s { store = store; last_seq = evt.seq; hub = hub })
        ]
      ]

  -- `none` is a panic of the hub. The Boolean says whether the event was persisted.
  unfoldable pub emit_event :
      Json
      → EventType
      → String
      → MarketState
      → String
      → ℤ
      → Service sql
      → Option (Bool × Service sql)
  unfolding persist
  emit_event json event_type market_id state event_id ts_unix_ms s = elim (json.marshal state) [
    | err _ ↦ some (false, s)
    | ok payload ↦
        persist
          (record {
            seq = add64 s.last_seq (pos 1);
            event_id = event_id;
            ts_unix_ms = ts_unix_ms;
            event_type = event_type;
            market_id = market_id;
            payload = payload;
          })
          s
  ]
