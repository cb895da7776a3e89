-- ===== src/Replica/Service/Refresh.antt =====
-- internal/replica/service.go: `refreshFromSnapshot`. What `fetchSnapshot` returns, over HTTP, and
-- the clock's reading are arguments.
pub mod Outcome
use novig_take_home.Base.{String, true, [], Option, none, some}
use novig_take_home.Base.Int.{ℤ, pos}
use novig_take_home.Base.Errors.{Error, wrap, Result, ok, err}
use novig_take_home.Base.Map.{Map}
use novig_take_home.Domain.{MarketState, SnapshotResponse}
use novig_take_home.Replica.Store.{Sqlite, set_checkpoint}
use novig_take_home.Replica.Validate.{validate_snapshot}
use novig_take_home.Replica.Service.State.{Service}

module _ (sql : Sqlite) where
  -- The writes under the mutex. The copy of a map holds the same entries.
  abbrev pub install : Map String MarketState → ℤ → ℤ → Service sql → Service sql
  install markets last_seq now_ms s = record s {
    markets = markets;
    history = [];
    last_applied_seq = last_seq;
    core_last_seq = last_seq;
    last_sync_at_ms = now_ms;
    bootstrapped = true;
    last_error = none;
    reconnect_attempts = pos 0;
  }

  unfoldable pub store_snapshot :
      Map String MarketState → ℤ → ℤ → Service sql → Option Error × Service sql
  store_snapshot markets last_seq now_ms s =
      let (failed, store) = set_checkpoint sql last_seq now_ms s.store in
      elim failed [
        | some e ↦ (some e, record s { store = store })
        | none ↦ (none, install markets last_seq now_ms (record s { store = store }))
      ]

  -- `none` is a nil error.
  unfoldable pub refresh_from_snapshot :
      Result SnapshotResponse → ℤ → Service sql → Option Error × Service sql
  unfolding store_snapshot
  refresh_from_snapshot (err e) now_ms s = (some e, s)
  refresh_from_snapshot (ok snapshot) now_ms s =
      elim (validate_snapshot snapshot s.last_applied_seq) [
        | err e ↦ (some (wrap "validate snapshot: %w" [] e), s)
        | ok markets ↦ store_snapshot markets snapshot.last_seq now_ms s
      ]
