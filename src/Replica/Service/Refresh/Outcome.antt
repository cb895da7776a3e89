-- ===== src/Replica/Service/Refresh/Outcome.antt =====
-- What `refreshFromSnapshot` does on each of its branches.
use novig_take_home.Base.{
  true, [], String, ◌≡◌, refl, ap, Option, none, some, inl, inr, Option-cases,
}
use novig_take_home.Base.Int.{ℤ, pos}
use novig_take_home.Base.Errors.{Error, wrap, Result, ok, err, Result-cases}
use novig_take_home.Base.Map.{Map}
use novig_take_home.Domain.{MarketState, SnapshotResponse}
use novig_take_home.Replica.Store.{Sqlite, update_checkpoint, set_checkpoint}
use novig_take_home.Replica.Validate.{validate_snapshot}
use novig_take_home.Replica.Service.State.{Service}
use novig_take_home.Replica.Service.Refresh.{store_snapshot, refresh_from_snapshot}

module _ (sql : Sqlite) (now_ms : ℤ) where
  -- Why a snapshot is not installed: it was not fetched, it is not valid, or its number could not be
  -- stored.
  pub data Rejected (fetched : Result SnapshotResponse) (s : Service sql) (e : Error) : Type 0 where
    not_fetched : fetched ≡ err e → Rejected fetched s e
    not_valid :
        (snapshot : SnapshotResponse) (x : Error)
        → fetched ≡ ok snapshot
        → validate_snapshot snapshot s.last_applied_seq ≡ err x
        → e ≡ wrap "validate snapshot: %w" [] x
        → Rejected fetched s e
    not_stored :
        (snapshot : SnapshotResponse) (markets : Map String MarketState)
        → fetched ≡ ok snapshot
        → validate_snapshot snapshot s.last_applied_seq ≡ ok markets
        → (set_checkpoint sql snapshot.last_seq now_ms s.store).0 ≡ some e
        → Rejected fetched s e

  -- What was fetched, the state before, the answer, and the state after.
  pub data Refreshed (fetched : Result SnapshotResponse) (s : Service sql) (answer : Option Error)
      (s' : Service sql) : Type 0 where
    installed :
        (snapshot : SnapshotResponse) (markets : Map String MarketState)
        → fetched ≡ ok snapshot
        → answer ≡ none
        → validate_snapshot snapshot s.last_applied_seq ≡ ok markets
        → sql.tables s'.store ≡ update_checkpoint snapshot.last_seq now_ms (sql.tables s.store)
        → s' ≡ record s {
          store = s'.store;
          markets = markets;
          history = [];
          last_applied_seq = snapshot.last_seq;
          core_last_seq = snapshot.last_seq;
          last_sync_at_ms = now_ms;
          bootstrapped = true;
          last_error = none;
          reconnect_attempts = pos 0;
        }
        → Refreshed fetched s answer s'
    kept :
        (e : Error)
        → answer ≡ some e
        → Rejected fetched s e
        → sql.tables s'.store ≡ sql.tables s.store
        → s' ≡ record s { store = s'.store }
        → Refreshed fetched s answer s'

  failed_lem :
      (snapshot : SnapshotResponse) (s : Service sql) (x : Error)
      → (sql.exec_update snapshot.last_seq now_ms s.store).0 ≡ some x
      → (set_checkpoint sql snapshot.last_seq now_ms s.store).0
        ≡ some (wrap "set checkpoint: %w" [] x)
  unfolding set_checkpoint
  failed_lem snapshot s x e = rw (e, set_checkpoint) refl

  store_snapshot-Refreshed :
      (snapshot : SnapshotResponse) (markets : Map String MarketState) (s : Service sql)
      → validate_snapshot snapshot s.last_applied_seq ≡ ok markets
      → let r = store_snapshot sql markets snapshot.last_seq now_ms s in
        Refreshed (ok snapshot) s r.0 r.1
  unfolding store_snapshot set_checkpoint
  store_snapshot-Refreshed snapshot markets s valid =
      let run = sql.exec_update snapshot.last_seq now_ms s.store in
      elim (Option-cases run.0) [
        | inl e ↦
            rw (e, store_snapshot)
              (installed snapshot markets refl refl valid
                (sql.update_done snapshot.last_seq now_ms s.store run.1 (ap (λ z. (z, run.1)) e))
                refl)
        | inr (x, e) ↦
            rw (e, store_snapshot)
              (kept _ refl (not_stored snapshot markets refl valid (failed_lem snapshot s x e))
                (sql.update_failed snapshot.last_seq now_ms s.store run.1 x
                  (ap (λ z. (z, run.1)) e))
                refl)
      ]

  -- A snapshot that is fetched and valid, and whose number can be stored, replaces the markets,
  -- empties the history, moves the number in memory, the core's number and the checkpoint to its
  -- own, together, and clears the last error and the attempts. There is an error only if it is not
  -- fetched, not valid or not stored, and then both tables and the memory are as before.
  pub refresh_from_snapshot-Refreshed :
      (fetched : Result SnapshotResponse) (s : Service sql)
      → let r = refresh_from_snapshot sql fetched now_ms s in Refreshed fetched s r.0 r.1
  unfolding refresh_from_snapshot
  refresh_from_snapshot-Refreshed (err e) s = kept e refl (not_fetched refl) refl refl
  refresh_from_snapshot-Refreshed (ok snapshot) s =
      elim (Result-cases (validate_snapshot snapshot s.last_applied_seq)) [
        | inl (markets, e) ↦
            rw (e, refresh_from_snapshot) (store_snapshot-Refreshed snapshot markets s e)
        | inr (x, e) ↦
            rw (e, refresh_from_snapshot) (kept _ refl (not_valid snapshot x refl e refl) refl refl)
      ]
