-- ===== src/Replica/Fixture.antt =====
-- Two tables in memory: a value that meets the replica's interface to SQLite, for tests.
use novig_take_home.Base.{
  String, ◌≢◌, arith, refl, sym, ap, ◌≡◌, [], ◌∷◌, Option, none, some, ◌*◌, ◌/◌,
}
use novig_take_home.Base.Int.{ℤ, pos, negsuc, add64, ltb_ℤ}
use novig_take_home.Base.Errors.{err, Error, Result, ok, ok_injective}
use novig_take_home.Domain.{ReplicationEvent, SnapshotResponse, market_suspended}
use novig_take_home.Core.Fixture.{open_market}
use novig_take_home.Replica.Service.Stream.Lines.{Reliable}
use novig_take_home.Replica.Store.{
  is_event_applied, commit_applied_event, commit_in_tx, apply_in_tx, finish, Tables, Sqlite,
  count_applied, insert_or_ignore, update_checkpoint,
}
use novig_take_home.Replica.Backoff.{Float64}
use novig_take_home.Replica.Service.State.{ServiceConfig}

pub inserted_lem :
    (n m : ℤ) (t u : Tables)
    → ◌≡◌ {A = Result (Result ℤ) × Tables} (ok (ok n), t) (ok (ok m), u)
    → ◌≡◌ {A = ℤ × Tables} (m, u) (n, t)
inserted_lem n m t u h = cc (ok_injective n m (ok_injective _ _ (ap (λ p. p.0) h)), ap (λ p. p.1) h)

pub never_failed :
    (e : Error) (t u v : Tables) → ◌≡◌ {A = Option Error × Tables} (none, t) (some e, u) → u ≡ v
never_failed e t u v h = let f = ap (λ p. p.0) h in cc f

abbrev pub in_memory : Sqlite
in_memory = record {
  Db = Tables;
  Tx = Tables;
  tables = λ db. db;
  pending = λ tx. tx;
  query_checkpoint = λ db. (ok db.checkpoint.last_applied_seq, db);
  query_count = λ event_id db. (ok (count_applied event_id db.applied_events), db);
  exec_update = λ seq ts_ms db. (none, update_checkpoint seq ts_ms db);
  begin = λ db. (ok db, db);
  tx_insert = λ row tx. let (affected, tx') = insert_or_ignore row tx in (ok (ok affected), tx');
  tx_update = λ seq ts_ms tx. (none, update_checkpoint seq ts_ms tx);
  commit = λ tx db. (none, tx);
  rollback = λ tx db. db;
  query_checkpoint_keeps = λ db. refl;
  query_checkpoint_value = λ db seq h. sym (ok_injective _ _ h);
  query_count_keeps = λ event_id db. refl;
  query_count_value = λ event_id db count h. sym (ok_injective _ _ h);
  update_done = λ seq ts_ms db db' h. sym (ap (λ p. p.1) h);
  update_failed = λ seq ts_ms db db' e h. never_failed e _ db' db h;
  begin_keeps = λ db. refl;
  begin_sees = λ db tx h. sym (ok_injective _ _ h);
  tx_insert_done = λ row tx tx' affected h. inserted_lem _ affected _ tx' h;
  tx_update_done = λ seq ts_ms tx tx' h. sym (ap (λ p. p.1) h);
  commit_done = λ tx db db' h. sym (ap (λ p. p.1) h);
  commit_failed = λ tx db db' e h. never_failed e _ db' db h;
  rollback_keeps = λ tx db. refl;
}

abbrev pub empty_tables : Tables
empty_tables = record {
  applied_events = [];
  checkpoint = record { last_applied_seq = pos 0; updated_at_ms = pos 0 };
}

abbrev pub config : ServiceConfig
config = record {
  id = "";
  core_base_url = "http://core:8080";
  reconnect_backoff = pos 0;
  reconnect_backoff_max = pos 0;
  snapshot_timeout = pos 0;
  stream_idle_timeout = pos 0;
  heartbeat_interval = pos 0;
  heartbeat_timeout = pos 0;
}

abbrev pub suspension : ReplicationEvent
suspension = record {
  seq = pos 2;
  event_id = "e2";
  ts_unix_ms = pos 1_000;
  event_type = market_suspended;
  market_id = "m1";
  payload = "suspended";
}

abbrev pub first_snapshot : SnapshotResponse
first_snapshot = record { last_seq = pos 1; markets = ("m1", open_market) ∷ [] }

abbrev pub full_config : ServiceConfig
full_config = record {
  id = "replica-1";
  core_base_url = "http://core:8080";
  reconnect_backoff = pos 500_000_000;
  reconnect_backoff_max = pos 5_000_000_000;
  snapshot_timeout = pos 3_000_000_000;
  stream_idle_timeout = pos 45_000_000_000;
  heartbeat_interval = pos 2_000_000_000;
  heartbeat_timeout = pos 2_000_000_000;
}

always_read :
    (event_id : String) (db : Tables) (e : Error)
    → (is_event_applied in_memory event_id db).0 ≢ err e
unfolding is_event_applied
always_read event_id db e h = cc h

always_write :
    (event_id : String) (seq ts_ms : ℤ) (db : Tables) (e : Error)
    → (commit_applied_event in_memory event_id seq ts_ms db).0 ≢ err e
unfolding commit_applied_event commit_in_tx apply_in_tx finish insert_or_ignore
always_write event_id seq ts_ms db e h = ground arith

pub in_memory_reliable : Reliable in_memory
in_memory_reliable = record { reads = always_read; writes = always_write }

abbrev times_tenths : ℤ → ℤ → ℤ
times_tenths (pos a) (pos b) = pos (a * b / 10)
times_tenths _ _ = pos 0

abbrev whole : ℤ → ℤ
whole (pos a) = pos (a / 10)
whole (negsuc _) = pos 0

abbrev tenfold : ℤ → ℤ
tenfold (pos a) = pos (a * 10)
tenfold (negsuc _) = pos 0

-- Numbers in tenths, for the jitter of delays that are not negative.
abbrev pub tenths : Float64
tenths = record {
  Float = ℤ;
  one_half = pos 5;
  one_tenth = pos 1;
  two = pos 20;
  plus = λ a b. add64 a b;
  times = times_tenths;
  less = ltb_ℤ;
  of_int64 = tenfold;
  to_int64 = whole;
}
