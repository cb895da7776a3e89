-- ===== src/Binaries/Tests.antt =====
-- A replica that is started with an interval of zero, over tables in memory.
use novig_take_home.Base.{
  [], String, ◌≡◌, refl, sym, ap, none, some, Bool, if◌then◌else◌, ◌==◌, string_eq,
}
use novig_take_home.Base.Int.{ℤ, int_eq, pos, negsuc, leb_ℤ, int64}
use novig_take_home.Base.Errors.{errorf, ok, ok_injective}
use novig_take_home.Base.Decimal.{parse_int}
use novig_take_home.Base.Database.{Driver}
use novig_take_home.Replica.Store.{Tables}
use novig_take_home.Replica.Store.Opening.{
  Schema, Statement, create_applied_events, create_consumer_checkpoint, seed_checkpoint, effect,
  new_store,
}
use novig_take_home.Replica.Fixture.{in_memory, empty_tables}
use novig_take_home.Binaries.{
  Listened, server_closed, not_served, codes, get_env_int, in_milliseconds,
}
use novig_take_home.Binaries.ReplicaMain.{replica_dsn, replica_main, replica_config}
use novig_take_home.Binaries.ReplicaMain.Starts.{Starts, replica_main-Starts}

abbrev environment : String → String
environment key =
    if key == "REPLICA_HEARTBEAT_INTERVAL_MS"
    then "0"
    else if key == "REPLICA_PORT"
    then "9000"
    else ""

abbrev schema_of : Tables → Schema
schema_of t = record {
  applied_events = some t.applied_events;
  consumer_checkpoint = some (some t.checkpoint);
}

effect_lem : (stmt : Statement) (t : Tables) → schema_of t ≡ effect stmt (schema_of t)
unfolding effect
effect_lem create_applied_events t = refl
effect_lem create_consumer_checkpoint t = refl
effect_lem seed_checkpoint t = refl

-- A database that is closed is marked by its time.
abbrev closed : Tables → Tables
closed t = record t {
  checkpoint = record {
    last_applied_seq = t.checkpoint.last_applied_seq;
    updated_at_ms = negsuc 0;
  };
}

abbrev is_marked_open : Tables → Bool
is_marked_open t = leb_ℤ (pos 0) t.checkpoint.updated_at_ms

abbrev tables_driver : Driver Tables effect
tables_driver = record {
  is_open = is_marked_open;
  schema = schema_of;
  open_dsn = λ dsn. ok empty_tables;
  exec = λ stmt db. (none, db);
  close = λ db. (none, closed db);
  open_dsn_opens = λ dsn db h. sym (ap is_marked_open (ok_injective _ _ h));
  exec_keeps = λ stmt db. refl;
  exec_done = λ stmt db h. effect_lem stmt db;
  close_closes = λ db. refl;
}

-- A server that can listen on port 9000 only, and is shut down.
abbrev listens : ℤ → Listened
listens port = if port == pos 9_000 then server_closed else not_served (errorf "no listener" [])

replica_main-Starts_example :
    Starts environment in_memory listens
      (new_store tables_driver (replica_dsn environment (λ s. s)))
      (replica_main environment in_memory listens tables_driver (λ s. s))
replica_main-Starts_example =
    replica_main-Starts environment in_memory listens tables_driver (λ s. s)

configured_port : get_env_int environment "REPLICA_PORT" (pos 8_081) ≡ pos 9_000
unfolding get_env_int codes parse_int
configured_port = refl

zero_interval : (replica_config environment).heartbeat_interval ≡ pos 0
unfolding replica_config get_env_int codes parse_int in_milliseconds int64
zero_interval = refl
