-- ===== src/Demo.antt =====
-- cmd/demo/main.go: the requests, the loops that wait, the script, and the start of a replica. What
-- the network answers is an argument, and so is which channel each select receives from. Servers,
-- output and the flag that holds the services are left out. The set-up is in a module below.
pub mod Verified
pub mod Cleanup
pub mod SetUp
mod Tests
use Prim.Native.String.{◌++◌ as ◌<>◌}
use novig_take_home.Base.{
  String, Bool, true, false, ◌||◌, List, [], ◌∷◌, Option, none, some, if◌then◌else◌, ◌==◌,
  string_eq,
}
use novig_take_home.Base.Int.{ℤ, pos, ltb_ℤ, int_eq}
use novig_take_home.Base.Errors.{Error, errorf, int, text, Result, ok, err}
use novig_take_home.Base.Database.{Driver, Opened, failed, opened}
use novig_take_home.Domain.{
  MarketState, MarketStatus, status_open, status_suspended, status_unset, other_status, same_status,
}
use novig_take_home.Replica.Store.{Sqlite, get_checkpoint}
use novig_take_home.Replica.Store.Opening.{effect, in_memory_dsn, new_store}
use novig_take_home.Replica.Service.State.{ServiceConfig, Service, Status, new_service}
use novig_take_home.Replica.Service.Connection.{Reply, no_response, response}

abbrev pub default_market_id : String
default_market_id = "market-news-001"

-- `none` is a nil error.
unfoldable pub post : Reply {0} Unit → Option Error
post (no_response e) = some e
post (response status body _) =
    if ltb_ℤ status (pos 200) || ltb_ℤ (pos 299) status
    then some (errorf "unexpected status: %d" (int status ∷ []))
    else none

-- `getMarket` and `getReplicaStatus`, with what encoding/json makes of the body.
unfoldable pub get_json : {A : Type 0} → Reply (Result A) → Result A
get_json (no_response e) = err e
get_json (response status body decoded) =
    if status == pos 200 then decoded else err (errorf "status=%d" (int status ∷ []))

-- What a waiting loop receives: the end of its context, which has the timeout, or a tick, after
-- which it asks.
pub data Turn (A : Type 0) : Type 0 where
  expired : Turn A
  ticked : Reply (Result A) → Turn A

abbrev pub accepts : {A : Type 0} → (A → Bool) → Result A → Bool
accepts p (err e) = false
accepts p (ok a) = p a

-- The shape of both loops, with the error that they return; `none` while they wait.
unfoldable pub poll : {A : Type 0} → Error → (A → Bool) → List (Turn A) → Option (Option Error)
unfolding get_json
poll timeout p [] = none
poll timeout p (expired ∷ _) = some (some timeout)
poll timeout p (ticked reply ∷ rest) =
    let later = poll timeout p rest in if accepts p (get_json reply) then some none else later

abbrev pub is_connected : Status → Bool
is_connected status = status.connected

unfoldable pub wait_replica_connected : List (Turn Status) → Option (Option Error)
unfolding poll
wait_replica_connected turns =
    poll (errorf "timeout waiting for replica connection" []) is_connected turns

abbrev pub has_status : MarketStatus → MarketState → Bool
has_status target market = same_status market.status target

abbrev status_text : MarketStatus → String
status_text status_open = "OPEN"
status_text status_suspended = "SUSPENDED"
status_text (other_status s) = s
status_text status_unset = ""

unfoldable pub wait_status : MarketStatus → List (Turn MarketState) → Option (Option Error)
unfolding poll
wait_status target turns =
    poll (errorf "timeout waiting for status %s" (text (status_text target) ∷ []))
      (has_status target) turns

-- What the script meets, of each of the two replicas and of the core.
pub record Run : Type 0 where
  pub connects1 : List (Turn Status)
  pub connects2 : List (Turn Status)
  pub spike : Reply {0} Unit
  pub suspends1 : List (Turn MarketState)
  pub suspends2 : List (Turn MarketState)
  pub normalize : Reply {0} Unit
  pub reopens1 : List (Turn MarketState)
  pub reopens2 : List (Turn MarketState)

-- The script has verified all; it has exited with a log line and an error; or it waits.
pub data Ending : Type 0 where
  verified : Ending
  exited : String → Error → Ending
  waiting : Ending

unfoldable pub check : String → Option (Option Error) → Ending → Ending
check line none rest = waiting
check line (some none) rest = rest
check line (some (some e)) rest = exited line e

-- `main`, from the first wait on.
unfoldable pub script : Run → Ending
unfolding check post wait_replica_connected wait_status
script r = check "replica1 did not connect" (wait_replica_connected r.connects1) (
    check "replica2 did not connect" (wait_replica_connected r.connects2) (
      check "failed to trigger spike" (some (post r.spike)) (
        check "replica1 did not suspend" (wait_status status_suspended r.suspends1) (
          check "replica2 did not suspend" (wait_status status_suspended r.suspends2) (
            check "failed to trigger normalize" (some (post r.normalize)) (
              check "replica1 did not reopen" (wait_status status_open r.reopens1) (
                check "replica2 did not reopen" (wait_status status_open r.reopens2) verified)))))))

-- The address that is listened on, or the error.
abbrev pub start_http_server : Result String → Result String
start_http_server (err e) = err e
start_http_server (ok addr) = ok ("http://" <> addr)

abbrev pub replica_config : String → String → ServiceConfig
replica_config id core_url = record {
  id = id;
  core_base_url = core_url;
  reconnect_backoff = pos 250_000_000;
  reconnect_backoff_max = pos 0;
  snapshot_timeout = pos 0;
  stream_idle_timeout = pos 0;
  heartbeat_interval = pos 0;
  heartbeat_timeout = pos 0;
}

module _ (sql : Sqlite) (d : Driver sql.Db effect) where
  -- An error with the database as it is left, if it was opened; or the replica with its address.
  pub data Started : Type 0 where
    not_started : Error → Option sql.Db → Started
    running : Service sql → String → Started

  unfoldable pub served : Result String → Service sql → Started
  served (err e) s = not_started e (some (d.close s.store).1)
  served (ok base_url) s = running s base_url

  -- The database after `NewService` has failed: without an address it is not asked.
  unfoldable pub store_left : String → sql.Db → sql.Db
  store_left core_url db = if core_url == "" then db else (get_checkpoint sql db).1

  unfoldable pub with_service : Result String → String → sql.Db → Result (Service sql) → Started
  unfolding served store_left
  with_service listening core_url db (err e) =
      not_started e (some (d.close (store_left core_url db)).1)
  with_service listening core_url db (ok s) = served (start_http_server listening) s

  unfoldable pub start_replica : (String → String) → String → String → Result String → Started
  unfolding with_service
  start_replica path_escape id core_url listening =
      elim (new_store d (in_memory_dsn path_escape id)) [
        | failed e db ↦ not_started e db
        | opened db ↦
            with_service listening core_url db (new_service sql db (replica_config id core_url))
      ]
