-- ===== src/Lib.antt =====
-- Core and replica of the market-risk replication program (internal/domain, internal/core,
-- internal/replica, internal/shared), its programs cmd/core, cmd/replica and cmd/demo, and
-- cmd/eventlog-bench.
--
-- The core owns the state of the markets: signals go into a rolling window, a tick applies the
-- circuit breaker to each market, and each change of state is an event that is persisted in SQLite
-- under the next sequence number and then broadcast to the subscribers of the stream.
--
-- Base: shared names, int64 with its wrap-around (Base/Int), Go's maps (Base/Map), errors
--   (Base/Errors), numbers in base 10 (Base/Decimal), the order of strings (Base/Order), a sort
--   (Base/Sort), and database/sql where a database is opened (Base/Database).
-- Domain: internal/domain. Types (Domain/Types), MarketState.IsEqual (Domain/Equality) and
--   ApplyBreaker with its helpers (Domain/Breaker).
-- Core/EventStore: internal/core/event_store.go. SQLite is a parameter that may fail at any
--   statement; the meaning of the three statements over the rows is written out. Its opening
--   (NewEventStore, init, Close) is in Core/EventStore/Opening, over the driver of Base/Database.
-- Core/Hub: internal/core/sse_hub.go. Channels are addresses in a memory that the hub and its
--   subscribers share; a missing result is a panic.
-- Core/ReplicaHealth: internal/core/replica_health.go.
-- Core/Service: internal/core/service.go. State (NewService), Signals (IngestSignal, ClearSignals,
--   Snapshot, pruneSignalsLocked, metricsLocked), Emit (emitEventLocked), Evaluate (evaluateAll),
--   Ticker (Start and the accessors), Replicas (heartbeats and statuses); the other modules below
--   it hold proofs.
-- Core/Stream: internal/core/http.go, handleStream and writeSSEEvent. A handler is a state machine
--   whose steps each access what it shares with the service at most once, so that the calls of other
--   users may come between any two of them (Core/Stream/Schedule). The response is a parameter whose
--   writes may fail.
-- Core/Http: the other handlers of internal/core/http.go, and internal/shared/httpjson.go.
-- Replica/Backoff: internal/replica/service.go, nextReconnectDelay and exponentialBackoffDuration;
--   float64 is a parameter.
-- Replica/Store: internal/replica/store.go. SQLite and its transactions are a parameter that may
--   fail at any statement; the meaning of the statements over the two tables is written out. Its
--   opening (NewStore, init, Close) is in Replica/Store/Opening.
-- Replica/Validate: internal/replica/service.go, the checks of snapshots and events.
-- Replica/Service: internal/replica/service.go. State (NewService and the accessors), Process
--   (processEvent), Refresh (refreshFromSnapshot), Stream (the lines that consumeStream reads),
--   Connection (fetchSnapshot, consumeStream, ensureBootstrapped), Start (the loop of Start, in
--   rounds), Heartbeat (sendHeartbeat, reportHeartbeats), Idle (monitorStreamIdle, with Go's timer as
--   a parameter); the other modules below it hold proofs.
-- Replica/Http: internal/replica/http.go, and Markets of internal/replica/service.go.
-- EndToEnd: a replica that reads the log of a core; its first round against a core's snapshot and
--   stream (EndToEnd/Bootstrap); its rounds after a gap (EndToEnd/Recovery); what a core's handler
--   writes, as a replica reads it through its scanner of 2 MiB (EndToEnd/Wire); and a replica's
--   heartbeat at the core's handler (EndToEnd/Heartbeat).
-- Binaries: cmd/core/main.go and cmd/replica/main.go, the helpers (getEnv, getEnvInt) and the two
--   mains (Binaries/CoreMain, Binaries/ReplicaMain); what ListenAndServe returns is a parameter.
-- Demo: cmd/demo/main.go, the requests, the waiting loops, the script and startReplica; the set-up
--   of the core and its replicas (Demo/SetUp).
-- EventlogBench: cmd/eventlog-bench/main.go, computeStats, percentileIndex,
--   parseCSVInts, buildDB with seedEvents (EventlogBench/Seed), benchmarkQuery and explainQueryPlan
--   (EventlogBench/Query), and main (EventlogBench/Program).
--
-- The replica's number starts at its durable checkpoint and moves with it: by one with an event of
-- the stream, or to a snapshot's number after a gap.
--
-- The clock, identifiers, what the network answers, and JSON are arguments or parameters. The
-- backoff's loop recurses on the number of attempts, so it needs no fuel; the digits of a number are
-- printed on fuel of the number itself, which is enough.
--
-- Not modelled: the mux, header fields and log lines; signals, HTTP servers, their shutdown and the
-- deferred close of the store in cmd/core, cmd/replica and cmd/demo; what cmd/eventlog-bench
-- prints; a lack of memory. A call of the core is one act beside the steps of a stream handler, so that no step falls
-- between the insert and the broadcast of one event; and the monitor of an idle stream receives the
-- signal of a line as an act of its own, with no signal pending beside a timer that has run out.
pub mod Base
pub mod Domain
pub mod Core
pub mod Replica
pub mod EndToEnd
pub mod Binaries
pub mod Demo
pub mod EventlogBench
