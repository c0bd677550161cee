-- ===== src/Lib.antt =====
-- ReconX: a reconciliation system that takes records of one transaction from several source
-- systems, matches them, and settles the transactions on which the sources disagree. This library
-- models its three Go services: services/ingestion and services/resolution, which decide and
-- store, and services/gateway in front of them. Between them stands the matching engine
-- (services/engine, in Rust), which reads what ingestion stores and writes the states that
-- resolution settles; here it is a parameter.
--
-- How the parts interact. An ingestion request runs through SubmitRecord: the cached reply of its
-- idempotency key, the pipeline Enrich, Validate, Normalize, the table of records, the cache of
-- replies, and the dead letter queue for what fails. The rate limiter is asked first, with a
-- bucket for each source. The adapters (webhook, file upload, REST poller, Kafka consumer,
-- database poller) put records on a queue whose consumer hands them to the same handler. On the
-- other side a MISMATCHED transaction is settled by an operator (ResolveManually), by a strategy
-- through the REST API (autoResolve), or by the retry worker, which asks the engine again with
-- growing pauses and may apply a strategy when its attempts are used up. The three share the
-- database with one another and with the engine, and their steps come in any order. The gateway
-- checks the API key, turns JSON requests into calls of the gRPC servers and the codes of their
-- errors into HTTP statuses, and forwards four routes to the REST API of resolution.
--
-- Which file models what:
--   Base            lists, tables with a text key, ORDER BY as a stable sort, code that reads and writes
--                   a store and may return early (Exec), Go's text functions on ASCII text
--   Proto           the messages and codes of proto/gen/go
--   Resolution      services/resolution/internal
--     Tables        the rows that db/db.go reads and writes, and what a run finds (Env)
--     Queries       db/db.go, one function for each query or update, by the tables they are on
--     Strategy      resolver/strategies.go (ParseStrategy, Resolve and the five strategies)
--     Manual        server/server.go (ResolveManually, ListMismatches)
--     Api           api/handler.go (autoResolve, enqueueRetry and the three lists; in Server the routes,
--                   the counter and the replies; in Walk a client that follows the cursors)
--     Worker        retry/worker.go (Start, runCycle, retryOne, handleExhausted, nextRetryTime)
--     Service       services/resolution/cmd/main.go, main: the service from its start to its exit, as a
--                   step relation over the handlers, the worker with its batch, and the engine
--   Ingestion       services/ingestion
--     Pipeline      internal/pipeline (Run, Enrich, Validate, Normalize)
--     Stores        internal/idempotency, internal/storage and internal/dlq; in Depth the loops of
--                   cmd/main.go that purge cached replies and set the gauges
--     Server        internal/server/server.go (SubmitRecord, BulkStreamIngest) and, of cmd/main.go, the
--                   queue consumer (consumeAdapterQueue, normalizedToProto); in Between requests and
--                   clean-ups in any order
--     Adapters      internal/adapters, a module for each file (db.go is DbPoll, with its rows in Cells),
--                   bufio's lines (Lines) and the loop that the parsers share (queue_each)
--     RateLimit     internal/ratelimit/ratelimit.go (New, Allow, SetLimit, getOrCreate, burstFor)
--     Lifecycle     cmd/main.go, main: the service from its start to its exit, as a step relation
--     Delivered     webhook.go and kafka.go with the queue consumer and the server behind them
--   Gateway         services/gateway
--     Http          the requests, responses and error codes of internal/handlers/handlers.go
--     Auth          internal/middleware/auth.go (APIKeyAuth)
--     Handlers      the handlers that call a gRPC server
--     Proxy         the four forwarded routes and the health check
--     Routes        the table of routes (New), the counter around it and the server of cmd/main.go
--     Dial          internal/clients/clients.go
--     Passed        the forwarded routes, with the REST API of resolution behind them
--     Forwarded     what the upstream cannot tell apart behind the forwarded routes
--     Ingested      records submitted through the gateway, with ingestion behind it
--     Settled       manual resolutions through the gateway, with resolution behind it
--     Listed        the list of mismatches through the gateway, with resolution behind it
--   Config          internal/config/config.go of the three services, a module for each; in Heard what
--                   package viper documents, and in Deaf what a Load does not hear
-- Function names are the source's in snake_case. A child module of one of these holds its
-- theorems, and is named for what they are about; the modules Examples hold tests and concrete
-- instances.
--
-- State. A database is a record of tables, a table a list of rows, and a handler a function from
-- the database to a result and the database that it leaves, so that what was written before an
-- early return stays written. Statements are atomic, and whether one fails is given by Env for
-- each call of a run. Other clients of the database do not write between the statements of one
-- run.
--
-- Numbers. Times are nanoseconds since Go's zero time, none before it. A duration of the worker is
-- an int64, kept as its bit pattern (% 2 ^ 64); the counts of a bulk stream are int32 (% 2 ^ 32).
-- The float64 product of nextRetryTime is taken to be exact, which it is for a base of at most 53
-- bits. Sizes of pages are given as parsed numbers; the gateway's conversion to int32 keeps 32
-- bits. Every loop of the source is one over a list, which the model runs to its end; the worker's
-- endless loop and the streams are lists of what they meet, or steps in any order. Only the client
-- of Walk runs on fuel, the number of its requests, of which one more than there are rows is
-- enough.
--
-- Parameters: the engine's answer and its writes, fmt's %q and %d, package viper, encoding/json,
-- encoding/csv, decimals and time.Parse, the buckets of golang.org/x/time/rate, what Kafka, a
-- source's database or an HTTP response delivers, net/http's multiplexer, and PostgreSQL's order
-- of texts and of NUMERIC. In SubmitRecord the rate limiter's answer is a field of Env. Rows that
-- tie under ORDER BY keep the table's order. Of the engine's own writes, EngineWrites says what
-- the service relies on.
--
-- Not modelled: transports, timers, the start and stop of the gateway, metrics but the counters of
-- requests and the gauges of the dead letter queue, logs, texts of errors (also where an audit
-- entry quotes one), migrations beyond the shape of the tables, and generated code.
pub mod Base
pub mod Proto
pub mod Resolution
pub mod Ingestion
pub mod Gateway
pub mod Config
