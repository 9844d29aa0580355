-- ===== src/Lib.antt =====
-- A model of a metrics service in Go: a server that keeps gauges and counters and answers over HTTP,
-- and an agent that polls metrics and reports them to the server.
--
-- The parts, and how they meet:
--
-- - Entities, Models (internal/entities, internal/models): metrics, metric types and errors. A gauge
--   (`float64`) is an opaque number, its bit pattern; a counter (`int64`) is its bit pattern, with
--   the wrap-around of `+` written out in Base/Word. `errors.Is` and `errors.As` walk the chain of
--   wrapped errors (`on_chain`).
-- - Storage (internal/usecases/metrics.go, the interface `storage`): a record of calls, and
--   `IsLawful`, the promise that each call returns what Storage/Spec says on what the state shows.
--   Storage/Mem is internal/storage/memstorage, Storage/File is internal/storage/filestorage. A call
--   that takes a lock either returns or is blocked for ever (Base/Exec), so that a call which takes a
--   lock that it holds itself is a value of the model. Storage/Mem/Threads has the methods of
--   memstorage called by many goroutines at once: a step is one access of the maps or of the lock.
--   Storage/File/Preserver is the goroutine of `Start`: a schedule is the list of ticks and updates
--   between the start and the cancellation.
--   Storage/Pg is internal/storage/pgstorage: the queries run in a transaction (Pg/Transaction is
--   transaction.go) on a `Database` (Pg/Sql), which stands for the server and its driver. Pg/Postgres
--   says what PostgreSQL documents of the queries: any of them may fail, and a commit that fails has
--   either not been applied (`IsDefinite`) or has been or not (`IsUncertain`).
-- - Usecases (internal/usecases/metrics.go): what hands on to the storage, and the sorted dump.
-- - Handlers (internal/handlers): the adapters from requests to metrics (adapters/metric.go) and one
--   function for each endpoint (metrics_router.go). A handler gives the list of its calls on the
--   response writer; `Http.respond` makes of them what net/http sends. Handlers/Routes is what
--   `WithMiddlewares` and `WithAllHandlers` tell chi, and `IsChi` what chi documents of it.
-- - Middleware (internal/middleware): `Summary`, `Integrity`, `Encoding` and the RSA encoder and
--   decoder, as functions from handlers to handlers, or on requests; Rsa/Keys loads the keys.
-- - Server (internal/app/server): Server/Stack is `createServer`, the order of the middlewares and
--   the routes, Server/Run is `createStorage` and `Run`, with the goroutines and the requests in
--   flight as a step relation, and Server/Config is config.go.
-- - Agent (internal/app/agent): Agent/Poller is metrics/poller.go with the poll functions,
--   Agent/Reporter is workers/reporter.go, with the encoder of reporter_pool.go in Reporter/Keys,
--   Agent/HttpRetry is workers/http_retry, through which a reporter posts, Agent/Config is
--   config.go. Agent/Workers is agent.go with scheduler.go, poller.go, reporter_pool.go, flusher.go
--   and the loop of reporter.go: a state holds where each goroutine stands, the context, the channel
--   and the wait group, and a step is what one goroutine does between two waits.
-- - Retry: the loop of internal/app/agent/workers/http_retry/retryable_transport.go, which
--   internal/storage/pgstorage/transaction.go repeats.
-- - ConfigReader (internal/app/pkg/configreader): the flags, the environment and the JSON file.
-- - Commands (cmd/agent, cmd/server): the exit codes. Staticlint (cmd/staticlint): the analyzer
--   noosexit on a small syntax tree, the list of standard.go, and the choice of the other analyzers.
-- - Base and GoMap: the names that all modules share, decimal text, and Go's maps as association
--   lists; the order of `range` is that of the list. Tests: the theorems at small inputs.
--
-- What stands outside comes in as parameters: the JSON codec, gzip, the HMAC, the ciphers, the HTTP
-- transport, the disk, the database, chi, the libraries that read flags, environment and keys, and
-- what the machine reports. Their laws (`IsCodec`, `IsGzip`, `IsCipher`) say that what was written is
-- read back. The regular expression of the server's configuration is written out in Server/Config.
--
-- Bounds: the retry loop is structural on the repetitions that are left, three as in the source. The
-- loop of the main page runs once for each row and once more, which ends it. The digits of a
-- number are cut by fuel that its size gives.
--
-- In the step relations any goroutine may step next, and a ticker may tick at any time; nothing bounds
-- the number of the steps. Seconds are counted in the retry loop only.
--
-- Not modelled: the directive for generated mocks, the SQL schema, and logging, which Summary does in
-- the stack of the server. Failures of the response writer and the time-outs of the contexts of the
-- handlers are left out; so is the order in which Go's `RWMutex` lets waiting goroutines in.
pub mod Base
pub mod GoMap
pub mod Entities
pub mod Storage
pub mod Models
pub mod Http
pub mod Usecases
pub mod Handlers
pub mod Middleware
pub mod Server
pub mod Staticlint
pub mod Agent
pub mod Retry
pub mod ConfigReader
pub mod Commands
pub mod Tests
