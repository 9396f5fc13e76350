-- ===== src/Lib.antt =====
-- gua is a job scheduler over Postgres. Clients register groups and push jobs over HTTP or gRPC. Each job
-- has a definition in the table gua_jobs and, while it is active, one pending occurrence in the table
-- river_job of the queue River. River runs an occurrence at its time: the worker loads the definition,
-- delivers an envelope to the job's target, records the attempt, and then drops a job that fires once,
-- or schedules the next occurrence at the time that the job's interval pattern gives. River retries a
-- delivery that failed; after the last attempt the worker pauses the job.
--
-- Base: helpers (lists, texts, results, integers over the native numbers) and, in Base/Strings, the
-- functions of Go's package strings and strconv.Atoi that the parser calls.
--
-- Cron: delayquene/parser.go and delayquene/spec.go.
--   Cron/Bits: bits of a number. Cron/Calendar: the part of time.Time that Next uses, as a record of
--   year to nanosecond in one zone without clock changes; Order compares times, Count counts seconds.
--   Cron/Field: bounds and their tables, getField, getRange, getBits, parseIntOrName, mustParseInt, all.
--   Cron/Next: SpecSchedule.Next and dayMatches. The five loops have one shape, `scan`, and `goto WRAP` is
--   its result `wrapped`; OneLoop to First lead from the loops to Next.
--   Cron/Parser: ParseOption, NewParser, Parser.Parse, expandFields, parseDescriptor, Parse, Every and
--   ConstantDelaySchedule.Next. time.ParseDuration is the parameter parse_duration.
--   Field/Printed and Parser/Printed print fields and patterns, to be read again; Cron/Fires goes from a
--   pattern's text to its activations.
--
-- Queue: delayquene/types.go and delayquene/riverquene.go, and the record Job of proto/job.pb.go.
--   Queue/Types: errors by kind, validation, the value types. Queue/Config: RiverConfig, the defaults of
--   NewRiver, the timeout of deliver. Queue/Validate: the checks of Push.
--   Queue/Store: the tables; River's InsertTx is the parameter Insert, with the law IsInsert.
--   Queue/Monad: statements that may fail (World.faults says which) and transactions with rollback.
--   Queue/Admin: Push, Edit, Active, Pause, Delete, DeleteJobs, RegisterGroup, RemoveGroup, each with its SQL
--   as functions on the tables. Effects and Errors say what they do to them.
--   Queue/Counts and Queue/Invariant: the invariant of the tables and its preservation.
--   Queue/Ids: genID, from the bytes that crypto/rand reads.
--   Queue/Requests: the mutating part of the interface Quene.
--   Queue/Spec: that part as an abstract scheduler, a map from ids to definitions and a set of groups;
--   Handled and Accepts relate the two.
--   Queue/Reads: List, ExistsGroup, GroupInfo, QueryGroups, Stats and History; Snapshot counts what Stats reports.
--   Queue/Worker: guaDeliverWorker.Work with loadJob, deliver, recordExecution and scheduleNext, and
--   pruneWorker.Work. The answers of the consumers are the parameter Transport, the clock is Clock. Fates and
--   Complete say what a run makes of the definition, Stranded what a refused insertion leaves.
--
-- Http: httpv1/spec.go, httpv1/http.go and the router of cmd.go.
--   Http/Types: bodies of requests and responses, WriteJSON, writeErr and readJSON. Http/Handlers: one
--   handler of httpv1/http.go each; it calls Queue/Admin or Queue/Reads and answers. What encoding/json
--   makes of a body is the record Json. Http/Router: buildRouter of cmd.go as a table of routes, with
--   Healthz and Readyz, and the choice that net/http makes among them; Safety and Serve relate the calls
--   to Queue/Requests, and Reached lists the endpoints by method and path, beside the routes.
--
-- Grpc: grpc.go, the same administration over gRPC. Grpc/Urls is about the request URLs, which Queue/Types
--   checks; Grpc/Mirror relates the calls to Queue/Requests and to those over HTTP.
--
-- HttpClient: internal/httpclient/httpclient.go, New as the settings of its client, and PostRaw.
--
-- Server: the environment that logging.go and cmdriver.go read, and what it sets.
--   Server/Startup: NewRiver, migrate and Close of delayquene/riverquene.go as calls of libraries, each of
--   which may fail (Process.faults says which) and is logged; Balance counts the calls.
--   Server/Process: startRiver of cmdriver.go over these, with its exits, and its shutdown with its deadlines in
--   seconds. The close of the pool of the database waits for its connections without a deadline; how long is
--   a parameter.
--
-- Demo: example/app/main.go, a backend that schedules jobs in gua and shows a browser what fires.
--   Demo/Broker: broker and handleEvents, as steps of goroutines on the channels; a panic is `none`.
--   Streams relates one stream to what its browser is meant to get, and Hub all of them over any events.
--   Demo/Schedule: handleSchedule, handleHook and ensureGroup; Decoded is what the tags of httpv1/spec.go read
--   of the demo's objects; Stored puts handleSchedule in front of Http,
--   Fired puts Queue/Worker in front of handleHook.
--
-- System: requests and runs that interleave. A run takes the steps of `Work` one by one; its row stands
--   with the run, since the statements of requests touch only rows that wait. River starts a run, drops
--   or retries what it returned, and gives up on a run whose process died; it may do so at any time.
--   System/Served and System/Flights: the tables under requests and under steps. System/Runs, Progress and
--   Deliveries: sequences of events.
--
-- Pool: delayquene/grpcpool.go, the pool of gRPC connections; a section under its lock is one step.
--
-- Bounds and fuel: bit sets are 64 bits wide, integers parsed by Atoi and durations are int64 with
-- wrap-around. The loops of Next have as much fuel as their field has values, and the search has as much
-- as there are seconds up to the end of the year limit; a search without an end would give a value that is
-- no time, and none is without an end.
--
-- Not modelled: main.go and ui.go, which are flags of the command line and an embedded page; the
-- goroutines that serve in cmdriver.go; the start of the demo's server; the
-- libraries River, Postgres, resty, gRPC and net/http, beyond what is said above; daylight saving time;
-- two processes that run the same occurrence; the texts of errors.
pub mod Base
pub mod Cron
pub mod Pool
pub mod Queue
pub mod Http
pub mod Grpc
pub mod System
pub mod Server
pub mod HttpClient
pub mod Demo
