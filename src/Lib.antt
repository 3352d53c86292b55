-- ===== src/Lib.antt =====
-- Eve Industry Planner: a verification library of the Go backend.
--
-- The program. Workers fetch public data from EVE's API (ESI) and store it in Redis. A scheduler
-- service triggers the fetches, by cron and by one-time jobs that other services request; the
-- triggers go over NATS JetStream, and a worker acknowledges, delays or gives back each message.
-- All requests to ESI pass through one client per process, which keeps a token bucket for each
-- rate limit group. An HTTP service answers queries from what Redis holds.
--
-- Which file models what (paths from the root of the repository):
-- - Esi: `ESIClient` of internal/core/esi/rate_limited_client.go. Bucket is `GroupLimiter` with
--   `cleanupOldConsumptions` and `canMakeRequest`; Client is the state of `ESIClient` and its
--   registry of limiters; Feedback is `updateFromHeaders`; Request is `DoRequest` and the
--   test mode, and Request/Reading is `Do`, which repeats the text of `DoRequest` in the source and
--   has definitions of its own here. The limiters are shared by pointer: the state holds a store of
--   limiters, and a pointer is a position in it. Threads cuts a call into turns, which those of
--   several callers take in any order.
-- - Nats: internal/core/nats/nats.go, `Connect` and `NackWithBackoff`, of which
--   internal/core/redis/redis.go and internal/core/mongo/mongo.go repeat the loop, and in
--   Nats/Streams internal/core/nats/jetstream.go, over a server that is a record of its calls and
--   their documented laws.
-- - Redis: internal/core/redis/redis.go over a client whose commands and their documented laws
--   are a record, so that a client and a store are given to the functions that use them.
-- - Tasks: internal/tasks/esi. Stream is `StreamIndustrySystems` and `StreamAdjustedPrices`,
--   Refresh is `RefreshSystemIndexes` and `RefreshAdjustedPrices`; the code repeats itself in the
--   two files, and one definition stands for both, with what differs in a record `Task`, of which
--   Items has the two values. A refresh goes through `do_request` of Esi, the commands of Redis
--   and the settling calls of Nats.
-- - Worker: cmd/worker. A state holds the batch that was fetched, the messages whose tasks are in
--   the goroutine pool, and what was said of each message; Loop is the relation of its turns,
--   Refreshing puts the refreshes of Tasks in, and Subscribe is `SubscribeToSubject` up to its
--   loop.
-- - Scheduler: the one-time jobs of cmd/scheduler/handler.go, in Scheduler/Cron the cron jobs and
--   the functions that gocron calls, in Scheduler/Registry `Start` and cmd/scheduler/registry.go,
--   and in Scheduler/Turns the relation of what happens to a scheduler, one after another;
--   Scheduler/Client is internal/scheduler/client.go and the handlers of cmd/scheduler/esi.
--   `process_schedule_request` is `processScheduleRequest`, `schedule_one_time_job` is
--   `ScheduleOneTimeJob`, and `restore_one_time_jobs` is `RestoreOneTimeJobs`. gocron is a record
--   of what is used of it, as Redis is, and holds the function of each job with what it captures,
--   which `run_job` runs; the JSON format of a job is two functions. Its instants
--   are nanoseconds since the Unix epoch.
-- - Api: `SystemIndexesHandler` of cmd/api/v1endpoints/systemIndex.go with its validation of ids,
--   and the readers of internal/core/redis/redis.go that it calls, whose reads may fail, alike for
--   each read of a key in one request. Api/Middleware is cmd/api/middleware/types.go.
-- - Auth: internal/core/auth/auth.go and internal/core/config/config.go, over the JWT library as
--   a record.
-- - Services: the `main` of the worker, the scheduler and the API, as lists of their statements,
--   and internal/shared/shutdown.go. The API's two calls of `WaitForShutdown`, when its server
--   fails, take turns.
-- - Legacy: `FetchAllPages` of legacy/shared/requests/requests.go, and in Legacy/Ids `ExtractIDs`
--   of legacy/apiServer/util/util.go.
-- - Prelude: shared names, Boolean tests, integers (Int), Go's 64-bit integers (Word), Go's maps
--   with string keys (Dict), and the operations of `strings` and `strconv` in use (Text,
--   Decimal).
--
-- How it is modelled. An instant is an integer, nanoseconds since Go's zero time; a duration is
-- an integer of nanoseconds. Every reading of the clock is an argument of its own, so nothing is
-- assumed of how far two readings lie apart. `int` and `int64` arithmetic wraps at 64 bits. Sums
-- of instants and durations do not wrap, since they stand for Go's `time.Time`, which has room
-- for them. What the code takes from outside (the result of `rate.Limiter.Wait`, of the HTTP
-- exchange, of reading a body) is an event that the caller of the model supplies. What `json` and
-- `gzip` make of a body is a list of decoded items and how it ends. Loops are recursions on
-- lists, and the request loop of a refresh on the number of attempts left. Two loops have fuel:
-- that of `Connect` has 6, more than its counter can grow to, and that of `FetchAllPages` the
-- number of requests that it may make; a run that needs more is told from one that returns and
-- from one that blocks, and the theorems hold for any fuel from the number of requests on that
-- they name. No other process writes to Redis while a refresh runs, and the expiry of the lock is
-- not modelled. Log lines, metrics, and the floating point settings that are only handed to
-- `rate.Limiter` are not modelled. A task of the worker and a turn of the scheduler are each one
-- step, between which they keep no state but the shared one, so what two of them do at the same
-- moment is not modelled. The servers of the API, the push and websocket services, the cache
-- headers, and the rest of the legacy backend are not modelled.
pub mod Prelude
pub mod Esi
pub mod Nats
pub mod Redis
pub mod Tasks
pub mod Worker
pub mod Scheduler
pub mod Auth
pub mod Api
pub mod Services
pub mod Legacy
