-- ===== src/Services.antt =====
-- The start and the shutdown of the services (cmd/worker/main.go, cmd/scheduler/main.go,
-- cmd/api/main.go, internal/shared/shutdown.go). What a call of a start does is told by whether it
-- succeeds; the cleanups act on the list of what is open.
pub mod Shutdown
mod Examples
use eve_industry_planner_sta.Prelude.{
  ℕ, ◌==◌, Bool, true, false, List, [], ◌∷◌, ◌++◌, Option, none, some, if◌then◌else◌,
}

-- What the services hold while they run.
pub data Resource : Type 0 where
  mongo_client nats_connection redis_client goroutine_pool : Resource
  system_indexes_subscription adjusted_prices_subscription job_scheduler : Resource

-- The number of a resource, to tell them apart.
unfoldable pub number : Resource → ℕ
number mongo_client = 0
number nats_connection = 1
number redis_client = 2
number goroutine_pool = 3
number system_indexes_subscription = 4
number adjusted_prices_subscription = 5
number job_scheduler = 6

-- The resources that are open, the first opened first, and those that were closed, in this order, each
-- with all that was open when it was closed, itself included.
pub record Process : Type 0 where
  pub opened : List Resource
  pub closed : List (Resource × List Resource)

abbrev pub fresh : Process
fresh = record { opened = []; closed = [] }

unfoldable pub without : Resource → List Resource → List Resource
unfolding number
without x [] = []
without x (y ∷ rest) =
    let later = without x rest in if number y == number x then rest else y ∷ later

unfoldable pub close : Resource → Process → Process
unfolding without
close x p = record { opened = without x p.opened; closed = p.closed ++ (x, p.opened) ∷ [] }

-- `WaitForShutdown` after the cancellation: the cleanups that are not nil, in order.
unfoldable pub wait_for_shutdown : List (Option (Process → Process)) → Process → Process
wait_for_shutdown [] p = p
wait_for_shutdown (none ∷ rest) p = wait_for_shutdown rest p
wait_for_shutdown (some cleanup ∷ rest) p = wait_for_shutdown rest (cleanup p)

-- The statements of a `main`. A call that opens a resource or is only checked for its error tells
-- whether it succeeds; the cleanup of a resource is appended by a statement of its own.
pub data Statement : Type 0 where
  acquire : Resource → Bool → Statement
  ensure : Bool → Statement
  append_cleanup : Resource → Statement

unfoldable pub open_resource : Resource → Process → Process
open_resource x p = record p { opened = p.opened ++ x ∷ [] }

-- A `main`: after a call that fails, the cancellation, the shutdown and the return; after the last
-- statement, what it ends with, on the cleanups that were appended.
unfoldable pub run_main :
    (List (Option (Process → Process)) → Process → Process)
    → List Statement
    → List (Option (Process → Process))
    → Process
    → Process
unfolding open_resource wait_for_shutdown
run_main ending [] cleanups p = ending cleanups p
run_main ending (acquire x succeeds ∷ rest) cleanups p =
    let later = run_main ending rest cleanups (open_resource x p) in
    if succeeds then later else wait_for_shutdown cleanups p
run_main ending (ensure succeeds ∷ rest) cleanups p =
    let later = run_main ending rest cleanups p in
    if succeeds then later else wait_for_shutdown cleanups p
run_main ending (append_cleanup x ∷ rest) cleanups p =
    run_main ending rest (cleanups ++ some (close x) ∷ []) p

unfoldable pub worker_main :
    (mongo nats streams redis pool system_indexes adjusted_prices : Bool) → Process
unfolding run_main
worker_main mongo nats streams redis pool system_indexes adjusted_prices =
    run_main wait_for_shutdown
      (acquire mongo_client mongo
        ∷ append_cleanup mongo_client
        ∷ acquire nats_connection nats
        ∷ append_cleanup nats_connection
        ∷ ensure streams
        ∷ acquire redis_client redis
        ∷ append_cleanup redis_client
        ∷ acquire goroutine_pool pool
        ∷ append_cleanup goroutine_pool
        ∷ acquire system_indexes_subscription system_indexes
        ∷ append_cleanup system_indexes_subscription
        ∷ acquire adjusted_prices_subscription adjusted_prices
        ∷ append_cleanup adjusted_prices_subscription
        ∷ [])
      [] fresh

-- A registry that fails to start is stopped at the shutdown all the same.
unfoldable pub scheduler_main : (mongo nats redis : Bool) → Process
unfolding run_main
scheduler_main mongo nats redis =
    run_main wait_for_shutdown
      (acquire mongo_client mongo
        ∷ append_cleanup mongo_client
        ∷ acquire nats_connection nats
        ∷ append_cleanup nats_connection
        ∷ acquire redis_client redis
        ∷ append_cleanup redis_client
        ∷ acquire job_scheduler true
        ∷ append_cleanup job_scheduler
        ∷ [])
      [] fresh

-- Two calls of `WaitForShutdown`, that of `main` and that of the goroutine of a server that failed.
-- `turns` tells whose cleanup runs next: `true` is that of `main`, with which the process ends.
unfoldable pub wait_for_both :
    List Bool
    → List (Option (Process → Process))
    → List (Option (Process → Process))
    → Process
    → Process
unfolding wait_for_shutdown
wait_for_both [] cleanups others p = wait_for_shutdown cleanups p
wait_for_both (turn ∷ rest) [] others p = p
wait_for_both (true ∷ rest) (none ∷ cleanups) others p = wait_for_both rest cleanups others p
wait_for_both (true ∷ rest) (some f ∷ cleanups) others p = wait_for_both rest cleanups others (f p)
wait_for_both (false ∷ rest) (cleanup ∷ cleanups) [] p =
    wait_for_both rest (cleanup ∷ cleanups) [] p
wait_for_both (false ∷ rest) (cleanup ∷ cleanups) (none ∷ others) p =
    wait_for_both rest (cleanup ∷ cleanups) others p
wait_for_both (false ∷ rest) (cleanup ∷ cleanups) (some f ∷ others) p =
    wait_for_both rest (cleanup ∷ cleanups) others (f p)

-- The end of the API's `main`, by whether its server goes on until the shutdown.
unfoldable pub run_servers :
    Bool → List Bool → List (Option (Process → Process)) → Process → Process
unfolding wait_for_both
run_servers true turns cleanups p = wait_for_shutdown cleanups p
run_servers false turns cleanups p = wait_for_both turns cleanups cleanups p

unfoldable pub api_main : (redis mongo nats server : Bool) → List Bool → Process
unfolding run_main run_servers
api_main redis mongo nats server turns =
    run_main (run_servers server turns)
      (acquire redis_client redis
        ∷ append_cleanup redis_client
        ∷ acquire mongo_client mongo
        ∷ append_cleanup mongo_client
        ∷ acquire nats_connection nats
        ∷ append_cleanup nats_connection
        ∷ [])
      [] fresh
