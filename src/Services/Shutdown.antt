-- ===== src/Services/Shutdown.antt =====
-- What a service leaves open, and the order in which it closes (internal/shared/shutdown.go, the
-- `main` of each service).
use eve_industry_planner_sta.Prelude.{
  ℕ, ◌+◌, ◌-◌, ◌*◌, ◌≤◌, ◌==◌, ◌≡◌, refl, arith, Bool, true, false, List, [], ◌∷◌, ◌++◌, Option,
  none, some, if◌then◌else◌,
}
use eve_industry_planner_sta.Services.{
  Resource, number, Process, without, close, wait_for_shutdown, wait_for_both, run_servers,
  open_resource, run_main, worker_main, scheduler_main, api_main, goroutine_pool, job_scheduler,
  system_indexes_subscription, adjusted_prices_subscription, mongo_client, nats_connection,
  redis_client,
}

-- What the calls before the first that fails have opened; one that opens nothing has `none`.
abbrev pub acquired : List (Bool × Option Resource) → List Resource
acquired [] = []
acquired ((false, x) ∷ rest) = []
acquired ((true, none) ∷ rest) = acquired rest
acquired ((true, some x) ∷ rest) = x ∷ acquired rest

-- Each with itself and all that comes after it.
abbrev pub in_order : List Resource → List (Resource × List Resource)
in_order [] = []
in_order (x ∷ rest) = (x, x ∷ rest) ∷ in_order rest

-- A process that has closed these resources, each once, in this order.
abbrev pub all_closed : List Resource → Process
all_closed xs = record { opened = []; closed = in_order xs }

abbrev pub worker_acquires :
    (mongo nats streams redis pool system_indexes adjusted_prices : Bool) → List Resource
worker_acquires mongo nats streams redis pool system_indexes adjusted_prices = acquired (
    (mongo, some mongo_client)
    ∷ (nats, some nats_connection)
    ∷ (streams, none)
    ∷ (redis, some redis_client)
    ∷ (pool, some goroutine_pool)
    ∷ (system_indexes, some system_indexes_subscription)
    ∷ (adjusted_prices, some adjusted_prices_subscription)
    ∷ [])

abbrev pub scheduler_acquires : (mongo nats redis : Bool) → List Resource
scheduler_acquires mongo nats redis = acquired (
    (mongo, some mongo_client)
    ∷ (nats, some nats_connection)
    ∷ (redis, some redis_client)
    ∷ (true, some job_scheduler)
    ∷ [])

abbrev pub api_acquires : (redis mongo nats : Bool) → List Resource
api_acquires redis mongo nats =
    acquired
      ((redis, some redis_client) ∷ (mongo, some mongo_client) ∷ (nats, some nats_connection) ∷ [])

worker_main-closes :
    (mongo nats streams redis pool system_indexes adjusted_prices : Bool)
    → worker_main mongo nats streams redis pool system_indexes adjusted_prices
      ≡ all_closed (worker_acquires mongo nats streams redis pool system_indexes adjusted_prices)
unfolding worker_main run_main wait_for_shutdown open_resource close without number
worker_main-closes false nats streams redis pool a b = refl
worker_main-closes true false streams redis pool a b = refl
worker_main-closes true true false redis pool a b = refl
worker_main-closes true true true false pool a b = refl
worker_main-closes true true true true false a b = refl
worker_main-closes true true true true true false b = refl
worker_main-closes true true true true true true false = refl
worker_main-closes true true true true true true true = refl

scheduler_main-closes :
    (mongo nats redis : Bool)
    → scheduler_main mongo nats redis ≡ all_closed (scheduler_acquires mongo nats redis)
unfolding scheduler_main run_main wait_for_shutdown open_resource close without number
scheduler_main-closes false nats redis = refl
scheduler_main-closes true false redis = refl
scheduler_main-closes true true false = refl
scheduler_main-closes true true true = refl

api_main-closes :
    (redis mongo nats : Bool) (turns : List Bool)
    → api_main redis mongo nats true turns ≡ all_closed (api_acquires redis mongo nats)
unfolding api_main run_servers run_main wait_for_shutdown open_resource close without number
api_main-closes false mongo nats turns = refl
api_main-closes true false nats turns = refl
api_main-closes true true false turns = refl
api_main-closes true true true turns = refl

-- How often a resource stands in a list, and how often it was closed.
abbrev pub count : Resource → List Resource → ℕ
count x [] = 0
count x (y ∷ rest) = (if number y == number x then 1 else 0) + count x rest

abbrev pub times_closed : Resource → List (Resource × List Resource) → ℕ
times_closed x [] = 0
times_closed x ((y, others) ∷ rest) = (if number y == number x then 1 else 0) + times_closed x rest

times_closed-append :
    (x : Resource) (xs ys : List (Resource × List Resource))
    → times_closed x (xs ++ ys) ≡ times_closed x xs + times_closed x ys
times_closed-append x [] ys = omega arith
times_closed-append x ((y, others) ∷ xs) ys = omega (arith, times_closed-append x xs ys)

-- What closes each of the resources, in order.
closing : List Resource → List (Option (Process → Process))
closing [] = []
closing (x ∷ rest) = some (close x) ∷ closing rest

count-without :
    (x y : Resource) (xs : List Resource)
    → count x (without y xs) ≡ count x xs - (if number y == number x then 1 else 0)
unfolding without
count-without x y [] = ground arith
count-without x y (z ∷ xs) = ground (arith, count-without x y xs)

-- What a process has closed, of a resource that is open as often at most as it is still to be closed:
-- it ends closed, by each of the cleanups still to run, and perhaps by those of another goroutine.
record Closes (x : Resource) (xs ys : List Resource) (p q : Process) : Type 0 where
  none_open : count x q.opened ≡ 0
  at_least : times_closed x p.closed + count x xs ≤ times_closed x q.closed
  at_most : times_closed x q.closed ≤ times_closed x p.closed + count x xs + count x ys

close-times :
    (x y : Resource) (p : Process)
    → times_closed x (close y p).closed
      ≡ times_closed x p.closed + (if number y == number x then 1 else 0)
unfolding close
close-times x y p = ground (arith, times_closed-append x p.closed ((y, p.opened) ∷ []))

close-count :
    (x y : Resource) (p : Process)
    → count x (close y p).opened ≡ count x p.opened - (if number y == number x then 1 else 0)
unfolding close
close-count x y p = count-without x y p.opened

wait_for_shutdown-Closes :
    (x : Resource) (xs : List Resource) (p : Process)
    → count x p.opened ≤ count x xs
    → Closes x xs [] p (wait_for_shutdown (closing xs) p)
unfolding wait_for_shutdown closing
wait_for_shutdown-Closes x [] p h = record {
  none_open = omega (arith, h);
  at_least = omega arith;
  at_most = omega arith;
}
wait_for_shutdown-Closes x (y ∷ xs) p h =
    let rest = wait_for_shutdown-Closes x xs (close y p) (ground (arith, h, close-count x y p)) in
    record {
      none_open = rest.none_open;
      at_least = ground (arith, rest.at_least, close-times x y p);
      at_most = ground (arith, rest.at_most, close-times x y p);
    }

wait_for_both-Closes :
    (x : Resource) (turns : List Bool) (xs ys : List Resource) (p : Process)
    → count x p.opened ≤ count x xs
    → Closes x xs ys p (wait_for_both turns (closing xs) (closing ys) p)
unfolding wait_for_both closing
wait_for_both-Closes x [] xs ys p h =
    let rest = wait_for_shutdown-Closes x xs p h in
    record {
      none_open = rest.none_open;
      at_least = rest.at_least;
      at_most = omega (arith, rest.at_most);
    }
wait_for_both-Closes x (turn ∷ turns) [] ys p h = record {
  none_open = omega (arith, h);
  at_least = omega arith;
  at_most = omega arith;
}
wait_for_both-Closes x (true ∷ turns) (y ∷ xs) ys p h =
    let rest =
      wait_for_both-Closes x turns xs ys (close y p) (ground (arith, h, close-count x y p)) in
    record {
      none_open = rest.none_open;
      at_least = ground (arith, rest.at_least, close-times x y p);
      at_most = ground (arith, rest.at_most, close-times x y p);
    }
wait_for_both-Closes x (false ∷ turns) (y ∷ xs) [] p h =
    wait_for_both-Closes x turns (y ∷ xs) [] p h
wait_for_both-Closes x (false ∷ turns) (y ∷ xs) (z ∷ ys) p h =
    let rest =
      wait_for_both-Closes x turns (y ∷ xs) ys (close z p) (ground (arith, h, close-count x z p)) in
    record {
      none_open = rest.none_open;
      at_least = ground (arith, rest.at_least, close-times x z p);
      at_most = ground (arith, rest.at_most, close-times x z p);
    }

-- Each resource that was acquired is closed in the end, once or twice.
abbrev pub ClosedTwiceAtMost : List Resource → Process → Type 0
ClosedTwiceAtMost xs p =
    (x : Resource)
    → (count x p.opened ≡ 0)
      × (count x xs ≤ times_closed x p.closed)
      × (times_closed x p.closed ≤ 2 * count x xs)

all_closed-once : (xs : List Resource) → ClosedTwiceAtMost xs (all_closed xs)
all_closed-once [] x = (refl, omega arith, omega arith)
all_closed-once (y ∷ xs) x = ground (arith, all_closed-once xs x)

wait_for_both-twice :
    (turns : List Bool) (xs : List Resource)
    → ClosedTwiceAtMost xs
        (wait_for_both turns (closing xs) (closing xs) (record { opened = xs; closed = [] }))
wait_for_both-twice turns xs x =
    let done =
      wait_for_both-Closes x turns xs xs (record { opened = xs; closed = [] }) (omega arith) in
    (done.none_open, omega (arith, done.at_least), omega (arith, done.at_most))

api_main-ClosedTwiceAtMost :
    (redis mongo nats : Bool) (turns : List Bool)
    → ClosedTwiceAtMost (api_acquires redis mongo nats) (api_main redis mongo nats false turns)
unfolding api_main run_servers run_main wait_for_shutdown open_resource close without number closing
api_main-ClosedTwiceAtMost false mongo nats turns = all_closed-once []
api_main-ClosedTwiceAtMost true false nats turns = all_closed-once (redis_client ∷ [])
api_main-ClosedTwiceAtMost true true false turns =
    all_closed-once (redis_client ∷ mongo_client ∷ [])
api_main-ClosedTwiceAtMost true true true turns =
    wait_for_both-twice turns (redis_client ∷ mongo_client ∷ nats_connection ∷ [])

-- Whatever the outcomes of the calls of its start, the worker and the scheduler close all that they
-- have opened, each once, in the order in which it was opened: when one is closed, all that were opened
-- after it are still open. So does the API if its server goes on until the shutdown. If its server
-- fails, the API still closes all that it has opened, but each once or twice, however the cleanups of
-- its two goroutines take turns.
pub mains_close :
    (mongo nats streams redis pool system_indexes adjusted_prices : Bool) (turns : List Bool)
    → (worker_main mongo nats streams redis pool system_indexes adjusted_prices
        ≡ all_closed (worker_acquires mongo nats streams redis pool system_indexes adjusted_prices))
      × (scheduler_main mongo nats redis ≡ all_closed (scheduler_acquires mongo nats redis))
      × (api_main redis mongo nats true turns ≡ all_closed (api_acquires redis mongo nats))
      × ClosedTwiceAtMost (api_acquires redis mongo nats) (api_main redis mongo nats false turns)
mains_close mongo nats streams redis pool system_indexes adjusted_prices turns = (
  worker_main-closes mongo nats streams redis pool system_indexes adjusted_prices,
  scheduler_main-closes mongo nats redis,
  api_main-closes redis mongo nats turns,
  api_main-ClosedTwiceAtMost redis mongo nats turns,
)

-- What was open when a resource was closed.
abbrev pub open_at : Resource → List (Resource × List Resource) → Option (List Resource)
open_at x [] = none
open_at x ((y, others) ∷ rest) =
    let later = open_at x rest in if number y == number x then some others else later

-- When a worker that had opened its goroutine pool waits for the tasks in it, its clients of MongoDB
-- and Redis and its connection to NATS are already closed, whether it was fully started or not.
pub worker_main-pool_last :
    (system_indexes adjusted_prices : Bool)
    → (others : List Resource) × (open_at goroutine_pool
          (worker_main true true true true true system_indexes adjusted_prices).closed
        ≡ some others)
      × (without nats_connection others ≡ others)
      × (without redis_client others ≡ others)
      × (without mongo_client others ≡ others)
unfolding worker_main number without run_main wait_for_shutdown open_resource close
worker_main-pool_last true true = (
  goroutine_pool ∷ system_indexes_subscription ∷ adjusted_prices_subscription ∷ [],
  refl,
  refl,
  refl,
  refl,
)
worker_main-pool_last true false =
    (goroutine_pool ∷ system_indexes_subscription ∷ [], refl, refl, refl, refl)
worker_main-pool_last false b = (goroutine_pool ∷ [], refl, refl, refl, refl)
