-- ===== src/Services/Examples.antt =====
-- Services that start and shut down (the `main` of each service).
use eve_industry_planner_sta.Prelude.{◌≡◌, refl, true, false, [], ◌∷◌}
use eve_industry_planner_sta.Services.{
  worker_main, scheduler_main, api_main, run_servers, run_main, wait_for_shutdown, wait_for_both,
  open_resource, close, without, number, redis_client, mongo_client, nats_connection,
}
use eve_industry_planner_sta.Services.Shutdown.{
  all_closed, worker_acquires, scheduler_acquires, api_acquires, ClosedTwiceAtMost, mains_close,
}

-- No Redis, and turns that alternate.
mains_close_example :
    (worker_main true true true false true true true
      ≡ all_closed (worker_acquires true true true false true true true))
    × (scheduler_main true true false ≡ all_closed (scheduler_acquires true true false))
    × (api_main false true true true (true ∷ false ∷ [])
        ≡ all_closed (api_acquires false true true))
    × ClosedTwiceAtMost
        (api_acquires false true true)
        (api_main false true true false (true ∷ false ∷ []))
mains_close_example = mains_close true true true false true true true (true ∷ false ∷ [])

-- An API whose server fails closes its client of Redis twice.
closed_twice : api_main true true true false (false ∷ []) ≡ record {
  opened = [];
  closed =
      (redis_client, redis_client ∷ mongo_client ∷ nats_connection ∷ [])
      ∷ (redis_client, mongo_client ∷ nats_connection ∷ [])
      ∷ (mongo_client, mongo_client ∷ nats_connection ∷ [])
      ∷ (nats_connection, nats_connection ∷ [])
      ∷ [];
}
unfolding api_main run_servers run_main wait_for_shutdown wait_for_both open_resource close without
    number
closed_twice = refl
