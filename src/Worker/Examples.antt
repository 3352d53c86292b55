-- ===== src/Worker/Examples.antt =====
-- A worker of price refreshes on a store in memory (cmd/worker/subscriber.go).
use eve_industry_planner_sta.Prelude.{◌≡◌, refl, arith, true, false, [], ◌∷◌, none, some}
use eve_industry_planner_sta.Esi.Examples.Calls.{start}
use eve_industry_planner_sta.Esi.Request.{responded}
use eve_industry_planner_sta.Tasks.Examples.{
  dict_store, prices_task, ok_response, run as prices_run,
}
use eve_industry_planner_sta.Worker.{
  Delivery, num_delivered, Ran, Worker, take_message, complete, idle,
}
use eve_industry_planner_sta.Worker.Loop.{fetch, take, run, Reach, here, later}
use eve_industry_planner_sta.Worker.Fates.{Fate}
use eve_industry_planner_sta.Nats.Streams.{get_or_create_consumer, make_room, create_in}
use eve_industry_planner_sta.Nats.Ensured.{Serves}
use eve_industry_planner_sta.Nats.Examples.{listed_consumers, find_consumer}
use eve_industry_planner_sta.Worker.Subscribe.{
  consumer_config, system_indexes_subscriber, adjusted_prices_subscriber, subscribe_to_subject,
  subscribe_system_indexes, subscribe_adjusted_prices, both-Serve,
}
use eve_industry_planner_sta.Worker.Refreshing.{
  Shared, refreshed, Refreshes, Refreshes-settles, refreshing-Fate,
}

abbrev first : Delivery
first = record { id = 7; metadata = some 1; accepted = true }

abbrev second : Delivery
second = record { id = 8; metadata = none; accepted = false }

abbrev fetched_two : Worker (Shared dict_store prices_task)
fetched_two = record (idle (start, [])) { batch = first ∷ second ∷ [] }

abbrev took_both : Worker (Shared dict_store prices_task)
took_both = take_message second [] (take_message first (second ∷ []) fetched_two)

abbrev first_ran : Ran (Shared dict_store prices_task)
first_ran = refreshed dict_store prices_task (prices_run (responded ok_response)) 1 (start, [])

-- Both messages are fetched and taken, the pool refuses the second, and the first is refreshed.
done_both :
    Reach
      (Refreshes dict_store prices_task)
      (idle (start, []))
      (first ∷ second ∷ [])
      (complete first first_ran [] took_both)
unfolding take_message num_delivered
done_both =
    later
      (later
        (later (later here (fetch (first ∷ second ∷ []) refl refl (omega arith)) refl)
          (take first (second ∷ []) refl) refl)
        (take second [] refl) refl)
      (run [] first [] first_ran refl (prices_run (responded ok_response), refl)) refl

refreshing-Fate_example :
    Fate
      (Refreshes dict_store prices_task)
      2
      (omega arith)
      (Refreshes-settles dict_store prices_task)
      8
      (first ∷ second ∷ [])
      (complete first first_ran [] took_both)
refreshing-Fate_example = refreshing-Fate dict_store prices_task 8 (start, []) done_both

system_subscribed :
    subscribe_system_indexes listed_consumers (some [])
    ≡ some (consumer_config system_indexes_subscriber ∷ [])
unfolding subscribe_system_indexes subscribe_to_subject get_or_create_consumer find_consumer
    make_room create_in
system_subscribed = refl

prices_subscribed :
    subscribe_adjusted_prices listed_consumers
      (some (consumer_config system_indexes_subscriber ∷ []))
    ≡ some (
        consumer_config adjusted_prices_subscriber ∷ consumer_config system_indexes_subscriber ∷ [])
unfolding subscribe_adjusted_prices subscribe_to_subject get_or_create_consumer find_consumer
    make_room create_in consumer_config
prices_subscribed = refl

both-Serve_example :
    Serves listed_consumers
      (consumer_config system_indexes_subscriber)
      (consumer_config adjusted_prices_subscriber ∷ consumer_config system_indexes_subscriber ∷ [])
    × Serves listed_consumers (consumer_config adjusted_prices_subscriber) (
        consumer_config adjusted_prices_subscriber ∷ consumer_config system_indexes_subscriber ∷ [])
both-Serve_example =
    both-Serve listed_consumers [] (consumer_config system_indexes_subscriber ∷ [])
      (consumer_config adjusted_prices_subscriber ∷ consumer_config system_indexes_subscriber ∷ [])
      system_subscribed prices_subscribed
