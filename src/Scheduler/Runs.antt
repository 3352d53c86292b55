-- ===== src/Scheduler/Runs.antt =====
-- Runs of the scheduler on a store in memory and on a list of jobs (cmd/scheduler).
use eve_industry_planner_sta.Prelude.{
  ℕ, suc, String, ◌≡◌, refl, Bool, true, false, List, [], ◌∷◌, Option, none, some,
}
use eve_industry_planner_sta.Prelude.Int.{pos}
use eve_industry_planner_sta.Nats.Streams.{
  ensure_streams, ConsumerConfig, get_or_create_consumer, make_room, create_in,
}
use eve_industry_planner_sta.Nats.Ensured.{Serves}
use eve_industry_planner_sta.Nats.Examples.{
  named_streams, listed_consumers, has_stream, find_consumer,
}
use eve_industry_planner_sta.Tasks.Examples.{dict_store}
use eve_industry_planner_sta.Scheduler.{JobFunc, register_handler}
use eve_industry_planner_sta.Scheduler.JobList.{job_list, cron_at-made}
use eve_industry_planner_sta.Scheduler.Cron.{new_task_scheduler, has_scheduled_job}
use eve_industry_planner_sta.Scheduler.Turns.{
  FetchedRequest, receive_request, Reach, here, later, registered, requested,
}
use eve_industry_planner_sta.Scheduler.Handles.{Sound, Reach-Sound}
use eve_industry_planner_sta.Scheduler.Registry.{
  scheduler_consumer, get_consumer, start, registry_start, schedulers,
}
use eve_industry_planner_sta.Scheduler.Shown.{registry_start-shows}
use eve_industry_planner_sta.Scheduler.Finished.{start-Serves, Finished}
use eve_industry_planner_sta.Scheduler.Examples.{marshal_millis, parse_job, Scheduler, job_a}

abbrev new : Scheduler
new =
    new_task_scheduler dict_store Bool (job_list (JobFunc Bool)) marshal_millis parse_job [] true []

abbrev request_a : FetchedRequest
request_a = record {
  request = some job_a;
  generated = none;
  received = pos 3;
  now = pos 4;
  then_now = pos 4;
}

abbrev with_handler : Scheduler
with_handler =
    register_handler dict_store Bool (job_list (JobFunc Bool)) marshal_millis parse_job
      "refreshSystemIndexes" true new

-- After a handler, a cron job and a request.
abbrev requested_a : Scheduler
requested_a =
    (receive_request dict_store Bool (job_list (JobFunc Bool)) marshal_millis parse_job request_a
      with_handler).0

Reach-a : Reach dict_store Bool (job_list (JobFunc Bool)) marshal_millis parse_job new requested_a
Reach-a = later (later here (registered "refreshSystemIndexes" true)) (requested request_a)

Reach-Sound_example : Sound (job_list (JobFunc Bool)) requested_a.jobs requested_a.one_time_jobs
Reach-Sound_example =
    Reach-Sound dict_store Bool (job_list (JobFunc Bool)) marshal_millis parse_job [] true []
      Reach-a

registry_start-shows_example :
    (has_scheduled_job dict_store Bool
        (job_list (JobFunc Bool))
        marshal_millis
        parse_job
        "refreshSystemIndexes"
        (registry_start dict_store Bool
          (job_list (JobFunc Bool))
          marshal_millis
          parse_job
          (schedulers dict_store Bool (job_list (JobFunc Bool)) marshal_millis parse_job true false)
          (pos 3)
          (λ key. (pos 4, pos 4))
          (some ("scheduler:onetime:a" ∷ []))
          new)
      ≡ true)
    × (has_scheduled_job dict_store Bool
          (job_list (JobFunc Bool))
          marshal_millis
          parse_job
          "refreshAdjustedPrices"
          (registry_start dict_store Bool
            (job_list (JobFunc Bool))
            marshal_millis
            parse_job
            (schedulers dict_store Bool
              (job_list (JobFunc Bool))
              marshal_millis
              parse_job
              true
              false)
            (pos 3)
            (λ key. (pos 4, pos 4))
            (some ("scheduler:onetime:a" ∷ []))
            new)
        ≡ true)
registry_start-shows_example =
    registry_start-shows dict_store Bool (job_list (JobFunc Bool)) marshal_millis parse_job true
      false (pos 3) (λ key. (pos 4, pos 4)) (some ("scheduler:onetime:a" ∷ [])) new
      (λ f a js. cron_at-made "*/5 * * * *" f a js)

-- Every stream can be opened and has no consumers yet.
abbrev open_empty : String → List String → Option (List ConsumerConfig)
open_empty name server = some []

started : (start named_streams listed_consumers open_empty []).1 ≡ some (scheduler_consumer ∷ [])
unfolding start ensure_streams has_stream get_consumer get_or_create_consumer make_room create_in
    find_consumer
started = refl

start-Serves_example :
    (has_stream "SCHEDULER" (start named_streams listed_consumers open_empty []).0 ≡ true)
    × Serves listed_consumers scheduler_consumer (scheduler_consumer ∷ [])
start-Serves_example =
    start-Serves named_streams listed_consumers open_empty [] (scheduler_consumer ∷ []) started

-- The handlers count their calls.
abbrev counting : Bool → String → ℕ → ℕ × Bool
counting handler payload calls = (suc calls, handler)
