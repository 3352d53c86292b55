-- ===== src/Scheduler/EndToEnd.antt =====
-- From a request that is published to the message for the worker (internal/scheduler/client.go,
-- cmd/scheduler, cmd/worker/esiSubscribers.go).
use eve_industry_planner_sta.Prelude.{String, ◌≡◌, true, [], ◌∷◌, ◌++◌, Option, some}
use eve_industry_planner_sta.Prelude.Int.{ℤ}
use eve_industry_planner_sta.Redis.{Redis}
use eve_industry_planner_sta.Scheduler.{JobFunc, OneTimeJob, ScheduleRequest, State}
use eve_industry_planner_sta.Scheduler.Library.{Gocron}
use eve_industry_planner_sta.Scheduler.Client.{
  Publisher, Trigger, system_indexes_trigger, adjusted_prices_trigger, trigger,
}
use eve_industry_planner_sta.Scheduler.Cron.{run_job}
use eve_industry_planner_sta.Scheduler.Requests.{Tracked}
use eve_industry_planner_sta.Scheduler.Turns.{FetchedRequest}
use eve_industry_planner_sta.Worker.Subscribe.{
  SubscriberConfig, system_indexes_subscriber, adjusted_prices_subscriber,
}

-- The subscription of the worker for a refresh, and its task type.
abbrev pub subscriber_of : Trigger → SubscriberConfig
subscriber_of system_indexes_trigger = system_indexes_subscriber
subscriber_of adjusted_prices_trigger = adjusted_prices_subscriber

module _ (p : Publisher) (marshal : ScheduleRequest → Option String)
    (unmarshal : String → Option ScheduleRequest) where
  open p use {Broker, messages, publish}

  -- What another service asks for: a refresh, without an id of its own and without data.
  abbrev pub refresh_request : Trigger → ℤ → ScheduleRequest
  refresh_request t run_at = record {
    job_id = "";
    task_type = (subscriber_of t).subject;
    run_at = run_at;
    payload = "";
  }

  module _ (r : Redis) (g : Gocron (JobFunc Trigger)) (store_marshal : OneTimeJob → Option String)
      (store_unmarshal : String → Option OneTimeJob) where
    -- The request as it is fetched, and the job that is made of it.
    abbrev pub fetched : String → String → ℤ → ℤ → ℤ → FetchedRequest
    fetched text job_id received now then_now = record {
      request = unmarshal text;
      generated = some job_id;
      received = received;
      now = now;
      then_now = then_now;
    }

    abbrev pub job_of : Trigger → ℤ → String → OneTimeJob
    job_of t run_at job_id = record (refresh_request t run_at) { job_id = job_id }

    open g use {task}

    -- An id that is tracked, and what comes of its job when gocron runs it.
    abbrev Triggers : Trigger → String → State r Trigger g store_marshal store_unmarshal → Type 0
    Triggers t job_id s =
        (tracked : Tracked r Trigger g store_marshal store_unmarshal job_id s) × ((later : State r
              Trigger g store_marshal store_unmarshal)
            (b : Broker)
          → task tracked.handle later.jobs ≡ task tracked.handle s.jobs
          → (trigger p marshal t "" b).1 ≡ true
          → messages (subscriber_of t).subject
              (run_job r Trigger g store_marshal store_unmarshal (trigger p marshal) tracked.handle
                (later, b)).1
            ≡ messages (subscriber_of t).subject b ++ "{}" ∷ [])
