-- ===== src/Scheduler/Client.antt =====
-- What other services publish for the scheduler, and what the scheduler publishes for the worker
-- (internal/scheduler/client.go, cmd/scheduler/esi). JSON is one function for each type, and the server
-- a record of `Publish` with what its documentation says of it.
use eve_industry_planner_sta.Prelude.{
  ◌≡◌, String, Bool, true, false, List, [], ◌∷◌, ◌++◌, Option, none, some,
}
use eve_industry_planner_sta.Prelude.Int.{ℤ}
use eve_industry_planner_sta.Scheduler.{ScheduleRequest}

-- The messages of a subject, the oldest first: one that was published without error is the last.
pub record Publisher : Type 1 where
  pub Broker : Type 0
  pub messages : String → Broker → List String
  pub publish : String → String → Broker → Broker × Bool
  pub messages-publish :
      (subject text : String) (b : Broker)
      → (publish subject text b).1 ≡ true
      → messages subject (publish subject text b).0 ≡ messages subject b ++ text ∷ []

pub record TaskMessage : Type 0 where
  pub task_type : String
  pub payload : String

-- The handlers that the two refreshes register, by their refresh.
pub data Trigger : Type 0 where
  system_indexes_trigger adjusted_prices_trigger : Trigger

module _ (p : Publisher) (marshal : ScheduleRequest → Option String) where
  open p use {Broker, publish}

  -- Nothing is published of a value that `json.Marshal` fails on.
  unfoldable pub publish_text : String → Option String → Broker → Broker × Bool
  publish_text subject none b = (b, false)
  publish_text subject (some text) b = publish subject text b

  unfoldable pub publish_schedule_request : ScheduleRequest → Broker → Broker × Bool
  unfolding publish_text
  publish_schedule_request req b = publish_text "scheduler:schedule" (marshal req) b

  -- The data: `none` for nil, or what `json.Marshal` makes of it.
  unfoldable pub publish_schedule_request_with_data :
      String → ℤ → Option (Option String) → Broker → Broker × Bool
  unfolding publish_schedule_request
  publish_schedule_request_with_data task_type run_at (some none) b = (b, false)
  publish_schedule_request_with_data task_type run_at none b =
      publish_schedule_request
        (record { job_id = ""; task_type = task_type; run_at = run_at; payload = "" }) b
  publish_schedule_request_with_data task_type run_at (some (some raw)) b =
      publish_schedule_request
        (record { job_id = ""; task_type = task_type; run_at = run_at; payload = raw }) b

  -- The JSON of a value without fields.
  unfoldable pub publish_empty_message : String → Broker → Broker × Bool
  publish_empty_message subject b = publish subject "{}" b

  unfoldable pub publish_task_message :
      (TaskMessage → Option String)
      → String
      → String
      → Option (Option String)
      → Broker
      → Broker × Bool
  unfolding publish_text
  publish_task_message marshal_task subject task_type (some none) b = (b, false)
  publish_task_message marshal_task subject task_type none b =
      publish_text subject (marshal_task (record { task_type = task_type; payload = "" })) b
  publish_task_message marshal_task subject task_type (some (some raw)) b =
      publish_text subject (marshal_task (record { task_type = task_type; payload = raw })) b

  -- The function that a refresh registers: the data is not used.
  unfoldable pub trigger : Trigger → String → Broker → Broker × Bool
  unfolding publish_empty_message
  trigger system_indexes_trigger payload b = publish_empty_message "refreshSystemIndexes" b
  trigger adjusted_prices_trigger payload b = publish_empty_message "refreshAdjustedPrices" b
