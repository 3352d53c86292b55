-- ===== src/Scheduler/Published.antt =====
-- A refresh that is asked for, on subjects in memory (internal/scheduler/client.go).
use eve_industry_planner_sta.Prelude.{
  String, ◌≡◌, arith, Bool, true, false, List, [], ◌∷◌, ◌++◌, Option, none, some, ◌&&◌, ◌==◌,
  if◌then◌else◌, str_eq, eq_iff,
}
use eve_industry_planner_sta.Prelude.Int.{ℤ, pos, negsuc}
use eve_industry_planner_sta.Nats.{Call}
use eve_industry_planner_sta.Tasks.Examples.{dict_store}
use eve_industry_planner_sta.Scheduler.{JobFunc, ScheduleRequest, State}
use eve_industry_planner_sta.Scheduler.JobList.{job_list}
use eve_industry_planner_sta.Scheduler.Client.{Publisher, Trigger, system_indexes_trigger}
use eve_industry_planner_sta.Scheduler.Turns.{receive_request}
use eve_industry_planner_sta.Scheduler.EndToEnd.{fetched}
use eve_industry_planner_sta.Scheduler.Examples.{marshal_millis, parse_job}

-- Each subject with its messages.
publish_to : String → String → (String → List String) → String → List String
publish_to subject text b s = if str_eq s subject then b s ++ text ∷ [] else b s

publish_to-last :
    (subject text : String) (b : String → List String)
    → publish_to subject text b subject ≡ b subject ++ text ∷ []
unfolding publish_to
publish_to-last subject text b = ground (arith, eq_iff subject subject)

abbrev in_memory : Publisher
in_memory = record {
  Broker = String → List String;
  messages = λ subject b. b subject;
  publish = λ subject text b. (publish_to subject text b, true);
  messages-publish = λ subject text b h. publish_to-last subject text b;
}

is_five : ℤ → Bool
is_five (pos n) = n == 5
is_five (negsuc n) = false

-- A format for one request only.
marshal_five : ScheduleRequest → Option String
marshal_five req =
    if (str_eq req.job_id "" && str_eq req.task_type "refreshSystemIndexes")
      && (str_eq req.payload "" && is_five req.run_at)
    then some "five"
    else none

unmarshal_five : String → Option ScheduleRequest
unmarshal_five text =
    some (record { job_id = ""; task_type = "refreshSystemIndexes"; run_at = pos 5; payload = "" })

abbrev Scheduler : Type 0
Scheduler = State dict_store Trigger (job_list (JobFunc Trigger)) marshal_millis parse_job

abbrev ready : Scheduler
ready = record {
  jobs = [];
  store = [];
  has_redis = true;
  handlers = ("refreshSystemIndexes", system_indexes_trigger) ∷ [];
  one_time_jobs = [];
}

abbrev nothing_published : String → List String
nothing_published subject = []

-- The scheduler that receives a text.
abbrev received : String → Scheduler × List Call
received text =
    receive_request dict_store Trigger (job_list (JobFunc Trigger)) marshal_millis parse_job
      (fetched in_memory marshal_five unmarshal_five dict_store (job_list (JobFunc Trigger))
        marshal_millis parse_job text "g" (pos 3) (pos 3) (pos 3))
      ready
