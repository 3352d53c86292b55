-- ===== src/Scheduler/Turns.antt =====
-- The turns of the scheduler service (cmd/scheduler/handler.go, cmd/scheduler/registry.go): the
-- registration of handlers, the cron jobs, the restoring of stored jobs, the requests, and the end of
-- a job that gocron ran, in any order. Each is one turn: the source guards the state with no lock.
use eve_industry_planner_sta.Prelude.{String, List, [], ◌∷◌, Option}
use eve_industry_planner_sta.Prelude.Int.{ℤ}
use eve_industry_planner_sta.Nats.{Call, in_progress}
use eve_industry_planner_sta.Redis.{Redis}
use eve_industry_planner_sta.Scheduler.{
  JobFunc, OneTimeJob, ScheduleRequest, State, register_handler, remove_one_time_job,
  process_schedule_request, restore_one_time_jobs,
}
use eve_industry_planner_sta.Scheduler.Library.{Gocron}
use eve_industry_planner_sta.Scheduler.Cron.{schedule_cron_job}

-- A fetched message: what it parses to, if it does, the id that is generated for it, if one is
-- and if that succeeds, and what its handling reads from the clock.
pub record FetchedRequest : Type 0 where
  pub request : Option ScheduleRequest
  pub generated : Option String
  pub received : ℤ
  pub now : ℤ
  pub then_now : ℤ

module _ (r : Redis) (Handler : Type 0) (g : Gocron (JobFunc Handler))
    (marshal : OneTimeJob → Option String) (unmarshal : String → Option OneTimeJob) where
  -- The body of the loop over fetched messages: with all that is said of the message.
  unfoldable pub receive_request :
      FetchedRequest
      → State r Handler g marshal unmarshal
      → State r Handler g marshal unmarshal × List Call
  receive_request m s =
      let (s', call) =
        process_schedule_request r Handler g marshal unmarshal m.received m.now m.then_now
          m.generated m.request s in
      (s', in_progress ∷ call ∷ [])

  -- The loop over a batch: what is said of each message, in their order.
  unfoldable pub receive_requests :
      List FetchedRequest
      → State r Handler g marshal unmarshal
      → State r Handler g marshal unmarshal × List (List Call)
  unfolding receive_request
  receive_requests [] s = (s, [])
  receive_requests (m ∷ rest) s =
      let (s', calls) = receive_request m s in
      let (s'', later) = receive_requests rest s' in (s'', calls ∷ later)

  pub data Turn (s : State r Handler g marshal unmarshal)
      : State r Handler g marshal unmarshal → Type 0 where
    registered :
        (task_type : String) (h : Handler)
        → Turn s (register_handler r Handler g marshal unmarshal task_type h s)
    cron :
        (expr task_type : String)
        → Turn s (schedule_cron_job r Handler g marshal unmarshal expr task_type s).0
    restored :
        (started : ℤ) (at : String → ℤ × ℤ) (scanned : Option (List String))
        → Turn s (restore_one_time_jobs r Handler g marshal unmarshal started at scanned s).0
    requested : (m : FetchedRequest) → Turn s (receive_request m s).0
    ended : (job_id : String) → Turn s (remove_one_time_job r Handler g marshal unmarshal job_id s)

  -- Turns one after another.
  pub data Reach (s : State r Handler g marshal unmarshal)
      : State r Handler g marshal unmarshal → Type 0 where
    here : Reach s s
    later : {u v : State r Handler g marshal unmarshal} → Reach s u → Turn u v → Reach s v
