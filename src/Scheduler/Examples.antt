-- ===== src/Scheduler/Examples.antt =====
-- The scheduler on a store in memory and on a list of jobs (cmd/scheduler/handler.go).
use eve_industry_planner_sta.Prelude.{
  ℕ, String, ◌≡◌, ◌≢◌, refl, Bool, true, List, [], ◌∷◌, Option, none, some,
}
use eve_industry_planner_sta.Prelude.Int.{pos}
use eve_industry_planner_sta.Prelude.Dict.{Dict, lookup}
use eve_industry_planner_sta.Prelude.Text.{atoi}
use eve_industry_planner_sta.Prelude.Decimal.{format_int}
use eve_industry_planner_sta.Tasks.Examples.{dict_store}
use eve_industry_planner_sta.Scheduler.{
  JobFunc, OneTimeJob, State, requestable_task_type, persist, track, schedule_one_time_job,
  remove_one_time_job, accept_request,
}
use eve_industry_planner_sta.Scheduler.JobList.{scheduled_at, new_at, job_list}
use eve_industry_planner_sta.Scheduler.Requests.{
  Tracked, Accepted, accept_request-Accepted, schedule_one_time_job-Tracked,
}
use eve_industry_planner_sta.Scheduler.Reschedule.{schedule_one_time_job-untracks}

abbrev pub marshal_millis : OneTimeJob → Option String
marshal_millis j = some (format_int j.run_at)

-- A format for the jobs of one kind that keeps their time.
pub parse_job : String → Option OneTimeJob
parse_job text = elim (atoi text) [
  | none ↦ none
  | some millis ↦
      some
        (record { job_id = "a"; task_type = "refreshSystemIndexes"; run_at = millis; payload = "" })
]

abbrev pub Scheduler : Type 0
Scheduler = State dict_store Bool (job_list (JobFunc Bool)) marshal_millis parse_job

abbrev pub with_store : Dict String → Scheduler
with_store m = record {
  jobs = [];
  store = m;
  has_redis = true;
  handlers = ("refreshSystemIndexes", true) ∷ [];
  one_time_jobs = [];
}

abbrev pub job_a : OneTimeJob
job_a = record { job_id = "a"; task_type = "refreshSystemIndexes"; run_at = pos 5; payload = "" }

abbrev pub scheduled_a : Scheduler → Scheduler × Bool
scheduled_a s =
    schedule_one_time_job dict_store Bool (job_list (JobFunc Bool)) marshal_millis parse_job (pos 1)
      (pos 2) job_a (pos 5_000_000) s

pub a_done : (scheduled_a (with_store [])).1 ≡ true
unfolding schedule_one_time_job requestable_task_type lookup track new_at
a_done = refl

accept_request-Accepted_example :
    Accepted dict_store Bool
      (job_list (JobFunc Bool))
      marshal_millis
      parse_job
      (pos 3)
      job_a
      (with_store [])
      (accept_request dict_store Bool
        (job_list (JobFunc Bool))
        marshal_millis
        parse_job
        (pos 3)
        (pos 4)
        (pos 4)
        job_a
        (with_store []))
accept_request-Accepted_example =
    accept_request-Accepted dict_store Bool (job_list (JobFunc Bool)) marshal_millis parse_job
      (pos 3) (pos 4) (pos 4) job_a (with_store [])

restarted : Scheduler
restarted = with_store (("scheduler:onetime:b", "x") ∷ ("scheduler:onetime:a", "5") ∷ [])

-- Another key holds a text that does not parse, and is restored first.
abbrev scanned : List String
scanned = "scheduler:onetime:b" ∷ "scheduler:onetime:a" ∷ []

pub tracked_a :
    Tracked dict_store Bool
      (job_list (JobFunc Bool))
      marshal_millis
      parse_job
      "a"
      (scheduled_a (with_store [])).0
tracked_a =
    schedule_one_time_job-Tracked dict_store Bool (job_list (JobFunc Bool)) marshal_millis parse_job
      (pos 1) (pos 2) job_a (pos 5_000_000) (with_store []) a_done

twice_done : (scheduled_a (scheduled_a (with_store [])).0).1 ≡ true
unfolding schedule_one_time_job requestable_task_type lookup track new_at persist
twice_done = refl

-- The scheduler after the same job came twice, and after the id was removed.
abbrev twice : Scheduler
twice = (scheduled_a (scheduled_a (with_store [])).0).0

abbrev removed : Scheduler
removed =
    remove_one_time_job dict_store Bool (job_list (JobFunc Bool)) marshal_millis parse_job "a" twice

schedule_one_time_job-untracks_example :
    (later : ℕ) × (tracked_a.handle ≢ later)
    × (lookup "a" twice.one_time_jobs ≡ some later)
    × (scheduled_at tracked_a.handle removed.jobs ≡ true)
    × (lookup "a" removed.one_time_jobs ≡ none)
schedule_one_time_job-untracks_example =
    schedule_one_time_job-untracks dict_store Bool (job_list (JobFunc Bool)) marshal_millis
      parse_job (pos 1) (pos 2) job_a (pos 5_000_000) (scheduled_a (with_store [])).0 tracked_a
      twice_done
