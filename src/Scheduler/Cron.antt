-- ===== src/Scheduler/Cron.antt =====
-- The cron jobs of the scheduler, and the functions that gocron calls (cmd/scheduler/handler.go).
use eve_industry_planner_sta.Prelude.{
  ℕ, String, Bool, true, false, List, [], ◌∷◌, Option, none, some, ◌||◌, str_eq,
}
use Prim.Native.String.{◌++◌}
use eve_industry_planner_sta.Prelude.Dict.{lookup}
use eve_industry_planner_sta.Redis.{Redis}
use eve_industry_planner_sta.Scheduler.{
  JobFunc, one_time_func, cron_func, OneTimeJob, State, remove_one_time_job,
}
use eve_industry_planner_sta.Scheduler.Library.{Gocron}

-- The loop over the tags of a job, and the loop over the jobs.
unfoldable pub shows_type : String → List String → Bool
shows_type task_type [] = false
shows_type task_type (tag ∷ rest) =
    (str_eq tag task_type || str_eq tag ("cron:" ++ task_type)) || shows_type task_type rest

unfoldable pub any_shows_type : String → List (List String) → Bool
unfolding shows_type
any_shows_type task_type [] = false
any_shows_type task_type (tags ∷ rest) = shows_type task_type tags || any_shows_type task_type rest

module _ (r : Redis) (Handler : Type 0) (g : Gocron (JobFunc Handler))
    (marshal : OneTimeJob → Option String) (unmarshal : String → Option OneTimeJob) where
  open r use {Store}
  open g use {Jobs, task, new_cron_job, tags}

  -- `jobs` is the scheduler that gocron makes.
  unfoldable pub new_task_scheduler : Jobs → Bool → Store → State r Handler g marshal unmarshal
  new_task_scheduler jobs has_redis store = record {
    jobs = jobs;
    store = store;
    has_redis = has_redis;
    handlers = [];
    one_time_jobs = [];
  }

  unfoldable pub has_scheduled_job : String → State r Handler g marshal unmarshal → Bool
  unfolding any_shows_type
  has_scheduled_job task_type s = any_shows_type task_type (tags s.jobs)

  unfoldable pub was_made : Option ℕ → Bool
  was_made none = false
  was_made (some j) = true

  -- Without a handler nothing is done, which is no error.
  unfoldable pub schedule_cron_job :
      String
      → String
      → State r Handler g marshal unmarshal
      → State r Handler g marshal unmarshal × Bool
  unfolding was_made
  schedule_cron_job cron_expr task_type s = elim (lookup task_type s.handlers) [
    | none ↦ (s, true)
    | some h ↦
        let (js, made) =
          new_cron_job cron_expr (cron_func h task_type) ("cron:" ++ task_type) s.jobs in
        (record s { jobs = js }, was_made made)
  ]

  -- A handler acts on the world outside the scheduler; its error is only logged.
  module _ {World : Type 0} (handle : Handler → String → World → World × Bool) where
    -- The function of a one-time job, on what it captures, and that of a cron job, whose handler gets
    -- no data.
    unfoldable pub run_one_time_job :
        Handler
        → String
        → String
        → State r Handler g marshal unmarshal × World
        → State r Handler g marshal unmarshal × World
    run_one_time_job handler job_id payload (s, w) =
        (remove_one_time_job r Handler g marshal unmarshal job_id s, (handle handler payload w).0)

    unfoldable pub run_cron_job :
        Handler
        → State r Handler g marshal unmarshal × World
        → State r Handler g marshal unmarshal × World
    run_cron_job handler (s, w) = (s, (handle handler "" w).0)

    unfoldable pub run_func :
        JobFunc Handler
        → State r Handler g marshal unmarshal × World
        → State r Handler g marshal unmarshal × World
    unfolding run_one_time_job run_cron_job
    run_func (one_time_func handler job_id task_type payload) x =
        run_one_time_job handler job_id payload x
    run_func (cron_func handler task_type) x = run_cron_job handler x

    -- gocron runs a job, by its number, if it has it.
    unfoldable pub run_job :
        ℕ
        → State r Handler g marshal unmarshal × World
        → State r Handler g marshal unmarshal × World
    unfolding run_func
    run_job j (s, w) = elim (task j s.jobs) [ none ↦ (s, w) | some f ↦ run_func f (s, w) ]
