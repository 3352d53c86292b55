-- ===== src/Scheduler/Captured.antt =====
-- What gocron is given to run for a one-time job (cmd/scheduler/handler.go).
use eve_industry_planner_sta.Prelude.{
  ℕ, String, ◌≡◌, refl, arith, true, Option, none, some, Bool-cases, inl, inr,
}
use Prim.Native.String.{◌++◌}
use eve_industry_planner_sta.Prelude.Int.{ℤ}
use eve_industry_planner_sta.Prelude.Dict.{lookup, insert, lookup-insert_self}
use eve_industry_planner_sta.Redis.{Redis}
use eve_industry_planner_sta.Scheduler.Library.{Gocron}
use eve_industry_planner_sta.Scheduler.{
  JobFunc, one_time_func, OneTimeJob, State, requestable_task_type, unix_milli, soon, delay, track,
  schedule_one_time_job,
}
use eve_industry_planner_sta.Scheduler.Requests.{Tracked, persist-same}

module _ (r : Redis) (Handler : Type 0) (g : Gocron (JobFunc Handler))
    (marshal : OneTimeJob → Option String) (unmarshal : String → Option OneTimeJob) where
  open g use {Jobs, task, new_job}

  track-captures :
      (job : OneTimeJob) (x : Jobs × Option ℕ) (s : State r Handler g marshal unmarshal)
      (f : JobFunc Handler)
      → ((j : ℕ) → x.1 ≡ some j → task j x.0 ≡ some f)
      → (track r Handler g marshal unmarshal job x s).1 ≡ true
      → (t : Tracked r Handler g marshal unmarshal job.job_id
          (track r Handler g marshal unmarshal job x s).0)
      → task t.handle (track r Handler g marshal unmarshal job x s).0.jobs ≡ some f
  unfolding track
  track-captures job (js, none) s f given done t = absurd (ground (arith, done))
  track-captures job (js, some j) s f given done t =
      let s' : State r Handler g marshal unmarshal = record s {
        jobs = js;
        one_time_jobs = insert job.job_id j s.one_time_jobs;
      } in
      let (same_tracked, same_jobs) = persist-same r Handler g marshal unmarshal job s' in
      let there : lookup job.job_id (insert job.job_id j s.one_time_jobs) ≡ some t.handle =
        rw same_tracked at t.found in
      let same : j ≡ t.handle =
        ground (arith, there, lookup-insert_self job.job_id j s.one_time_jobs) in
      rw (same_jobs, ← same) (given j refl)

  -- The job that gocron has for a tracked id, once it was scheduled: it captures the handler of the
  -- task type, and the id and the data of the job.
  pub schedule_one_time_job-captures :
      (now then_now : ℤ) (job : OneTimeJob) (run_at : ℤ) (s : State r Handler g marshal unmarshal)
      (h : Handler)
      → lookup job.task_type s.handlers ≡ some h
      → (schedule_one_time_job r Handler g marshal unmarshal now then_now job run_at s).1 ≡ true
      → (t : Tracked r Handler g marshal unmarshal job.job_id
          (schedule_one_time_job r Handler g marshal unmarshal now then_now job run_at s).0)
      → task t.handle
          (schedule_one_time_job r Handler g marshal unmarshal now then_now job run_at s).0.jobs
        ≡ some (one_time_func h job.job_id job.task_type job.payload)
  unfolding schedule_one_time_job
  schedule_one_time_job-captures now then_now job run_at s h there done =
      elim (Bool-cases (requestable_task_type job.task_type)) [
        | inr refused ↦ absurd (ground (arith, refused, done))
        | inl allowed ↦
            rw (allowed, there, schedule_one_time_job)
              (track-captures (record job { run_at = unix_milli (soon now run_at) })
                (new_job (delay then_now (soon now run_at))
                  (one_time_func h job.job_id job.task_type job.payload) ("onetime:" ++ job.job_id)
                  ("task:" ++ job.task_type) s.jobs)
                s (one_time_func h job.job_id job.task_type job.payload)
                (λ j e. g.task-new_job _ _ _ _ s.jobs j e)
                (rw (allowed, there, schedule_one_time_job) at done))
      ]
