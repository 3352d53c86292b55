-- ===== src/Scheduler/Reschedule.antt =====
-- A second job under the same job id (cmd/scheduler/handler.go).
use eve_industry_planner_sta.Prelude.{
  ℕ, String, ◌≡◌, ◌≢◌, sym, ap, ◌∙◌, arith, true, Option, none, some, Bool-cases, Option-cases, inl,
  inr,
}
use text.Mathlib.TextPositions.{eq_refl}
use eve_industry_planner_sta.Prelude.Int.{ℤ}
use eve_industry_planner_sta.Prelude.Dict.{lookup, insert, lookup-insert_self, lookup-delete}
use eve_industry_planner_sta.Redis.{Redis}
use eve_industry_planner_sta.Scheduler.Library.{Gocron}
use eve_industry_planner_sta.Scheduler.{
  JobFunc, OneTimeJob, State, requestable_task_type, unix_milli, soon, track, schedule_one_time_job,
  remove_one_time_job,
}
use eve_industry_planner_sta.Scheduler.Requests.{Tracked, persist-same}

module _ (r : Redis) (Handler : Type 0) (g : Gocron (JobFunc Handler))
    (marshal : OneTimeJob → Option String) (unmarshal : String → Option OneTimeJob) where
  open g use {Jobs, scheduled, new_job, remove_job}

  -- The job that gocron made for a scheduled one.
  record Made (job_id : String) (s s' : State r Handler g marshal unmarshal) : Type 0 where
    duration : ℤ
    func : JobFunc Handler
    tag : String
    task_tag : String
    handle : ℕ
    made : (new_job duration func tag task_tag s.jobs).1 ≡ some handle
    jobs : s'.jobs ≡ (new_job duration func tag task_tag s.jobs).0
    found : lookup job_id s'.one_time_jobs ≡ some handle

  track-Made :
      (d : ℤ) (f : JobFunc Handler) (a b : String) (job : OneTimeJob)
      (s : State r Handler g marshal unmarshal)
      → (track r Handler g marshal unmarshal job (new_job d f a b s.jobs) s).1 ≡ true
      → Made job.job_id s (track r Handler g marshal unmarshal job (new_job d f a b s.jobs) s).0
  unfolding track
  track-Made d f a b job s done = elim (Option-cases (new_job d f a b s.jobs).1) [
    | inl nothing ↦ absurd (ground (arith, nothing, done))
    | inr (j, made) ↦
        let s' : State r Handler g marshal unmarshal = record s {
          jobs = (new_job d f a b s.jobs).0;
          one_time_jobs = insert job.job_id j s.one_time_jobs;
        } in
        let (same_tracked, same_jobs) = persist-same r Handler g marshal unmarshal job s' in
        record {
          duration = d;
          func = f;
          tag = a;
          task_tag = b;
          handle = j;
          made = made;
          jobs = rw (made, track) same_jobs;
          found =
              rw (made, track)
                (ap (λ m. lookup job.job_id m) same_tracked ∙ lookup-insert_self job.job_id j _);
        }
  ]

  schedule_one_time_job-Made :
      (now then_now : ℤ) (job : OneTimeJob) (run_at : ℤ) (s : State r Handler g marshal unmarshal)
      → (schedule_one_time_job r Handler g marshal unmarshal now then_now job run_at s).1 ≡ true
      → Made job.job_id s
          (schedule_one_time_job r Handler g marshal unmarshal now then_now job run_at s).0
  unfolding schedule_one_time_job
  schedule_one_time_job-Made now then_now job run_at s done =
      elim (Bool-cases (requestable_task_type job.task_type)) [
        | inr refused ↦ absurd (ground (arith, refused, done))
        | inl allowed ↦ elim (Option-cases (lookup job.task_type s.handlers)) [
          | inl none_there ↦ absurd (ground (arith, allowed, none_there, done))
          | inr (h, there) ↦
              rw (allowed, there, schedule_one_time_job)
                (track-Made _ _ _ _ (record job { run_at = unix_milli (soon now run_at) }) s
                  (rw (allowed, there, schedule_one_time_job) at done))
        ]
      ]

  -- When a job is scheduled under an id that is already tracked, the earlier job stays scheduled in
  -- gocron while the id leads to the new one. When the id is removed after that, as a job that has
  -- run does, the earlier job stays scheduled with no entry that leads to it.
  pub schedule_one_time_job-untracks :
      (now then_now : ℤ) (job : OneTimeJob) (run_at : ℤ) (s : State r Handler g marshal unmarshal)
      → (earlier : Tracked r Handler g marshal unmarshal job.job_id s)
      → (schedule_one_time_job r Handler g marshal unmarshal now then_now job run_at s).1 ≡ true
      → (later : ℕ) × (earlier.handle ≢ later)
        × (lookup job.job_id
              (schedule_one_time_job r Handler g marshal unmarshal now then_now job run_at
                s).0.one_time_jobs
            ≡ some later)
        × (scheduled earlier.handle
              (remove_one_time_job r Handler g marshal unmarshal job.job_id
                (schedule_one_time_job r Handler g marshal unmarshal now then_now job run_at
                  s).0).jobs
            ≡ true)
        × (lookup job.job_id
              (remove_one_time_job r Handler g marshal unmarshal job.job_id
                (schedule_one_time_job r Handler g marshal unmarshal now then_now job run_at
                  s).0).one_time_jobs
            ≡ none)
  unfolding remove_one_time_job
  schedule_one_time_job-untracks now then_now job run_at s earlier done =
      let m = schedule_one_time_job-Made now then_now job run_at s done in
      let s' = (schedule_one_time_job r Handler g marshal unmarshal now then_now job run_at s).0 in
      let still =
        g.scheduled-new_job_ne m.duration m.func m.tag m.task_tag s.jobs earlier.handle
          earlier.running in
      let (fresh, running) =
        g.scheduled-new_job m.duration m.func m.tag m.task_tag s.jobs m.handle m.made in
      let differs : m.handle ≢ earlier.handle =
        λ e. ground (arith, fresh, earlier.running, ap (λ k. scheduled k s.jobs) e) in
      (
        m.handle,
        (λ e. differs (sym e)),
        m.found,
        rw (m.found, remove_one_time_job)
            (g.scheduled-remove_job_ne m.handle earlier.handle s'.jobs differs
              ∙ ap (λ js. scheduled earlier.handle js) m.jobs
              ∙ still),
        rw (lookup-delete s'.one_time_jobs job.job_id job.job_id, eq_refl),
      )
