-- ===== src/Scheduler/Restart.antt =====
-- One-time jobs across a restart of the scheduler (cmd/scheduler/handler.go).
use eve_industry_planner_sta.Prelude.{
  ℕ, String, ◌≡◌, refl, arith, Bool, true, false, Option, none, some, Bool-cases, Option-cases, inl,
  inr,
}
use eve_industry_planner_sta.Prelude.Int.{ℤ, ltb_ℤ}
use eve_industry_planner_sta.Prelude.Dict.{lookup}
use eve_industry_planner_sta.Redis.{Redis, save_json}
use eve_industry_planner_sta.Scheduler.Library.{Gocron}
use eve_industry_planner_sta.Scheduler.{
  JobFunc, OneTimeJob, State, requestable_task_type, one_time_job_key, unix_milli, from_milli, soon,
  persist, track, schedule_one_time_job, kept_or_discarded, restore_job, restore_key,
}
use eve_industry_planner_sta.Scheduler.Requests.{Tracked, schedule_one_time_job-Tracked}

module _ (r : Redis) (Handler : Type 0) (g : Gocron (JobFunc Handler))
    (marshal : OneTimeJob → Option String) (unmarshal : String → Option OneTimeJob) where
  open r use {Store, get, set}
  open g use {Jobs}

  -- The job as it is stored.
  abbrev pub stored_job : ℤ → OneTimeJob → ℤ → OneTimeJob
  stored_job now job run_at = record job { run_at = unix_milli (soon now run_at) }

  get-persist :
      (job : OneTimeJob) (s : State r Handler g marshal unmarshal) (text : String)
      → s.has_redis ≡ true
      → marshal job ≡ some text
      → (set (one_time_job_key job.job_id) text s.store).1 ≡ true
      → get (one_time_job_key job.job_id) (persist r Handler g marshal unmarshal job s).store
        ≡ some text
  unfolding persist save_json
  get-persist job s text connected written ok =
      ground (arith, connected, written, r.get-set (one_time_job_key job.job_id) text s.store ok)

  get-track :
      (job : OneTimeJob) (x : Jobs × Option ℕ) (s : State r Handler g marshal unmarshal)
      (text : String)
      → s.has_redis ≡ true
      → marshal job ≡ some text
      → (set (one_time_job_key job.job_id) text s.store).1 ≡ true
      → (track r Handler g marshal unmarshal job x s).1 ≡ true
      → get (one_time_job_key job.job_id) (track r Handler g marshal unmarshal job x s).0.store
        ≡ some text
  unfolding track
  get-track job (js, none) s text connected written ok done = absurd (ground (arith, done))
  get-track job (js, some j) s text connected written ok done =
      get-persist job _ text connected written ok

  -- A job that was scheduled is stored as it was scheduled.
  pub get-schedule_one_time_job :
      (now then_now : ℤ) (job : OneTimeJob) (run_at : ℤ) (s : State r Handler g marshal unmarshal)
      (text : String)
      → s.has_redis ≡ true
      → marshal (stored_job now job run_at) ≡ some text
      → (set (one_time_job_key job.job_id) text s.store).1 ≡ true
      → (schedule_one_time_job r Handler g marshal unmarshal now then_now job run_at s).1 ≡ true
      → get
          (one_time_job_key job.job_id)
          (schedule_one_time_job r Handler g marshal unmarshal now then_now job run_at s).0.store
        ≡ some text
  unfolding schedule_one_time_job
  get-schedule_one_time_job now then_now job run_at s text connected written ok done =
      elim (Bool-cases (requestable_task_type job.task_type)) [
        | inr refused ↦ absurd (ground (arith, refused, done))
        | inl allowed ↦ elim (Option-cases (lookup job.task_type s.handlers)) [
          | inl none_there ↦ absurd (ground (arith, allowed, none_there, done))
          | inr (h, there) ↦
              rw (allowed, there, schedule_one_time_job)
                (get-track (stored_job now job run_at) _ s text connected written ok
                  (rw (allowed, there, schedule_one_time_job) at done))
        ]
      ]

  -- What a restart does with a stored job that is still ahead and has a handler.
  restore_key-schedules :
      (started : ℤ) (at : String → ℤ × ℤ) (key text : String) (job : OneTimeJob) {h : Handler}
      (s : State r Handler g marshal unmarshal)
      → get key s.store ≡ some text
      → unmarshal text ≡ some job
      → ltb_ℤ started (from_milli job.run_at) ≡ true
      → lookup job.task_type s.handlers ≡ some h
      → requestable_task_type job.task_type ≡ true
      → restore_key r Handler g marshal unmarshal started at key s
        ≡ kept_or_discarded r Handler g marshal unmarshal key (
            schedule_one_time_job r Handler g marshal unmarshal
              (at key).0
              (at key).1
              job
              (from_milli job.run_at)
              s)
  unfolding restore_key restore_job
  restore_key-schedules started at key text job s found parsed ahead there allowed =
      rw (found, restore_key) (rw (parsed, ahead, there, allowed))

  requestable-schedule_one_time_job :
      (now then_now : ℤ) (job : OneTimeJob) (run_at : ℤ) (s : State r Handler g marshal unmarshal)
      → (schedule_one_time_job r Handler g marshal unmarshal now then_now job run_at s).1 ≡ true
      → requestable_task_type job.task_type ≡ true
  unfolding schedule_one_time_job
  requestable-schedule_one_time_job now then_now job run_at s done = ground (arith, done)

  kept-true :
      (key : String) (x : State r Handler g marshal unmarshal × Bool)
      → x.1 ≡ true
      → kept_or_discarded r Handler g marshal unmarshal key x ≡ x.0
  unfolding kept_or_discarded
  kept-true key (s, true) h = refl
  kept-true key (s, false) h = absurd (ground arith)

  -- A stored job that is still ahead and has a handler, and that gocron takes, is tracked.
  pub restore_key-Tracked :
      (started : ℤ) (at : String → ℤ × ℤ) (key text : String) (job : OneTimeJob) {h : Handler}
      (s : State r Handler g marshal unmarshal)
      → get key s.store ≡ some text
      → unmarshal text ≡ some job
      → ltb_ℤ started (from_milli job.run_at) ≡ true
      → lookup job.task_type s.handlers ≡ some h
      → (schedule_one_time_job r Handler g marshal unmarshal
          (at key).0
          (at key).1
          job
          (from_milli job.run_at)
          s).1
        ≡ true
      → Tracked r Handler g marshal unmarshal job.job_id
          (restore_key r Handler g marshal unmarshal started at key s)
  restore_key-Tracked started at key text job s found parsed ahead there again =
      let allowed =
        requestable-schedule_one_time_job (at key).0 (at key).1 job (from_milli job.run_at) s
          again in
      let second : State r Handler g marshal unmarshal × Bool =
        schedule_one_time_job r Handler g marshal unmarshal (at key).0 (at key).1 job
          (from_milli job.run_at) s in
      rw (restore_key-schedules started at key text job s found parsed ahead there allowed) (
        rw (kept-true key second again) (
          schedule_one_time_job-Tracked r Handler g marshal unmarshal (at key).0 (at key).1 job
            (from_milli job.run_at) s again))
