-- ===== src/Scheduler/Preserved.antt =====
-- What the requests and the restoring keep (cmd/scheduler/handler.go): they change the jobs and the
-- tracked ids in no other way than to schedule a job.
use eve_industry_planner_sta.Prelude.{
  ℕ, String, Bool, true, false, List, [], ◌∷◌, Option, none, some, Bool-cases, Option-cases, inl,
  inr, if◌then◌else◌,
}
use eve_industry_planner_sta.Prelude.Int.{ℤ, ltb_ℤ}
use eve_industry_planner_sta.Prelude.Dict.{Dict, lookup}
use eve_industry_planner_sta.Redis.{Redis}
use eve_industry_planner_sta.Scheduler.{
  JobFunc, OneTimeJob, ScheduleRequest, State, requestable_task_type, from_milli,
  schedule_one_time_job, answer, accept_request, with_job_id, process_schedule_request, discard,
  kept_or_discarded, restore_job, restore_key, restore_keys, restore_one_time_jobs,
}
use eve_industry_planner_sta.Scheduler.Library.{Gocron}

module _ (r : Redis) (Handler : Type 0) (g : Gocron (JobFunc Handler))
    (marshal : OneTimeJob → Option String) (unmarshal : String → Option OneTimeJob)
    (P : g.Jobs → Dict ℕ → Type 0)
    (kept : (now then_now : ℤ) (job : OneTimeJob) (run_at : ℤ)
        (s : State r Handler g marshal unmarshal)
      → P s.jobs s.one_time_jobs
      → P
          (schedule_one_time_job r Handler g marshal unmarshal now then_now job run_at s).0.jobs
          (schedule_one_time_job r Handler g marshal unmarshal now then_now job run_at
            s).0.one_time_jobs) where
  abbrev pub Holds : State r Handler g marshal unmarshal → Type 0
  Holds s = P s.jobs s.one_time_jobs

  answer-Holds :
      (x : State r Handler g marshal unmarshal × Bool)
      → Holds x.0
      → Holds (answer r Handler g marshal unmarshal x).0
  unfolding answer
  answer-Holds (s, true) h = h
  answer-Holds (s, false) h = h

  accept_request-Holds :
      (received now then_now : ℤ) (req : ScheduleRequest) (s : State r Handler g marshal unmarshal)
      → Holds s
      → Holds (accept_request r Handler g marshal unmarshal received now then_now req s).0
  unfolding accept_request
  accept_request-Holds received now then_now req s h =
      elim (Bool-cases (ltb_ℤ received (from_milli req.run_at))) [
        | inr passed ↦ rw (passed, accept_request) h
        | inl ahead ↦ elim (Option-cases (lookup req.task_type s.handlers)) [
          | inl missing ↦ rw (ahead, missing, accept_request) h
          | inr (handler, there) ↦
              rw (ahead, there, accept_request)
                (answer-Holds _ (kept now then_now req (from_milli req.run_at) s h))
        ]
      ]

  pub process_schedule_request-Holds :
      (received now then_now : ℤ) (generated : Option String) (message : Option ScheduleRequest)
      (s : State r Handler g marshal unmarshal)
      → Holds s
      → Holds
          (process_schedule_request r Handler g marshal unmarshal received now then_now generated
            message s).0
  unfolding process_schedule_request
  process_schedule_request-Holds received now then_now generated none s h = h
  process_schedule_request-Holds received now then_now generated (some message) s h =
      elim (Option-cases (with_job_id r Handler g marshal unmarshal generated message)) [
        | inl missing ↦ rw (missing, process_schedule_request) h
        | inr (req, there) ↦
            rw (there, process_schedule_request)
              (accept_request-Holds received now then_now req s h)
      ]

  pub kept_or_discarded-Holds :
      (key : String) (x : State r Handler g marshal unmarshal × Bool)
      → Holds x.0
      → Holds (kept_or_discarded r Handler g marshal unmarshal key x)
  unfolding kept_or_discarded discard
  kept_or_discarded-Holds key (s, true) h = h
  kept_or_discarded-Holds key (s, false) h = h

  restore_job-Holds :
      (started now then_now : ℤ) (key : String) (job : OneTimeJob)
      (s : State r Handler g marshal unmarshal)
      → Holds s
      → Holds (restore_job r Handler g marshal unmarshal started now then_now key job s)
  unfolding restore_job discard
  restore_job-Holds started now then_now key job s h =
      elim (Bool-cases (ltb_ℤ started (from_milli job.run_at))) [
        | inr passed ↦ rw (passed, restore_job) h
        | inl ahead ↦ elim (Option-cases (lookup job.task_type s.handlers)) [
          | inl missing ↦ rw (ahead, missing, restore_job) h
          | inr (handler, there) ↦ elim (Bool-cases (requestable_task_type job.task_type)) [
            | inr refused ↦ rw (ahead, there, refused, restore_job) h
            | inl allowed ↦
                rw (ahead, there, allowed, restore_job)
                  (kept_or_discarded-Holds key _
                    (kept now then_now job (from_milli job.run_at) s h))
          ]
        ]
      ]

  pub restore_key-Holds :
      (started : ℤ) (at : String → ℤ × ℤ) (key : String) (s : State r Handler g marshal unmarshal)
      → Holds s
      → Holds (restore_key r Handler g marshal unmarshal started at key s)
  unfolding restore_key discard
  restore_key-Holds started at key s h = elim (Option-cases (r.get key s.store)) [
    | inl missing ↦ rw (missing, restore_key) h
    | inr (text, there) ↦ elim (Option-cases (unmarshal text)) [
      | inl bad ↦ rw (there, bad, restore_key) h
      | inr (job, parsed) ↦
          rw (there, parsed, restore_key)
            (restore_job-Holds started (at key).0 (at key).1 key job s h)
    ]
  ]

  pub restore_keys-Holds :
      (started : ℤ) (at : String → ℤ × ℤ) (keys : List String)
      (s : State r Handler g marshal unmarshal)
      → Holds s
      → Holds (restore_keys r Handler g marshal unmarshal started at keys s)
  unfolding restore_keys
  restore_keys-Holds started at [] s h = h
  restore_keys-Holds started at (key ∷ rest) s h =
      restore_keys-Holds started at rest _ (restore_key-Holds started at key s h)

  either :
      (b : Bool) (x y : State r Handler g marshal unmarshal × Bool)
      → Holds x.0
      → Holds y.0
      → Holds (if b then x else y).0
  either true x y h k = h
  either false x y h k = k

  pub restore_one_time_jobs-Holds :
      (started : ℤ) (at : String → ℤ × ℤ) (scanned : Option (List String))
      (s : State r Handler g marshal unmarshal)
      → Holds s
      → Holds (restore_one_time_jobs r Handler g marshal unmarshal started at scanned s).0
  unfolding restore_one_time_jobs
  restore_one_time_jobs-Holds started at none s h = either s.has_redis _ _ h h
  restore_one_time_jobs-Holds started at (some keys) s h =
      either s.has_redis _ _ (restore_keys-Holds started at keys s h) h
