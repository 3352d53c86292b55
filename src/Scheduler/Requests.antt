-- ===== src/Scheduler/Requests.antt =====
-- What becomes of a scheduling request, and of a job across a restart
-- (cmd/scheduler/handler.go).
use eve_industry_planner_sta.Prelude.{
  ℕ, String, ◌≡◌, refl, ap, ◌∙◌, arith, Bool, true, false, Option, none, some, Bool-cases,
  Option-cases, inl, inr,
}
use Prim.Native.String.{◌++◌}
use eve_industry_planner_sta.Prelude.Int.{ℤ, ltb_ℤ}
use eve_industry_planner_sta.Prelude.Dict.{lookup, insert, lookup-insert_self}
use eve_industry_planner_sta.Nats.{Call, ack, nak}
use eve_industry_planner_sta.Redis.{Redis}
use eve_industry_planner_sta.Scheduler.Library.{Gocron}
use eve_industry_planner_sta.Scheduler.{
  JobFunc, one_time_func, OneTimeJob, ScheduleRequest, State, requestable_task_type, unix_milli,
  from_milli, soon, delay, persist, track, schedule_one_time_job, answer, accept_request,
}

module _ (r : Redis) (Handler : Type 0) (g : Gocron (JobFunc Handler))
    (marshal : OneTimeJob → Option String) (unmarshal : String → Option OneTimeJob) where
  open r use {Store, get, set, del}
  open g use {Jobs, scheduled, new_job, remove_job}

  -- A job id that is tracked, with the job that gocron runs for it.
  pub record Tracked (job_id : String) (s : State r Handler g marshal unmarshal) : Type 0 where
    pub handle : ℕ
    pub found : lookup job_id s.one_time_jobs ≡ some handle
    pub running : scheduled handle s.jobs ≡ true

  pub persist-same :
      (job : OneTimeJob) (s : State r Handler g marshal unmarshal)
      → ((persist r Handler g marshal unmarshal job s).one_time_jobs ≡ s.one_time_jobs)
        × ((persist r Handler g marshal unmarshal job s).jobs ≡ s.jobs)
  unfolding persist
  persist-same job s = (ground arith, ground arith)

  pub track-Tracked :
      (job : OneTimeJob) (x : Jobs × Option ℕ) (s : State r Handler g marshal unmarshal)
      → ((j : ℕ) → x.1 ≡ some j → scheduled j x.0 ≡ true)
      → (track r Handler g marshal unmarshal job x s).1 ≡ true
      → Tracked job.job_id (track r Handler g marshal unmarshal job x s).0
  unfolding track
  track-Tracked job (js, none) s h done = absurd (ground (arith, done))
  track-Tracked job (js, some j) s h done =
      let s' : State r Handler g marshal unmarshal = record s {
        jobs = js;
        one_time_jobs = insert job.job_id j s.one_time_jobs;
      } in
      let (same_tracked, same_jobs) = persist-same job s' in
      record {
        handle = j;
        found = ap (λ m. lookup job.job_id m) same_tracked ∙ lookup-insert_self job.job_id j _;
        running = ap (λ x. scheduled j x) same_jobs ∙ h j refl;
      }

  -- A job that was scheduled is tracked.
  pub schedule_one_time_job-Tracked :
      (now then_now : ℤ) (job : OneTimeJob) (run_at : ℤ) (s : State r Handler g marshal unmarshal)
      → (schedule_one_time_job r Handler g marshal unmarshal now then_now job run_at s).1 ≡ true
      → Tracked job.job_id
          (schedule_one_time_job r Handler g marshal unmarshal now then_now job run_at s).0
  unfolding schedule_one_time_job
  schedule_one_time_job-Tracked now then_now job run_at s done =
      elim (Bool-cases (requestable_task_type job.task_type)) [
        | inr refused ↦ absurd (ground (arith, refused, done))
        | inl allowed ↦ elim (Option-cases (lookup job.task_type s.handlers)) [
          | inl none_there ↦ absurd (ground (arith, allowed, none_there, done))
          | inr (h, there) ↦
              rw (allowed, there, schedule_one_time_job)
                (track-Tracked (record job { run_at = unix_milli (soon now run_at) })
                  (new_job (delay then_now (soon now run_at))
                    (one_time_func h job.job_id job.task_type job.payload)
                    ("onetime:" ++ job.job_id) ("task:" ++ job.task_type) s.jobs)
                  s (λ j e. (g.scheduled-new_job _ _ _ _ s.jobs j e).1)
                  (rw (allowed, there, schedule_one_time_job) at done))
        ]
      ]

  -- A request that is dropped: late, or of a task type without a handler.
  pub data Dropped (received : ℤ) (req : ScheduleRequest) (s : State r Handler g marshal unmarshal)
      : Type 0 where
    late : ltb_ℤ received (from_milli req.run_at) ≡ false → Dropped received req s
    unhandled : lookup req.task_type s.handlers ≡ none → Dropped received req s

  schedule_one_time_job-failed :
      (now then_now : ℤ) (job : OneTimeJob) (run_at : ℤ) (s : State r Handler g marshal unmarshal)
      → (schedule_one_time_job r Handler g marshal unmarshal now then_now job run_at s).1 ≡ false
      → ((schedule_one_time_job r Handler g marshal unmarshal now then_now job run_at
            s).0.one_time_jobs
          ≡ s.one_time_jobs)
        × ((schedule_one_time_job r Handler g marshal unmarshal now then_now job run_at s).0.store
            ≡ s.store)
  unfolding schedule_one_time_job track
  schedule_one_time_job-failed now then_now job run_at s failed = (ground arith, ground arith)

  pub answer-true :
      (x : State r Handler g marshal unmarshal × Bool)
      → x.1 ≡ true
      → answer r Handler g marshal unmarshal x ≡ (x.0, ack)
  unfolding answer
  answer-true (s, true) h = refl
  answer-true (s, false) h = absurd (ground arith)

  answer-false :
      (x : State r Handler g marshal unmarshal × Bool)
      → x.1 ≡ false
      → answer r Handler g marshal unmarshal x ≡ (x.0, nak)
  unfolding answer
  answer-false (s, true) h = absurd (ground arith)
  answer-false (s, false) h = refl

  -- What becomes of a request with its id: it is acknowledged and tracked, or acknowledged and
  -- dropped, or given back.
  pub data Accepted (received : ℤ) (req : ScheduleRequest) (s : State r Handler g marshal unmarshal)
      (x : State r Handler g marshal unmarshal × Call) : Type 0 where
    accepted : x.1 ≡ ack → Tracked req.job_id x.0 → Accepted received req s x
    dropped : x ≡ (s, ack) → Dropped received req s → Accepted received req s x
    given_back :
        x.1 ≡ nak
        → (x.0.one_time_jobs ≡ s.one_time_jobs) × (x.0.store ≡ s.store)
        → Accepted received req s x

  -- A request with an id is acknowledged only if its job is tracked and runs in gocron, or if it is
  -- dropped, which leaves the scheduler as it was, as late or of a task type without a handler. In
  -- every other case it is given back, and nothing is tracked or stored.
  pub accept_request-Accepted :
      (received now then_now : ℤ) (req : ScheduleRequest) (s : State r Handler g marshal unmarshal)
      → Accepted received req s
          (accept_request r Handler g marshal unmarshal received now then_now req s)
  unfolding accept_request
  accept_request-Accepted received now then_now req s =
      let run_at = from_milli req.run_at in
      let x : State r Handler g marshal unmarshal × Bool =
        schedule_one_time_job r Handler g marshal unmarshal now then_now req run_at s in
      elim (Bool-cases (ltb_ℤ received run_at)) [
        | inr passed ↦ dropped (ground (arith, passed)) (late passed)
        | inl ahead ↦ elim (Option-cases (lookup req.task_type s.handlers)) [
          | inl none_there ↦ dropped (ground (arith, ahead, none_there)) (unhandled none_there)
          | inr (h, there) ↦
              let stepped : accept_request r Handler g marshal unmarshal received now then_now req s
                  ≡ answer r Handler g marshal unmarshal x =
                rw (ahead, there, accept_request) in
              elim (Bool-cases x.1) [
                | inr failed ↦ rw (stepped ∙ answer-false x failed) (
                    given_back refl (schedule_one_time_job-failed now then_now req run_at s failed))
                | inl done ↦
                    rw (stepped ∙ answer-true x done)
                      (accepted refl (schedule_one_time_job-Tracked now then_now req run_at s done))
              ]
        ]
      ]
