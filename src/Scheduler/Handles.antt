-- ===== src/Scheduler/Handles.antt =====
-- The jobs that gocron runs for the tracked ids (cmd/scheduler/handler.go).
use eve_industry_planner_sta.Prelude.{
  ℕ, String, ◌≡◌, ◌≢◌, sym, ap, ◌∙◌, arith, Bool, true, false, Option, some, Bool-cases,
  Option-cases, inl, inr, eq_iff,
}
use Prim.Native.String.{◌++◌}
use eve_industry_planner_sta.Prelude.Int.{ℤ}
use eve_industry_planner_sta.Prelude.Dict.{
  Dict, lookup, insert, delete, insert_cases, lookup-delete,
}
use eve_industry_planner_sta.Redis.{Redis}
use eve_industry_planner_sta.Scheduler.{
  JobFunc, cron_func, OneTimeJob, State, requestable_task_type, persist, track,
  schedule_one_time_job, remove_one_time_job, register_handler,
}
use eve_industry_planner_sta.Scheduler.Library.{Gocron}
use eve_industry_planner_sta.Scheduler.Cron.{schedule_cron_job, new_task_scheduler}
use eve_industry_planner_sta.Scheduler.Requests.{persist-same}
use eve_industry_planner_sta.Scheduler.Turns.{
  Turn, registered, cron, restored, requested, ended, Reach, here, later, receive_request,
}
use eve_industry_planner_sta.Scheduler.Preserved.{
  process_schedule_request-Holds, restore_one_time_jobs-Holds,
}

module _ {Func : Type 0} (g : Gocron Func) where
  open g use {Jobs, scheduled, new_job, remove_job}

  -- Every tracked id leads to a scheduled job, and no two ids to the same one.
  pub record Sound (js : Jobs) (m : Dict ℕ) : Type 0 where
    pub running : (job_id : String) (j : ℕ) → lookup job_id m ≡ some j → scheduled j js ≡ true
    pub apart : (a b : String) (j : ℕ) → lookup a m ≡ some j → lookup b m ≡ some j → a ≡ b

  Sound-kept :
      (js js' : Jobs) (m : Dict ℕ)
      → ((j : ℕ) → scheduled j js ≡ true → scheduled j js' ≡ true)
      → Sound js m
      → Sound js' m
  Sound-kept js js' m h s = record {
    running = λ job_id j e. h j (s.running job_id j e);
    apart = s.apart;
  }

  Sound-insert :
      (js js' : Jobs) (m : Dict ℕ) (job_id : String) (j : ℕ)
      → ((k : ℕ) → scheduled k js ≡ true → scheduled k js' ≡ true)
      → scheduled j js ≡ false
      → scheduled j js' ≡ true
      → Sound js m
      → Sound js' (insert job_id j m)
  Sound-insert js js' m job_id j h fresh there s =
      let old : (a : String) → lookup a m ≢ some j =
        λ a e. ground (arith, fresh, s.running a j e) in
      record {
        running = λ a k e. elim (insert_cases job_id a j k m e) [
          | inl (_, same) ↦ ap (λ k. scheduled k js') (sym same) ∙ there
          | inr before ↦ h k (s.running a k before)
        ];
        apart = λ a b k e f. elim (insert_cases job_id a j k m e) [
          | inl (is_a, same) ↦ elim (insert_cases job_id b j k m f) [
            | inl (is_b, _) ↦ sym is_a ∙ is_b
            | inr before ↦ absurd (old b (before ∙ ap (λ k. some k) (sym same)))
          ]
          | inr before ↦ elim (insert_cases job_id b j k m f) [
            | inl (_, same) ↦ absurd (old a (before ∙ ap (λ k. some k) (sym same)))
            | inr before_b ↦ s.apart a b k before before_b
          ]
        ];
      }

  -- What is left in the map was there under another id.
  delete_cases :
      (job_id a : String) (k : ℕ) (m : Dict ℕ)
      → lookup a (delete job_id m) ≡ some k
      → (a ≢ job_id) × (lookup a m ≡ some k)
  delete_cases job_id a k m e = (
    (λ same. ground (arith, same, eq_iff a job_id, lookup-delete m a job_id, e)),
    ground (arith, lookup-delete m a job_id, e),
  )

  Sound-delete :
      (js : Jobs) (m : Dict ℕ) (job_id : String) → Sound js m → Sound js (delete job_id m)
  Sound-delete js m job_id s = record {
    running = λ a k e. s.running a k (delete_cases job_id a k m e).1;
    apart =
        λ a b k e f. s.apart a b k (delete_cases job_id a k m e).1 (delete_cases job_id b k m f).1;
  }

  Sound-removed :
      (js : Jobs) (m : Dict ℕ) (job_id : String) (j : ℕ)
      → lookup job_id m ≡ some j
      → Sound js m
      → Sound (remove_job j js).0 (delete job_id m)
  Sound-removed js m job_id j found s = record {
    running = λ a k e.
        let (other, before) = delete_cases job_id a k m e in
        g.scheduled-remove_job_ne j k js
          (λ same. other (s.apart a job_id k before (found ∙ ap (λ k. some k) same)))
        ∙ s.running a k before;
    apart = (Sound-delete js m job_id s).apart;
  }

module _ (r : Redis) (Handler : Type 0) (g : Gocron (JobFunc Handler))
    (marshal : OneTimeJob → Option String) (unmarshal : String → Option OneTimeJob) where
  open g use {Jobs, scheduled, new_job, new_cron_job, remove_job}

  abbrev pub SoundState : State r Handler g marshal unmarshal → Type 0
  SoundState s = Sound g s.jobs s.one_time_jobs

  persist-Sound :
      (job : OneTimeJob) (s : State r Handler g marshal unmarshal)
      → SoundState s
      → SoundState (persist r Handler g marshal unmarshal job s)
  persist-Sound job s h =
      let (same_tracked, same_jobs) = persist-same r Handler g marshal unmarshal job s in
      rw (same_tracked, same_jobs) h

  track-Sound :
      (d : ℤ) (f : JobFunc Handler) (a b : String) (job : OneTimeJob)
      (s : State r Handler g marshal unmarshal)
      → SoundState s
      → SoundState (track r Handler g marshal unmarshal job (new_job d f a b s.jobs) s).0
  unfolding track
  track-Sound d f a b job s h = elim (Option-cases (new_job d f a b s.jobs).1) [
    | inl failed ↦
        rw (failed, track)
          (Sound-kept g s.jobs (new_job d f a b s.jobs).0 s.one_time_jobs
            (g.scheduled-new_job_ne d f a b s.jobs) h)
    | inr (j, made) ↦
        let (fresh, there) = g.scheduled-new_job d f a b s.jobs j made in
        rw (made, track)
          (persist-Sound job _ (
            Sound-insert g s.jobs (new_job d f a b s.jobs).0 s.one_time_jobs job.job_id j
              (g.scheduled-new_job_ne d f a b s.jobs) fresh there h))
  ]

  schedule_one_time_job-Sound :
      (now then_now : ℤ) (job : OneTimeJob) (run_at : ℤ) (s : State r Handler g marshal unmarshal)
      → SoundState s
      → SoundState (schedule_one_time_job r Handler g marshal unmarshal now then_now job run_at s).0
  unfolding schedule_one_time_job
  schedule_one_time_job-Sound now then_now job run_at s h =
      elim (Bool-cases (requestable_task_type job.task_type)) [
        | inr refused ↦ rw (refused, schedule_one_time_job) h
        | inl allowed ↦ elim (Option-cases (lookup job.task_type s.handlers)) [
          | inl missing ↦ rw (allowed, missing, schedule_one_time_job) h
          | inr (handler, there) ↦
              rw (allowed, there, schedule_one_time_job) (track-Sound _ _ _ _ _ s h)
        ]
      ]

  remove_one_time_job-Sound :
      (job_id : String) (s : State r Handler g marshal unmarshal)
      → SoundState s
      → SoundState (remove_one_time_job r Handler g marshal unmarshal job_id s)
  unfolding remove_one_time_job
  remove_one_time_job-Sound job_id s h = elim (Option-cases (lookup job_id s.one_time_jobs)) [
    | inl missing ↦
        rw (missing, remove_one_time_job) (Sound-delete g s.jobs s.one_time_jobs job_id h)
    | inr (j, found) ↦
        rw (found, remove_one_time_job) (Sound-removed g s.jobs s.one_time_jobs job_id j found h)
  ]

  schedule_cron_job-Sound :
      (expr task_type : String) (s : State r Handler g marshal unmarshal)
      → SoundState s
      → SoundState (schedule_cron_job r Handler g marshal unmarshal expr task_type s).0
  unfolding schedule_cron_job
  schedule_cron_job-Sound expr task_type s h = elim (Option-cases (lookup task_type s.handlers)) [
    | inl missing ↦ rw (missing, schedule_cron_job) h
    | inr (handler, there) ↦
        rw (there, schedule_cron_job)
          (Sound-kept g s.jobs
            (new_cron_job expr (cron_func handler task_type) ("cron:" ++ task_type) s.jobs).0
            s.one_time_jobs
            (g.scheduled-new_cron_job_ne expr (cron_func handler task_type) ("cron:" ++ task_type)
              s.jobs)
            h)
  ]

  Turn-Sound :
      {s s' : State r Handler g marshal unmarshal}
      → Turn r Handler g marshal unmarshal s s'
      → SoundState s
      → SoundState s'
  unfolding register_handler receive_request
  Turn-Sound (registered task_type handler) h = h
  Turn-Sound {s} (cron expr task_type) h = schedule_cron_job-Sound expr task_type s h
  Turn-Sound {s} (restored started at scanned) h =
      restore_one_time_jobs-Holds r Handler g marshal unmarshal (Sound g)
        schedule_one_time_job-Sound started at scanned s h
  Turn-Sound {s} (requested m) h =
      process_schedule_request-Holds r Handler g marshal unmarshal (Sound g)
        schedule_one_time_job-Sound m.received m.now m.then_now m.generated m.request s h
  Turn-Sound {s} (ended job_id) h = remove_one_time_job-Sound job_id s h

  -- In every run of a new scheduler, each tracked id leads to a job that gocron has scheduled, and no
  -- two ids lead to the same job.
  pub Reach-Sound :
      (jobs : Jobs) (has_redis : Bool) (store : r.Store) {s : State r Handler g marshal unmarshal}
      → Reach r Handler g marshal unmarshal
          (new_task_scheduler r Handler g marshal unmarshal jobs has_redis store)
          s
      → Sound g s.jobs s.one_time_jobs
  unfolding new_task_scheduler lookup
  Reach-Sound jobs has_redis store here = record {
    running = λ job_id j e. absurd (ground (arith, e));
    apart = λ a b j e f. absurd (ground (arith, e));
  }
  Reach-Sound jobs has_redis store (later before turn) =
      Turn-Sound turn (Reach-Sound jobs has_redis store before)
