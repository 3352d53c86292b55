-- ===== src/Scheduler/Shown.antt =====
-- What HasScheduledJob says once the service has started (cmd/scheduler/handler.go,
-- cmd/scheduler/registry.go).
use eve_industry_planner_sta.Prelude.{
  ℕ, String, ◌≡◌, ◌≢◌, refl, ap, ◌∙◌, arith, true, List, [], ◌∷◌, Option, none, some, Bool-cases,
  Option-cases, inl, inr, eq_iff, ◌||◌,
}
use Prim.Native.String.{◌++◌}
use eve_industry_planner_sta.Prelude.Int.{ℤ}
use eve_industry_planner_sta.Prelude.Dict.{lookup, insert, lookup-insert}
use eve_industry_planner_sta.Redis.{Redis}
use eve_industry_planner_sta.Scheduler.{
  JobFunc, one_time_func, cron_func, OneTimeJob, State, requestable_task_type, soon, delay, track,
  schedule_one_time_job, register_handler,
}
use eve_industry_planner_sta.Scheduler.Library.{Gocron, is_tag, is_tagged}
use eve_industry_planner_sta.Scheduler.Cron.{
  shows_type, any_shows_type, has_scheduled_job, schedule_cron_job, was_made,
}
use eve_industry_planner_sta.Scheduler.Requests.{persist-same}
use eve_industry_planner_sta.Scheduler.Preserved.{restore_one_time_jobs-Holds}
use eve_industry_planner_sta.Scheduler.Registry.{
  register_all, registry_start, schedulers, schedule_industry_systems_refresh,
  schedule_adjusted_prices_refresh,
}

shows_type-is_tag :
    (t : String) (tags : List String)
    → shows_type t tags ≡ (is_tag t tags || is_tag ("cron:" ++ t) tags)
unfolding shows_type is_tag
shows_type-is_tag t [] = refl
shows_type-is_tag t (tag ∷ rest) = ground (arith, shows_type-is_tag t rest)

any_shows_type-is_tagged :
    (t : String) (jobs : List (List String))
    → any_shows_type t jobs ≡ (is_tagged t jobs || is_tagged ("cron:" ++ t) jobs)
unfolding any_shows_type is_tagged
any_shows_type-is_tagged t [] = refl
any_shows_type-is_tagged t (tags ∷ rest) =
    ground (arith, any_shows_type-is_tagged t rest, shows_type-is_tag t tags)

module _ (r : Redis) (Handler : Type 0) (g : Gocron (JobFunc Handler))
    (marshal : OneTimeJob → Option String) (unmarshal : String → Option OneTimeJob) where
  open g use {Jobs, new_job, new_cron_job, tags}

  -- No one-time job takes a tag away.
  is_tagged-new_job_kept :
      (d : ℤ) (f : JobFunc Handler) (a b x : String) (js : Jobs)
      → is_tagged x (tags js) ≡ true
      → is_tagged x (tags (new_job d f a b js).0) ≡ true
  is_tagged-new_job_kept d f a b x js h = elim (Option-cases (new_job d f a b js).1) [
    | inl failed ↦ g.is_tagged-new_job_failed d f a b x js failed ∙ h
    | inr (j, made) ↦ ground (arith, g.is_tagged-new_job d f a b x js j made, h)
  ]

  jobs-track :
      (job : OneTimeJob) (made : Jobs × Option ℕ) (s : State r Handler g marshal unmarshal)
      → (track r Handler g marshal unmarshal job made s).0.jobs ≡ made.0
  unfolding track
  jobs-track job (js, none) s = refl
  jobs-track job (js, some j) s = (persist-same r Handler g marshal unmarshal job _).1

  schedule_one_time_job-keeps_tag :
      (x : String) (now then_now : ℤ) (job : OneTimeJob) (run_at : ℤ)
      (s : State r Handler g marshal unmarshal)
      → is_tagged x (tags s.jobs) ≡ true
      → is_tagged x (
          tags
            (schedule_one_time_job r Handler g marshal unmarshal now then_now job run_at s).0.jobs)
        ≡ true
  unfolding schedule_one_time_job
  schedule_one_time_job-keeps_tag x now then_now job run_at s h =
      elim (Bool-cases (requestable_task_type job.task_type)) [
        | inr refused ↦ rw (refused, schedule_one_time_job) h
        | inl allowed ↦ elim (Option-cases (lookup job.task_type s.handlers)) [
          | inl missing ↦ rw (allowed, missing, schedule_one_time_job) h
          | inr (handler, there) ↦
              rw (allowed, there, schedule_one_time_job)
                (ap (λ js. is_tagged x (tags js)) (jobs-track _ _ s)
                  ∙ is_tagged-new_job_kept (delay then_now (soon now run_at))
                      (one_time_func handler job.job_id job.task_type job.payload)
                      ("onetime:" ++ job.job_id) ("task:" ++ job.task_type) x s.jobs h)
        ]
      ]

  shown :
      (t : String) (s : State r Handler g marshal unmarshal)
      → is_tagged ("cron:" ++ t) (tags s.jobs) ≡ true
      → has_scheduled_job r Handler g marshal unmarshal t s ≡ true
  unfolding has_scheduled_job
  shown t s h = ground (arith, any_shows_type-is_tagged t (tags s.jobs), h)

  schedule_cron_job-keeps_tag :
      (expr t x : String) (s : State r Handler g marshal unmarshal)
      → is_tagged x (tags s.jobs) ≡ true
      → is_tagged x (tags (schedule_cron_job r Handler g marshal unmarshal expr t s).0.jobs) ≡ true
  unfolding schedule_cron_job
  schedule_cron_job-keeps_tag expr t x s h = elim (Option-cases (lookup t s.handlers)) [
    | inl missing ↦ rw (missing, schedule_cron_job) h
    | inr (handler, there) ↦
        rw (there, schedule_cron_job)
          (elim (Option-cases (new_cron_job expr (cron_func handler t) ("cron:" ++ t) s.jobs).1) [
            | inl failed ↦
                g.is_tagged-new_cron_job_failed expr (cron_func handler t) ("cron:" ++ t) x s.jobs
                  failed
                ∙ h
            | inr (j, made) ↦ ground (
              arith,
              g.is_tagged-new_cron_job expr (cron_func handler t) ("cron:" ++ t) x s.jobs j made,
              h,
            )
          ])
  ]

  schedule_cron_job-tags :
      (expr t : String) (s : State r Handler g marshal unmarshal) (handler : Handler)
      → lookup t s.handlers ≡ some handler
      → (schedule_cron_job r Handler g marshal unmarshal expr t s).1 ≡ true
      → is_tagged
          ("cron:" ++ t)
          (tags (schedule_cron_job r Handler g marshal unmarshal expr t s).0.jobs)
        ≡ true
  unfolding schedule_cron_job was_made
  schedule_cron_job-tags expr t s handler there done =
      elim (Option-cases (new_cron_job expr (cron_func handler t) ("cron:" ++ t) s.jobs).1) [
        | inl failed ↦ absurd (ground (arith, there, failed, done))
        | inr (j, made) ↦
            rw (there, schedule_cron_job)
              (ground (
                arith,
                g.is_tagged-new_cron_job expr (cron_func handler t) ("cron:" ++ t) ("cron:" ++ t)
                    s.jobs j made,
                eq_iff ("cron:" ++ t) ("cron:" ++ t),
              ))
      ]

  schedule_cron_job-taken :
      (expr t : String) (s : State r Handler g marshal unmarshal)
      → ((f : JobFunc Handler) (a : String) (js : Jobs) → (new_cron_job expr f a js).1 ≢ none)
      → (schedule_cron_job r Handler g marshal unmarshal expr t s).1 ≡ true
  unfolding schedule_cron_job was_made
  schedule_cron_job-taken expr t s takes = elim (Option-cases (lookup t s.handlers)) [
    | inl missing ↦ rw (missing, schedule_cron_job) refl
    | inr (handler, there) ↦
        elim (Option-cases (new_cron_job expr (cron_func handler t) ("cron:" ++ t) s.jobs).1) [
          | inl failed ↦ absurd (takes (cron_func handler t) ("cron:" ++ t) s.jobs failed)
          | inr (j, made) ↦ ground (arith, there, made)
        ]
  ]

  handlers-schedule_cron_job :
      (expr t : String) (s : State r Handler g marshal unmarshal)
      → (schedule_cron_job r Handler g marshal unmarshal expr t s).0.handlers ≡ s.handlers
  unfolding schedule_cron_job
  handlers-schedule_cron_job expr t s = ground arith

  handled :
      (publish_indexes publish_prices : Handler) (s : State r Handler g marshal unmarshal)
      → (lookup "refreshSystemIndexes"
            (register_all r Handler g marshal unmarshal
              (schedulers r Handler g marshal unmarshal publish_indexes publish_prices)
              s).handlers
          ≡ some publish_indexes)
        × (lookup "refreshAdjustedPrices"
              (register_all r Handler g marshal unmarshal
                (schedulers r Handler g marshal unmarshal publish_indexes publish_prices)
                s).handlers
            ≡ some publish_prices)
  unfolding register_all schedulers schedule_industry_systems_refresh
      schedule_adjusted_prices_refresh register_handler
  handled publish_indexes publish_prices s =
      let m = insert "refreshSystemIndexes" publish_indexes s.handlers in
      (
        ground (
          arith,
          lookup-insert m "refreshSystemIndexes" "refreshAdjustedPrices" publish_prices,
          lookup-insert s.handlers "refreshSystemIndexes" "refreshSystemIndexes" publish_indexes,
        ),
        ground
            (arith, lookup-insert m "refreshAdjustedPrices" "refreshAdjustedPrices" publish_prices),
      )

  -- Once the service has registered its two refreshes and started, HasScheduledJob is true of both
  -- their types, whatever jobs were restored, if gocron takes every cron job of the service's
  -- schedule.
  pub registry_start-shows :
      (publish_indexes publish_prices : Handler) (started : ℤ) (at : String → ℤ × ℤ)
      (scanned : Option (List String)) (s : State r Handler g marshal unmarshal)
      → ((f : JobFunc Handler) (a : String) (js : Jobs)
          → (new_cron_job "*/5 * * * *" f a js).1 ≢ none)
      → (has_scheduled_job r Handler g marshal unmarshal "refreshSystemIndexes" (
            registry_start r Handler g marshal unmarshal
              (schedulers r Handler g marshal unmarshal publish_indexes publish_prices)
              started
              at
              scanned
              s)
          ≡ true)
        × (has_scheduled_job r Handler g marshal unmarshal "refreshAdjustedPrices" (
              registry_start r Handler g marshal unmarshal
                (schedulers r Handler g marshal unmarshal publish_indexes publish_prices)
                started
                at
                scanned
                s)
            ≡ true)
  unfolding registry_start
  registry_start-shows publish_indexes publish_prices started at scanned s takes =
      let s1 : State r Handler g marshal unmarshal =
        register_all r Handler g marshal unmarshal
          (schedulers r Handler g marshal unmarshal publish_indexes publish_prices) s in
      let (there1, there2) = handled publish_indexes publish_prices s in
      let expr : String = "*/5 * * * *" in
      let s2 : State r Handler g marshal unmarshal =
        (schedule_cron_job r Handler g marshal unmarshal expr "refreshSystemIndexes" s1).0 in
      let s3 : State r Handler g marshal unmarshal =
        (schedule_cron_job r Handler g marshal unmarshal expr "refreshAdjustedPrices" s2).0 in
      let indexes : is_tagged "cron:refreshSystemIndexes" (tags s3.jobs) ≡ true =
        schedule_cron_job-keeps_tag expr "refreshAdjustedPrices" "cron:refreshSystemIndexes" s2 (
          schedule_cron_job-tags expr "refreshSystemIndexes" s1 publish_indexes there1
            (schedule_cron_job-taken expr "refreshSystemIndexes" s1 takes)) in
      let prices : is_tagged "cron:refreshAdjustedPrices" (tags s3.jobs) ≡ true =
        schedule_cron_job-tags expr "refreshAdjustedPrices" s2 publish_prices
          (ap (λ m. lookup "refreshAdjustedPrices" m)
              (handlers-schedule_cron_job expr "refreshSystemIndexes" s1)
            ∙ there2)
          (schedule_cron_job-taken expr "refreshAdjustedPrices" s2 takes) in
      (
        shown "refreshSystemIndexes" _ (
            restore_one_time_jobs-Holds r Handler g marshal unmarshal
              (λ js m. is_tagged "cron:refreshSystemIndexes" (tags js) ≡ true)
              (schedule_one_time_job-keeps_tag "cron:refreshSystemIndexes") started at scanned s3
              indexes),
        shown "refreshAdjustedPrices" _ (
            restore_one_time_jobs-Holds r Handler g marshal unmarshal
              (λ js m. is_tagged "cron:refreshAdjustedPrices" (tags js) ≡ true)
              (schedule_one_time_job-keeps_tag "cron:refreshAdjustedPrices") started at scanned s3
              prices),
      )
