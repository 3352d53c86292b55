-- ===== src/Scheduler.antt =====
-- The one-time jobs of the scheduler service (cmd/scheduler/handler.go). JSON is two functions. The
-- handlers are looked up here, and run in a module of their own.
pub mod Requests
pub mod Restart
pub mod Restored
pub mod Captured
pub mod Reschedule
pub mod JobList
pub mod Library
pub mod Cron
pub mod Turns
pub mod Preserved
pub mod Handles
pub mod Registry
pub mod Shown
pub mod Finished
pub mod Client
pub mod EndToEnd
mod Published
pub mod Examples
mod Runs
use eve_industry_planner_sta.Prelude.{
  ℕ, String, ◌≡◌, ◌≢◌, Bool, true, false, not, List, [], ◌∷◌, Option, none, some, ◌||◌, ◌/◌,
  if◌then◌else◌, str_eq,
}
use Prim.Native.String.{◌++◌}
use eve_industry_planner_sta.Prelude.Int.{ℤ, pos, negsuc, ◌+ℤ◌, ◌-ℤ◌, ltb_ℤ}
use eve_industry_planner_sta.Prelude.Word.{mul64}
use eve_industry_planner_sta.Prelude.Dict.{Dict, lookup, insert, delete}
use eve_industry_planner_sta.Nats.{Call, ack, nak}
use eve_industry_planner_sta.Redis.{Redis, save_json}
use eve_industry_planner_sta.Scheduler.Library.{Gocron}

-- `payload` is the field `Data`.
pub record OneTimeJob : Type 0 where
  pub job_id : String
  pub task_type : String
  pub run_at : ℤ
  pub payload : String

-- A request from the stream, and a stored job, have the same fields.
abbrev pub ScheduleRequest : Type 0
ScheduleRequest = OneTimeJob

pub record TaskScheduler (Jobs Store Handler : Type 0) : Type 0 where
  pub jobs : Jobs
  pub store : Store
  pub has_redis : Bool
  pub handlers : Dict Handler
  pub one_time_jobs : Dict ℕ

-- The functions that are given to gocron, with the variables that they capture: the handler, the id,
-- the task type and the data of a one-time job, and the handler and the task type of a cron job.
pub data JobFunc (Handler : Type 0) : Type 0 where
  one_time_func : Handler → String → String → String → JobFunc Handler
  cron_func : Handler → String → JobFunc Handler

unfoldable pub requestable_task_type : String → Bool
requestable_task_type t = str_eq t "refreshSystemIndexes" || str_eq t "refreshAdjustedPrices"

abbrev pub one_time_job_key : String → String
one_time_job_key job_id = "scheduler:onetime:" ++ job_id

-- time.UnixMilli and time.Unix(0, millis * 1e6), an instant as nanoseconds since the Unix epoch.
unfoldable pub unix_milli : ℤ → ℤ
unix_milli (pos n) = pos (n / 1_000_000)
unix_milli (negsuc n) = negsuc (n / 1_000_000)

unfoldable pub from_milli : ℤ → ℤ
from_milli millis = mul64 millis (pos 1_000_000)

-- The instant that a job is scheduled for: in five seconds for one that is not in the future.
unfoldable pub soon : ℤ → ℤ → ℤ
soon now run_at = if ltb_ℤ now run_at then run_at else now +ℤ pos 5_000_000_000

unfoldable pub delay : ℤ → ℤ → ℤ
delay now run_at = if ltb_ℤ (run_at -ℤ now) (pos 0) then pos 5_000_000_000 else run_at -ℤ now

module _ (r : Redis) (Handler : Type 0) (g : Gocron (JobFunc Handler))
    (marshal : OneTimeJob → Option String) (unmarshal : String → Option OneTimeJob) where
  open r use {Store, get, set, del}
  open g use {Jobs, new_job, remove_job}

  abbrev pub State : Type 0
  State = TaskScheduler Jobs Store Handler

  unfoldable pub register_handler : String → Handler → State → State
  register_handler task_type h s = record s { handlers = insert task_type h s.handlers }

  -- The job is stored if there is a Redis client; a failure is only logged.
  unfoldable pub persist : OneTimeJob → State → State
  persist job s =
      if s.has_redis
      then record s { store = (save_json r (one_time_job_key job.job_id) (marshal job) s.store).0 }
      else s

  -- Once gocron has the job: it is tracked and stored.
  unfoldable pub track : OneTimeJob → Jobs × Option ℕ → State → State × Bool
  track job (js, none) s = (record s { jobs = js }, false)
  track job (js, some j) s = (
    persist job (record s { jobs = js; one_time_jobs = insert job.job_id j s.one_time_jobs }),
    true,
  )

  -- Whether it was scheduled; `now` and `then` are its two readings of the clock.
  unfoldable pub schedule_one_time_job : ℤ → ℤ → OneTimeJob → ℤ → State → State × Bool
  unfolding track
  schedule_one_time_job now then_now job run_at s =
      if requestable_task_type job.task_type
      then elim (lookup job.task_type s.handlers) [
        | none ↦ (s, false)
        | some h ↦
            let at = soon now run_at in
            track (record job { run_at = unix_milli at })
              (new_job (delay then_now at) (one_time_func h job.job_id job.task_type job.payload)
                ("onetime:" ++ job.job_id) ("task:" ++ job.task_type) s.jobs)
              s
      ]
      else (s, false)

  unfoldable pub remove_one_time_job : String → State → State
  remove_one_time_job job_id s =
      let js : Jobs = elim (lookup job_id s.one_time_jobs) [
        | none ↦ s.jobs
        | some j ↦ (remove_job j s.jobs).0
      ] in
      record s {
        jobs = js;
        one_time_jobs = delete job_id s.one_time_jobs;
        store = if s.has_redis then (del (one_time_job_key job_id) s.store).0 else s.store;
      }

  -- The request with its job id: its own, or the generated one, if that succeeds.
  unfoldable pub with_job_id : Option String → ScheduleRequest → Option ScheduleRequest
  with_job_id generated req =
      if str_eq req.job_id ""
      then (elim generated [ none ↦ none | some job_id ↦ some (record req { job_id = job_id }) ])
      else some req

  -- What is said of a request by whether it was scheduled.
  unfoldable pub answer : State × Bool → State × Call
  answer (s, true) = (s, ack)
  answer (s, false) = (s, nak)

  -- A request with its id: dropped if it is late or has no handler. The clock is read at three points.
  unfoldable pub accept_request : ℤ → ℤ → ℤ → ScheduleRequest → State → State × Call
  unfolding answer
  accept_request received now then_now req s =
      let run_at = from_milli req.run_at in
      if ltb_ℤ received run_at
      then elim (lookup req.task_type s.handlers) [
        | none ↦ (s, ack)
        | some h ↦ answer (schedule_one_time_job now then_now req run_at s)
      ]
      else (s, ack)

  -- `message` is the parsed message, `generated` the result of `generateJobID`.
  unfoldable pub process_schedule_request :
      ℤ → ℤ → ℤ → Option String → Option ScheduleRequest → State → State × Call
  unfolding accept_request
  process_schedule_request received now then_now generated none s = (s, nak)
  process_schedule_request received now then_now generated (some message) s =
      elim (with_job_id generated message) [
        | none ↦ (s, nak)
        | some req ↦ accept_request received now then_now req s
      ]

  -- One stored job at a restart: discarded if it does not parse, is late, or cannot be scheduled.
  unfoldable pub discard : String → State → State
  discard key s = record s { store = (del key s.store).0 }

  unfoldable pub kept_or_discarded : String → State × Bool → State
  kept_or_discarded key (s, true) = s
  kept_or_discarded key (s, false) = discard key s

  unfoldable pub restore_job : ℤ → ℤ → ℤ → String → OneTimeJob → State → State
  unfolding kept_or_discarded discard
  restore_job started now then_now key job s =
      let run_at = from_milli job.run_at in
      if ltb_ℤ started run_at
      then elim (lookup job.task_type s.handlers) [
        | none ↦ discard key s
        | some h ↦
            if requestable_task_type job.task_type
            then kept_or_discarded key (schedule_one_time_job now then_now job run_at s)
            else discard key s
      ]
      else discard key s

  unfoldable pub restore_key : ℤ → (String → ℤ × ℤ) → String → State → State
  unfolding restore_job discard
  restore_key started at key s = elim (get key s.store) [
    | none ↦ s
    | some text ↦ elim (unmarshal text) [
      | none ↦ discard key s
      | some job ↦ restore_job started (at key).0 (at key).1 key job s
    ]
  ]

  unfoldable pub restore_keys : ℤ → (String → ℤ × ℤ) → List String → State → State
  unfolding restore_key
  restore_keys started at [] s = s
  restore_keys started at (key ∷ rest) s =
      restore_keys started at rest (restore_key started at key s)

  -- `scanned` is what the scan of the keys returns; the clock is read for each key.
  unfoldable pub restore_one_time_jobs :
      ℤ → (String → ℤ × ℤ) → Option (List String) → State → State × Bool
  unfolding restore_keys
  restore_one_time_jobs started at scanned s =
      if s.has_redis
      then elim scanned [ none ↦ (s, false) | some keys ↦ (restore_keys started at keys s, true) ]
      else (s, true)
