-- ===== src/Scheduler/Restored.antt =====
-- A scheduler that restores its one-time jobs at its start (cmd/scheduler/handler.go).
use eve_industry_planner_sta.Prelude.{
  ℕ, String, ◌≡◌, Bool, true, false, List, [], ◌∷◌, Option, some, ◌⊎◌, ◌||◌, str_eq,
}
use eve_industry_planner_sta.Prelude.Dict.{Dict, lookup}
use eve_industry_planner_sta.Redis.{Redis}
use eve_industry_planner_sta.Scheduler.Library.{Gocron}
use eve_industry_planner_sta.Scheduler.{JobFunc, OneTimeJob, State, one_time_job_key}
use eve_industry_planner_sta.Scheduler.Requests.{Tracked}

abbrev pub occurs : String → List String → Bool
occurs key [] = false
occurs key (x ∷ rest) = str_eq x key || occurs key rest

module _ (r : Redis) (Handler : Type 0) (g : Gocron (JobFunc Handler))
    (marshal : OneTimeJob → Option String) (unmarshal : String → Option OneTimeJob) where
  open r use {Store, get, set, del}
  open g use {Jobs, scheduled}

  -- A tracked id, told from the jobs of gocron and the tracked ids.
  abbrev Follows : String → Jobs → Dict ℕ → Type 0
  Follows id js m = (j : ℕ) × (lookup id m ≡ some j) × (scheduled j js ≡ true)

  module _ (task_type id text : String) (h : Handler) where
    -- The stored job is as it was, and its task type has its handler.
    record Ready (s : State r Handler g marshal unmarshal) : Type 0 where
      stored : get (one_time_job_key id) s.store ≡ some text
      handled : lookup task_type s.handlers ≡ some h

    -- While the other keys are restored, unless one of them holds a job of the same id.
    abbrev Waits : State r Handler g marshal unmarshal → Type 0
    Waits s = Tracked r Handler g marshal unmarshal id s ⊎ Ready s
