-- ===== src/Scheduler/Library.antt =====
-- gocron, as far as the scheduler uses it (cmd/scheduler/handler.go): its operations, and what its
-- documentation says of them.
use eve_industry_planner_sta.Prelude.{
  ℕ, String, ◌≡◌, ◌≢◌, Bool, true, false, List, [], ◌∷◌, Option, none, some, ◌||◌, str_eq,
}
use eve_industry_planner_sta.Prelude.Int.{ℤ}

-- Whether one of the jobs' tags is the one given.
unfoldable pub is_tag : String → List String → Bool
is_tag x [] = false
is_tag x (tag ∷ rest) = str_eq tag x || is_tag x rest

unfoldable pub is_tagged : String → List (List String) → Bool
is_tagged x [] = false
is_tagged x (tags ∷ rest) = is_tag x tags || is_tagged x rest

-- `NewJob` of a `DurationJob` with two tags and of a `CronJob` with one, `RemoveJob`, and the tags of
-- `Jobs`. What `NewTask` wraps is a function of the caller, which `task` tells of a job's number. A
-- job that was made has its function and is scheduled, again and again, and shows its tags, under a number of
-- its own until it is removed; no operation touches another, and one that fails shows no new tags.
pub record Gocron (Func : Type 0) : Type 1 where
  pub Jobs : Type 0
  pub scheduled : ℕ → Jobs → Bool
  pub task : ℕ → Jobs → Option Func
  pub new_job : ℤ → Func → String → String → Jobs → Jobs × Option ℕ
  pub new_cron_job : String → Func → String → Jobs → Jobs × Option ℕ
  pub remove_job : ℕ → Jobs → Jobs × Bool
  pub tags : Jobs → List (List String)
  pub task-new_job :
      (d : ℤ) (f : Func) (a b : String) (js : Jobs) (j : ℕ)
      → (new_job d f a b js).1 ≡ some j
      → task j (new_job d f a b js).0 ≡ some f
  pub scheduled-new_job :
      (d : ℤ) (f : Func) (a b : String) (js : Jobs) (j : ℕ)
      → (new_job d f a b js).1 ≡ some j
      → (scheduled j js ≡ false) × (scheduled j (new_job d f a b js).0 ≡ true)
  pub scheduled-new_job_ne :
      (d : ℤ) (f : Func) (a b : String) (js : Jobs) (k : ℕ)
      → scheduled k js ≡ true
      → scheduled k (new_job d f a b js).0 ≡ true
  pub scheduled-new_cron_job_ne :
      (expr : String) (f : Func) (a : String) (js : Jobs) (k : ℕ)
      → scheduled k js ≡ true
      → scheduled k (new_cron_job expr f a js).0 ≡ true
  pub scheduled-remove_job_ne :
      (j k : ℕ) (js : Jobs) → j ≢ k → scheduled k (remove_job j js).0 ≡ scheduled k js
  pub scheduled-remove_job :
      (j : ℕ) (js : Jobs) → (remove_job j js).1 ≡ true → scheduled j (remove_job j js).0 ≡ false
  pub is_tagged-new_job :
      (d : ℤ) (f : Func) (a b x : String) (js : Jobs) (j : ℕ)
      → (new_job d f a b js).1 ≡ some j
      → is_tagged x (tags (new_job d f a b js).0)
        ≡ ((str_eq a x || str_eq b x) || is_tagged x (tags js))
  pub is_tagged-new_cron_job :
      (expr : String) (f : Func) (a x : String) (js : Jobs) (j : ℕ)
      → (new_cron_job expr f a js).1 ≡ some j
      → is_tagged x (tags (new_cron_job expr f a js).0) ≡ (str_eq a x || is_tagged x (tags js))
  pub is_tagged-new_job_failed :
      (d : ℤ) (f : Func) (a b x : String) (js : Jobs)
      → (new_job d f a b js).1 ≡ none
      → is_tagged x (tags (new_job d f a b js).0) ≡ is_tagged x (tags js)
  pub is_tagged-new_cron_job_failed :
      (expr : String) (f : Func) (a x : String) (js : Jobs)
      → (new_cron_job expr f a js).1 ≡ none
      → is_tagged x (tags (new_cron_job expr f a js).0) ≡ is_tagged x (tags js)
