-- ===== src/Scheduler/JobList.antt =====
-- Jobs in a list, for the examples of the scheduler (cmd/scheduler/handler.go).
use eve_industry_planner_sta.Prelude.{
  ℕ, zero, suc, ◌<◌, String, ◌≡◌, ◌≢◌, refl, ap, ◌∙◌, arith, Bool, true, false, ◌||◌, List, [], ◌∷◌,
  ◌++◌, Option, none, some, length, get_elem?, set, get_elem?-append_last, get_elem?-append_left,
  get_elem?-set_ne, str_eq,
}
use eve_industry_planner_sta.Prelude.Int.{ℤ}
use eve_industry_planner_sta.Scheduler.Library.{Gocron, is_tag, is_tagged}

-- A job by its number: its function and its tags, or `none` once it is removed.
abbrev pub Jobs : Type 0 → Type 0
Jobs Func = List (Option (Func × List String))

is_scheduled : {Func : Type 0} → Option (Option (Func × List String)) → Bool
is_scheduled none = false
is_scheduled (some none) = false
is_scheduled (some (some job)) = true

unfoldable pub scheduled_at : {Func : Type 0} → ℕ → Jobs Func → Bool
unfolding is_scheduled
scheduled_at j js = is_scheduled (get_elem? js j)

unfoldable pub new_at :
    {Func : Type 0} → ℤ → Func → String → String → Jobs Func → Jobs Func × Option ℕ
new_at d f a b js = (js ++ some (f, a ∷ b ∷ []) ∷ [], some (length js))

unfoldable pub cron_at : {Func : Type 0} → String → Func → String → Jobs Func → Jobs Func × Option ℕ
cron_at expr f a js = (js ++ some (f, a ∷ []) ∷ [], some (length js))

func_of : {Func : Type 0} → Option (Option (Func × List String)) → Option Func
func_of none = none
func_of (some none) = none
func_of (some (some (f, tags))) = some f

unfoldable pub func_at : {Func : Type 0} → ℕ → Jobs Func → Option Func
unfolding func_of
func_at j js = func_of (get_elem? js j)

unfoldable pub tags_of : {Func : Type 0} → Jobs Func → List (List String)
tags_of [] = []
tags_of (none ∷ js) = tags_of js
tags_of (some (f, tags) ∷ js) = tags ∷ tags_of js

get_elem?-length : {Func : Type 0} (js : Jobs Func) → get_elem? js (length js) ≡ none
get_elem?-length [] = refl
get_elem?-length (x ∷ js) = get_elem?-length js

get_elem?-below :
    {Func : Type 0} (js : Jobs Func) (k : ℕ) → scheduled_at k js ≡ true → k < length js
unfolding scheduled_at
get_elem?-below [] k h = absurd (ground (arith, h))
get_elem?-below (x ∷ js) zero h = omega arith
get_elem?-below (x ∷ js) (suc k) h = omega (arith, get_elem?-below js k h)

pub scheduled-new_at :
    {Func : Type 0} (d : ℤ) (f : Func) (a b : String) (js : Jobs Func) (j : ℕ)
    → (new_at d f a b js).1 ≡ some j
    → (scheduled_at j js ≡ false) × (scheduled_at j (new_at d f a b js).0 ≡ true)
unfolding scheduled_at new_at
scheduled-new_at d f a b js j h =
    let same : length js ≡ j = ground (arith, h) in
    (
      rw (← same) (ap is_scheduled (get_elem?-length js)),
      rw (← same) (ap is_scheduled (get_elem?-append_last js (some (f, a ∷ b ∷ [])))),
    )

pub scheduled-new_at_ne :
    {Func : Type 0} (d : ℤ) (f : Func) (a b : String) (js : Jobs Func) (k : ℕ)
    → scheduled_at k js ≡ true
    → scheduled_at k (new_at d f a b js).0 ≡ true
unfolding scheduled_at new_at
scheduled-new_at_ne d f a b js k h =
    ap is_scheduled (get_elem?-append_left js _ k (get_elem?-below js k h)) ∙ h

pub scheduled-cron_at_ne :
    {Func : Type 0} (expr : String) (f : Func) (a : String) (js : Jobs Func) (k : ℕ)
    → scheduled_at k js ≡ true
    → scheduled_at k (cron_at expr f a js).0 ≡ true
unfolding scheduled_at cron_at
scheduled-cron_at_ne expr f a js k h =
    ap is_scheduled (get_elem?-append_left js _ k (get_elem?-below js k h)) ∙ h

pub scheduled-remove_at_ne :
    {Func : Type 0} (j k : ℕ) (js : Jobs Func)
    → j ≢ k
    → scheduled_at k (set js j none) ≡ scheduled_at k js
unfolding scheduled_at
scheduled-remove_at_ne j k js h = ap is_scheduled (get_elem?-set_ne js none h)

pub scheduled-remove_at :
    {Func : Type 0} (j : ℕ) (js : Jobs Func) → true ≡ true → scheduled_at j (set js j none) ≡ false
unfolding scheduled_at
scheduled-remove_at j [] h = refl
scheduled-remove_at zero (x ∷ js) h = refl
scheduled-remove_at (suc j) (x ∷ js) h = scheduled-remove_at j js h

is_tagged-append :
    {Func : Type 0} (x : String) (js : Jobs Func) (f : Func) (tags : List String)
    → is_tagged x (tags_of (js ++ some (f, tags) ∷ []))
      ≡ (is_tag x tags || is_tagged x (tags_of js))
unfolding is_tagged tags_of
is_tagged-append x [] f tags = refl
is_tagged-append x (none ∷ js) f tags = is_tagged-append x js f tags
is_tagged-append x (some (h, t) ∷ js) f tags = ground (arith, is_tagged-append x js f tags)

pub is_tagged-new_at :
    {Func : Type 0} (d : ℤ) (f : Func) (a b x : String) (js : Jobs Func) (j : ℕ)
    → (new_at d f a b js).1 ≡ some j
    → is_tagged x (tags_of (new_at d f a b js).0)
      ≡ ((str_eq a x || str_eq b x) || is_tagged x (tags_of js))
unfolding new_at is_tag
is_tagged-new_at d f a b x js j h = ground (arith, is_tagged-append x js f (a ∷ b ∷ []))

pub is_tagged-cron_at :
    {Func : Type 0} (expr : String) (f : Func) (a x : String) (js : Jobs Func) (j : ℕ)
    → (cron_at expr f a js).1 ≡ some j
    → is_tagged x (tags_of (cron_at expr f a js).0) ≡ (str_eq a x || is_tagged x (tags_of js))
unfolding cron_at is_tag
is_tagged-cron_at expr f a x js j h = ground (arith, is_tagged-append x js f (a ∷ []))

pub new_at-made :
    {Func : Type 0} (d : ℤ) (f : Func) (a b : String) (js : Jobs Func)
    → (new_at d f a b js).1 ≢ none
unfolding new_at
new_at-made d f a b js h = absurd (ground (arith, h))

pub cron_at-made :
    {Func : Type 0} (expr : String) (f : Func) (a : String) (js : Jobs Func)
    → (cron_at expr f a js).1 ≢ none
unfolding cron_at
cron_at-made expr f a js h = absurd (ground (arith, h))

pub func-new_at :
    {Func : Type 0} (d : ℤ) (f : Func) (a b : String) (js : Jobs Func) (j : ℕ)
    → (new_at d f a b js).1 ≡ some j
    → func_at j (new_at d f a b js).0 ≡ some f
unfolding func_at new_at
func-new_at d f a b js j h =
    let same : length js ≡ j = ground (arith, h) in
    rw (← same) (ap func_of (get_elem?-append_last js (some (f, a ∷ b ∷ []))))

abbrev pub job_list : (Func : Type 0) → Gocron Func
job_list Func = record {
  Jobs = Jobs Func;
  scheduled = scheduled_at;
  task = func_at;
  new_job = new_at;
  new_cron_job = cron_at;
  remove_job = λ j js. (set js j none, true);
  tags = tags_of;
  task-new_job = func-new_at;
  scheduled-new_job = scheduled-new_at;
  scheduled-new_job_ne = scheduled-new_at_ne;
  scheduled-new_cron_job_ne = scheduled-cron_at_ne;
  scheduled-remove_job_ne = scheduled-remove_at_ne;
  scheduled-remove_job = scheduled-remove_at;
  is_tagged-new_job = is_tagged-new_at;
  is_tagged-new_cron_job = is_tagged-cron_at;
  is_tagged-new_job_failed = λ d f a b x js h. absurd (new_at-made d f a b js h);
  is_tagged-new_cron_job_failed = λ expr f a x js h. absurd (cron_at-made expr f a js h);
}
