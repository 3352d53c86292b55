-- ===== src/Esi/Threads/Run.antt =====
-- Two calls for a path that nobody knows yet (internal/core/esi/rate_limited_client.go).
use eve_industry_planner_sta.Prelude.{◌≤◌, refl, some, [], ◌∷◌}
use eve_industry_planner_sta.Prelude.Dict.{lookup}
use eve_industry_planner_sta.Esi.Client.{
  new_esi_client, get_limiter_for_path, get_mutex_for_unknown_path,
}
use eve_industry_planner_sta.Esi.Examples.Calls.{start}
use eve_industry_planner_sta.Esi.Threads.{
  Callers, idle, unknown, checking, at, look_up, get_mutex, lock, Reach, here, later, is_locked,
  looked_up, is_mutex, holding,
}
use eve_industry_planner_sta.Esi.Threads.Mutexes.{discovering}
use eve_industry_planner_sta.Esi.Threads.Exclusion.{starting, discovering-once}

abbrev two_idle : Callers
two_idle = record { client = start; calls = starting ("/a" ∷ "/a" ∷ []) }

-- Both have looked the path up, and the first has locked its mutex.
abbrev first_locked : Callers
first_locked = record {
  client = (get_mutex_for_unknown_path "/a" start).1;
  calls =
      at "/a" (checking 0 (some (get_mutex_for_unknown_path "/a" start).0))
      ∷ at "/a" (looked_up (get_limiter_for_path "/a" start))
      ∷ [];
}

Reach-first_locked : Reach two_idle first_locked
unfolding get_limiter_for_path get_mutex_for_unknown_path looked_up lookup is_locked is_mutex
    holding new_esi_client start
Reach-first_locked =
    later
      (later
        (later (later here (look_up [] "/a" (at "/a" idle ∷ []) refl))
          (look_up (at "/a" (unknown 0) ∷ []) "/a" [] refl))
        (get_mutex [] "/a" 0 (at "/a" (unknown 0) ∷ []) refl))
      (lock [] "/a" 0 0 (at "/a" (unknown 0) ∷ []) refl refl)

discovering-once_example : discovering "/a" first_locked.calls ≤ 1
discovering-once_example = discovering-once start ("/a" ∷ "/a" ∷ []) "/a" Reach-first_locked
