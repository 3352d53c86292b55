-- ===== src/Esi/Threads.antt =====
-- Callers of `Do` and `DoRequest` at the same time (internal/core/esi/rate_limited_client.go). A call is
-- cut at the lookup of the limiter, the lookup of the mutex, the wait for the mutex, and the exchange
-- with the server. What runs between two cuts is one turn, also the feedback of a response, in which
-- the code locks its limiter several times.
pub mod Mutexes
pub mod Exclusion
mod Run
use eve_industry_planner_sta.Prelude.{
  ℕ, ◌+◌, ◌≡◌, String, Bool, true, false, List, [], ◌∷◌, ◌++◌, Option, none, some, ◌==◌, ◌||◌,
}
use eve_industry_planner_sta.Prelude.Int.{pos}
use eve_industry_planner_sta.Esi.Bucket.{RateLimitError, can_make_request}
use eve_industry_planner_sta.Esi.Client.{
  EsiClient, limiter_at, write_limiter, get_limiter_for_path, get_mutex_for_unknown_path,
}
use eve_industry_planner_sta.Esi.Request.{Events, Finish, test_error, send}

-- Where a call stands, with the limiter that it looked up. `held` is the mutex that it has locked, if
-- its path was unknown at the lookup.
pub data Phase : Type 0 where
  idle returned : Phase
  unknown : (gl : ℕ) → Phase
  waiting : (gl mutex : ℕ) → Phase
  checking in_flight : (gl : ℕ) → (held : Option ℕ) → Phase

pub record RunningCall : Type 0 where
  pub path : String
  pub phase : Phase

pub record Callers : Type 0 where
  pub client : EsiClient
  pub calls : List RunningCall

-- The mutex that a call has locked.
unfoldable pub holding : Phase → Option ℕ
holding idle = none
holding returned = none
holding (unknown gl) = none
holding (waiting gl mutex) = none
holding (checking gl held) = held
holding (in_flight gl held) = held

unfoldable pub is_mutex : ℕ → Option ℕ → Bool
is_mutex m none = false
is_mutex m (some k) = k == m

unfoldable pub is_locked : ℕ → List RunningCall → Bool
unfolding is_mutex holding
is_locked m [] = false
is_locked m (c ∷ rest) = is_mutex m (holding c.phase) || is_locked m rest

-- The first steps of a call: the limiter, and the mutex for a path that is not known.
unfoldable pub looked_up : ℕ × Bool → Phase
looked_up (gl, true) = checking gl none
looked_up (gl, false) = unknown gl

-- The token check, unless the test mode injects an error; a refused call returns.
unfoldable pub check : Events → ℕ → Option ℕ → Option RateLimitError → EsiClient → EsiClient × Phase
check ev gl held (some e) c = (c, returned)
check ev gl held none c =
    let (checked, refusal) = can_make_request ev.check (limiter_at c gl) (pos 2) in
    (write_limiter gl checked c, (elim refusal [ none ↦ in_flight gl held | some e ↦ returned ]))

abbrev pub at : String → Phase → RunningCall
at path phase = record { path = path; phase = phase }

abbrev pub with_call : List RunningCall → RunningCall → List RunningCall → EsiClient → Callers
with_call before c after client = record { client = client; calls = before ++ c ∷ after }

-- A turn of one of the callers, wherever it stands among them.
pub data Turn (w : Callers) : Callers → Type 1 where
  look_up :
      (before : List RunningCall) (path : String) (after : List RunningCall)
      → w.calls ≡ before ++ at path idle ∷ after
      → Turn w (
          with_call before
            (at path (looked_up (get_limiter_for_path path w.client)))
            after
            w.client)
  get_mutex :
      (before : List RunningCall) (path : String) (gl : ℕ) (after : List RunningCall)
      → w.calls ≡ before ++ at path (unknown gl) ∷ after
      → Turn w (
          with_call before
            (at path (waiting gl (get_mutex_for_unknown_path path w.client).0))
            after
            (get_mutex_for_unknown_path path w.client).1)
  lock :
      (before : List RunningCall) (path : String) (gl mutex : ℕ) (after : List RunningCall)
      → w.calls ≡ before ++ at path (waiting gl mutex) ∷ after
      → is_locked mutex w.calls ≡ false
      → Turn w (with_call before (at path (checking gl (some mutex))) after w.client)
  check_call :
      (before : List RunningCall) (path : String) (gl : ℕ) (held : Option ℕ)
      (after : List RunningCall) (ev : Events)
      → w.calls ≡ before ++ at path (checking gl held) ∷ after
      → Turn w (
          with_call before
            (at path (check ev gl held (test_error ev gl path w.client) w.client).1)
            after
            (check ev gl held (test_error ev gl path w.client) w.client).0)
  reply :
      {A : Type 0} (finish : Finish A) (before : List RunningCall) (path : String) (gl : ℕ)
      (held : Option ℕ) (after : List RunningCall) (ev : Events)
      → w.calls ≡ before ++ at path (in_flight gl held) ∷ after
      → Turn w (
          with_call before
            (at path returned)
            after
            (send finish ev gl path ev.wait_error ev.build_error ev.reply w.client).client)

pub data Reach (w : Callers) : Callers → Type 1 where
  here : Reach w w
  later : {u v : Callers} → Reach w u → Turn u v → Reach w v
