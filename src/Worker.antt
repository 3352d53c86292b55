-- ===== src/Worker.antt =====
-- The subscriber of the worker service (cmd/worker/subscriber.go, cmd/worker/jetstream_wrapper.go).
-- The loop that fetches, and the tasks that the goroutine pool runs, take turns in any order; a task
-- is one turn, between which it keeps no state but the shared one.
pub mod Loop
pub mod Fates
pub mod Refreshing
pub mod Subscribe
mod Examples
use eve_industry_planner_sta.Prelude.{
  ℕ, ◌+◌, Bool, true, false, List, [], ◌∷◌, ◌++◌, map, Option, none, some, if◌then◌else◌,
}
use eve_industry_planner_sta.Nats.{Call, nak, in_progress}

-- A message: a number that tells it from the others, what `Metadata` says of its deliveries, if it
-- does not fail, and whether the pool takes its task.
pub record Delivery : Type 0 where
  pub id : ℕ
  pub metadata : Option ℕ
  pub accepted : Bool

-- `NumDelivered` of the wrapper.
unfoldable pub num_delivered : Option ℕ → ℕ
num_delivered none = 1
num_delivered (some n) = n

-- What a task leaves: the shared state, what it said of its message, and whether it panicked.
pub record Ran (S : Type 0) : Type 0 where
  pub shared : S
  pub calls : List Call
  pub panicked : Bool

-- `batch` is what is left of the last fetch, `waiting` are the messages whose tasks are in the pool,
-- `said` all that was said, with the message it was said of.
pub record Worker (S : Type 0) : Type 0 where
  pub shared : S
  pub batch : List Delivery
  pub waiting : List Delivery
  pub said : List (ℕ × Call)
  pub stopped : Bool

abbrev pub of_message : ℕ → Call → ℕ × Call
of_message id call = (id, call)

module _ {S : Type 0} where
  -- A worker that has just subscribed.
  abbrev pub idle : S → Worker S
  idle s = record { shared = s; batch = []; waiting = []; said = []; stopped = false }

  -- The body of the loop over a batch: the report, and the task is handed to the pool, which may
  -- refuse it.
  unfoldable pub take_message : Delivery → List Delivery → Worker S → Worker S
  take_message d rest w =
      if d.accepted
      then record w {
        batch = rest;
        waiting = w.waiting ++ d ∷ [];
        said = w.said ++ (d.id, in_progress) ∷ [];
      }
      else record w { batch = rest; said = w.said ++ (d.id, in_progress) ∷ (d.id, nak) ∷ [] }

  -- The task with its deferred recovery: a message is given back after a panic.
  unfoldable pub calls_of : Ran S → List Call
  calls_of r = if r.panicked then r.calls ++ nak ∷ [] else r.calls

  -- A task of the pool has run; `others` are the tasks still in it.
  unfoldable pub complete : Delivery → Ran S → List Delivery → Worker S → Worker S
  unfolding calls_of
  complete d r others w = record w {
    shared = r.shared;
    waiting = others;
    said = w.said ++ map (of_message d.id) (calls_of r);
  }

  -- `close(stopChan)`
  unfoldable pub stop : Worker S → Worker S
  stop w = record w { stopped = true }
