-- ===== src/Worker/Loop.antt =====
-- The turns of a worker (cmd/worker/subscriber.go).
use eve_industry_planner_sta.Prelude.{ℕ, ◌≤◌, ◌≡◌, false, List, [], ◌∷◌, ◌++◌, length}
use eve_industry_planner_sta.Worker.{
  Delivery, num_delivered, Ran, Worker, take_message, complete, stop,
}

module _ {S : Type 0} (Task : ℕ → S → Ran S → Type 0) where
  -- A turn, with the messages that it fetches. `Task n s r`: the task, run on a message delivered `n`
  -- times and the shared state `s`, may leave `r`. A fetch that fails or times out changes nothing.
  -- The stop is looked at before a fetch only.
  pub data Step (w : Worker S) : List Delivery → Worker S → Type 0 where
    fetch :
        (batch : List Delivery)
        → w.stopped ≡ false
        → w.batch ≡ []
        → length batch ≤ 10
        → Step w batch (record w { batch = batch })
    take :
        (d : Delivery) (rest : List Delivery)
        → w.batch ≡ d ∷ rest
        → Step w [] (take_message d rest w)
    run :
        (before : List Delivery) (d : Delivery) (after : List Delivery) (r : Ran S)
        → w.waiting ≡ before ++ d ∷ after
        → Task (num_delivered d.metadata) w.shared r
        → Step w [] (complete d r (before ++ after) w)
    shut : Step w [] (stop w)

  -- The turns in order, with all messages fetched.
  pub data Reach (w : Worker S) : List Delivery → Worker S → Type 0 where
    here : Reach w [] w
    later :
        {fetched fetched' more : List Delivery} {u v : Worker S}
        → Reach w fetched u
        → Step u more v
        → fetched' ≡ fetched ++ more
        → Reach w fetched' v
