-- ===== src/Worker/Refreshing.antt =====
-- A worker whose tasks are refreshes (cmd/worker/esiSubscribers.go, internal/tasks/esi).
use eve_industry_planner_sta.Prelude.{ℕ, ◌≤◌, ◌≡◌, arith, false, List, some}
use eve_industry_planner_sta.Esi.Client.{EsiClient}
use eve_industry_planner_sta.Redis.{Redis}
use eve_industry_planner_sta.Tasks.Refresh.{Task, Run, refresh}
use eve_industry_planner_sta.Tasks.Settlement.{settlings, refresh-settlings}
use eve_industry_planner_sta.Worker.{Delivery, Ran, Worker, calls_of, idle}
use eve_industry_planner_sta.Worker.Loop.{Reach}
use eve_industry_planner_sta.Worker.Fates.{Fate, Reach-Fate}

module _ (r : Redis) {A B : Type 0} (t : Task A B) where
  open r use {Store}

  -- The client and the store are what the tasks share.
  abbrev pub Shared : Type 0
  Shared = EsiClient × Store

  unfoldable pub refreshed : Run A → ℕ → Shared → Ran Shared
  refreshed run n (c, s) =
      let o = refresh r t run (some n) c s in
      record { shared = (o.client, o.store); calls = o.calls; panicked = false }

  -- What a refresh may leave: that of some run.
  abbrev pub Refreshes : ℕ → Shared → Ran Shared → Type 0
  Refreshes n shared ran = (run : Run A) × (ran ≡ refreshed run n shared)

  pub Refreshes-settles :
      (n : ℕ) (shared : Shared) (ran : Ran Shared)
      → Refreshes n shared ran
      → (1 ≤ settlings (calls_of ran)) × (settlings (calls_of ran) ≤ 2)
  unfolding refreshed calls_of
  Refreshes-settles n (c, s) ran (run, e) =
      rw e ((refresh-settlings r t run n c s).0, (refresh-settlings r t run n c s).1)

  -- No message of a worker of refreshes is lost: as often as a message was fetched, it is still to be
  -- taken, or its refresh is still in the pool, or it was settled, once or twice each time.
  pub refreshing-Fate :
      (id : ℕ) (shared : Shared) {fetched : List Delivery} {w : Worker Shared}
      → Reach Refreshes (idle shared) fetched w
      → Fate Refreshes 2 (omega arith) Refreshes-settles id fetched w
  refreshing-Fate id shared reached =
      Reach-Fate Refreshes 2 (omega arith) Refreshes-settles id shared reached
