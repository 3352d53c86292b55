-- ===== src/Scheduler/Registry.antt =====
-- The start of the scheduler service (cmd/scheduler/registry.go, cmd/scheduler/handler.go `Start`, and
-- what cmd/scheduler/main.go registers).
use eve_industry_planner_sta.Prelude.{
  String, Bool, true, List, [], ◌∷◌, Option, none, some, if◌then◌else◌,
}
use eve_industry_planner_sta.Prelude.Int.{ℤ, pos}
use eve_industry_planner_sta.Nats.Streams.{
  StreamConfig, JetStream, ensure_streams, ConsumerConfig, deliver_all, Consumers,
  get_or_create_consumer,
}
use eve_industry_planner_sta.Redis.{Redis}
use eve_industry_planner_sta.Scheduler.{
  JobFunc, OneTimeJob, State, register_handler, restore_one_time_jobs,
}
use eve_industry_planner_sta.Scheduler.Library.{Gocron}
use eve_industry_planner_sta.Scheduler.Cron.{schedule_cron_job}

abbrev pub scheduler_stream : StreamConfig
scheduler_stream = record {
  name = "SCHEDULER";
  subjects = "scheduler:schedule" ∷ [];
  max_age = pos 86_400_000_000_000;
}

abbrev pub scheduler_consumer : ConsumerConfig
scheduler_consumer = record {
  durable = "scheduler";
  filter_subject = "";
  deliver_policy = deliver_all;
}

module _ (js : JetStream) (cs : Consumers)
    (open_stream : String → js.Server → Option cs.Stream) where
  open js use {Server}
  open cs use {Stream}

  unfoldable pub get_consumer : Option Stream → Option Stream
  get_consumer none = none
  get_consumer (some stream) =
      let (stream', got) = get_or_create_consumer cs scheduler_consumer stream in
      if got then some stream' else none

  -- `Start` with a JetStream context: the stream with the consumer that the loop fetches from, unless
  -- it fails.
  unfoldable pub start : Server → Server × Option Stream
  unfolding get_consumer
  start server =
      let (server', failed) = ensure_streams js (scheduler_stream ∷ []) server in
      (
        server',
        (elim failed [
          | some name ↦ none
          | none ↦ get_consumer (open_stream scheduler_stream.name server')
        ]),
      )

module _ (r : Redis) (Handler : Type 0) (g : Gocron (JobFunc Handler))
    (marshal : OneTimeJob → Option String) (unmarshal : String → Option OneTimeJob) where
  -- A `SchedulerFunc`: it acts on the scheduler, and may fail.
  abbrev pub SchedulerFunc : Type 0
  SchedulerFunc = State r Handler g marshal unmarshal → State r Handler g marshal unmarshal × Bool

  -- One of them failing is no reason not to call the others.
  unfoldable pub register_all :
      List SchedulerFunc → State r Handler g marshal unmarshal → State r Handler g marshal unmarshal
  register_all [] s = s
  register_all (f ∷ rest) s = register_all rest (f s).0

  -- The registry's `Start` as far as the state of the scheduler goes, once gocron has made one; what
  -- fails in it is only logged.
  unfoldable pub registry_start :
      List SchedulerFunc
      → ℤ
      → (String → ℤ × ℤ)
      → Option (List String)
      → State r Handler g marshal unmarshal
      → State r Handler g marshal unmarshal
  registry_start fs started at scanned s =
      let registered = register_all fs s in
      let indexes =
        (schedule_cron_job r Handler g marshal unmarshal "*/5 * * * *" "refreshSystemIndexes"
          registered).0 in
      let prices =
        (schedule_cron_job r Handler g marshal unmarshal "*/5 * * * *" "refreshAdjustedPrices"
          indexes).0 in
      (restore_one_time_jobs r Handler g marshal unmarshal started at scanned prices).0

  -- What the two refreshes set up: a handler that publishes an empty message.
  unfoldable pub schedule_industry_systems_refresh : Handler → SchedulerFunc
  schedule_industry_systems_refresh publish s =
      (register_handler r Handler g marshal unmarshal "refreshSystemIndexes" publish s, true)

  unfoldable pub schedule_adjusted_prices_refresh : Handler → SchedulerFunc
  schedule_adjusted_prices_refresh publish s =
      (register_handler r Handler g marshal unmarshal "refreshAdjustedPrices" publish s, true)

  -- What the service registers.
  unfoldable pub schedulers : Handler → Handler → List SchedulerFunc
  unfolding schedule_industry_systems_refresh schedule_adjusted_prices_refresh
  schedulers publish_indexes publish_prices =
      schedule_industry_systems_refresh publish_indexes
      ∷ schedule_adjusted_prices_refresh publish_prices
      ∷ []
