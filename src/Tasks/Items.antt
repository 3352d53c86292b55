-- ===== src/Tasks/Items.antt =====
-- The items of the two refresh tasks and how they are normalized, and the tasks themselves
-- (internal/tasks/esi/refreshSystemIndexes.go, internal/tasks/esi/refreshAdjustedPrices.go). A
-- cost is a `float64`, which the code only copies.
use eve_industry_planner_sta.Prelude.{String, List, [], ◌∷◌, Option, if◌then◌else◌, str_eq}
use eve_industry_planner_sta.Prelude.Int.{ℤ}
use eve_industry_planner_sta.Esi.Client.{EsiClient}
use eve_industry_planner_sta.Redis.{Redis}
use eve_industry_planner_sta.Tasks.Refresh.{
  Task, Run, Message, Progress, Outcome, run_stream, refresh,
}
use eve_industry_planner_sta.Tasks.Stream.{Attempts, Streamed}

pub record EsiCostIndice (Cost : Type 0) : Type 0 where
  pub activity : String
  pub cost_index : Cost

pub record EsiIndustrySystem (Cost : Type 0) : Type 0 where
  pub cost_indices : List (EsiCostIndice Cost)
  pub solar_system_id : ℤ

pub record SystemIndexes (Cost : Type 0) : Type 0 where
  pub solar_system_id : ℤ
  pub last_updated : ℤ
  pub manufacturing : Cost
  pub research_time : Cost
  pub research_material : Cost
  pub copying : Cost
  pub invention : Cost
  pub reaction : Cost

module _ {Cost : Type 0} where
  -- The switch on one cost index; an activity of another name changes nothing.
  unfoldable pub set_activity : SystemIndexes Cost → EsiCostIndice Cost → SystemIndexes Cost
  set_activity s ci =
      if str_eq ci.activity "manufacturing"
      then record s { manufacturing = ci.cost_index }
      else if str_eq ci.activity "researching_time_efficiency"
      then record s { research_time = ci.cost_index }
      else if str_eq ci.activity "researching_material_efficiency"
      then record s { research_material = ci.cost_index }
      else if str_eq ci.activity "copying"
      then record s { copying = ci.cost_index }
      else if str_eq ci.activity "invention"
      then record s { invention = ci.cost_index }
      else if str_eq ci.activity "reaction"
      then record s { reaction = ci.cost_index }
      else s

  unfoldable pub set_activities :
      SystemIndexes Cost → List (EsiCostIndice Cost) → SystemIndexes Cost
  set_activities s [] = s
  set_activities s (ci ∷ rest) = set_activities (set_activity s ci) rest

  -- `none` is the zero of the costs.
  unfoldable pub normalize_system : Cost → ℤ → EsiIndustrySystem Cost → SystemIndexes Cost
  unfolding set_activities
  normalize_system none_yet now_ms item =
      set_activities
        (record {
          solar_system_id = item.solar_system_id;
          last_updated = now_ms;
          manufacturing = none_yet;
          research_time = none_yet;
          research_material = none_yet;
          copying = none_yet;
          invention = none_yet;
          reaction = none_yet;
        })
        item.cost_indices

pub record EsiAdjustedPrice (Cost : Type 0) : Type 0 where
  pub type_id : ℤ
  pub adjusted_price : Cost
  pub average_price : Cost

pub record AdjustedPrice (Cost : Type 0) : Type 0 where
  pub type_id : ℤ
  pub adjusted_price : Cost
  pub last_updated : ℤ

unfoldable pub normalize_price : {Cost : Type 0} → ℤ → EsiAdjustedPrice Cost → AdjustedPrice Cost
normalize_price now_ms item = record {
  type_id = item.type_id;
  adjusted_price = item.adjusted_price;
  last_updated = now_ms;
}

module _ {Cost : Type 0} where
  abbrev pub system_indexes_task :
      Cost
      → (SystemIndexes Cost → Option String)
      → Task (EsiIndustrySystem Cost) (SystemIndexes Cost)
  system_indexes_task none_yet marshal = record {
    lock_key = "esi:industry_systems:refresh_lock";
    etag_key = "esi:industry_systems:etag";
    last_updated_key = "esi:industry_systems:last_updated";
    item_prefix = "esi:industry_systems:";
    path = "/v1/industry/systems/";
    normalize = normalize_system none_yet;
    id = λ s. s.solar_system_id;
    marshal = marshal;
  }

  abbrev pub adjusted_prices_task :
      (AdjustedPrice Cost → Option String) → Task (EsiAdjustedPrice Cost) (AdjustedPrice Cost)
  adjusted_prices_task marshal = record {
    lock_key = "esi:market_prices:refresh_lock";
    etag_key = "esi:market_prices:etag";
    last_updated_key = "esi:market_prices:last_updated";
    item_prefix = "esi:market_prices:";
    path = "/v1/markets/prices/";
    normalize = normalize_price;
    id = λ p. p.type_id;
    marshal = marshal;
  }

module _ (r : Redis) {Cost : Type 0} where
  open r use {Store}

  unfoldable pub stream_industry_systems :
      Cost
      → (SystemIndexes Cost → Option String)
      → Run (EsiIndustrySystem Cost)
      → Message
      → EsiClient
      → Store
      → Attempts × Progress Store × Streamed
  stream_industry_systems none_yet marshal run msg c s =
      run_stream r (system_indexes_task none_yet marshal) run msg c s

  unfoldable pub stream_adjusted_prices :
      (AdjustedPrice Cost → Option String)
      → Run (EsiAdjustedPrice Cost)
      → Message
      → EsiClient
      → Store
      → Attempts × Progress Store × Streamed
  stream_adjusted_prices marshal run msg c s =
      run_stream r (adjusted_prices_task marshal) run msg c s

  unfoldable pub refresh_system_indexes :
      Cost
      → (SystemIndexes Cost → Option String)
      → Run (EsiIndustrySystem Cost)
      → Message
      → EsiClient
      → Store
      → Outcome Store
  refresh_system_indexes none_yet marshal run msg c s =
      refresh r (system_indexes_task none_yet marshal) run msg c s

  unfoldable pub refresh_adjusted_prices :
      (AdjustedPrice Cost → Option String)
      → Run (EsiAdjustedPrice Cost)
      → Message
      → EsiClient
      → Store
      → Outcome Store
  refresh_adjusted_prices marshal run msg c s = refresh r (adjusted_prices_task marshal) run msg c s
