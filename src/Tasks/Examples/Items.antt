-- ===== src/Tasks/Examples/Items.antt =====
-- Items and keys of the refresh tasks at concrete inputs
-- (internal/tasks/esi/refreshSystemIndexes.go, internal/core/redis/redis.go).
use eve_industry_planner_sta.Prelude.{ℕ, ◌≡◌, refl, [], ◌∷◌, some}
use eve_industry_planner_sta.Prelude.Int.{pos}
use eve_industry_planner_sta.Tasks.Items.{EsiIndustrySystem, normalize_system, system_indexes_task}
use eve_industry_planner_sta.Tasks.Keys.{KeysApart, system_indexes_task-KeysApart}
use eve_industry_planner_sta.Tasks.Normalized.{
  cost_of, name_of, last_cost, manufacturing, normalize_system-cost,
}

-- A system whose manufacturing cost comes twice.
abbrev jita : EsiIndustrySystem ℕ
jita = record {
  solar_system_id = pos 30000142;
  cost_indices =
      record { activity = "manufacturing"; cost_index = 3 }
      ∷ record { activity = "copying"; cost_index = 5 }
      ∷ record { activity = "manufacturing"; cost_index = 7 }
      ∷ [];
}

normalize_system-cost_example :
    cost_of manufacturing (normalize_system 0 (pos 1000) jita)
    ≡ last_cost 0 (name_of manufacturing) jita.cost_indices
normalize_system-cost_example = normalize_system-cost 0 (pos 1000) jita manufacturing

jita_manufacturing : last_cost 0 (name_of manufacturing) jita.cost_indices ≡ 7
jita_manufacturing = refl

system_indexes_task-KeysApart_example :
    KeysApart (system_indexes_task {Cost = ℕ} 0 (λ s. some "{}"))
system_indexes_task-KeysApart_example = system_indexes_task-KeysApart 0 (λ s. some "{}")
