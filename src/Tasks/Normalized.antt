-- ===== src/Tasks/Normalized.antt =====
-- What the normalization of a system keeps (internal/tasks/esi/refreshSystemIndexes.go).
use eve_industry_planner_sta.Prelude.{
  String, ◌≡◌, ◌∙◌, ap, refl, arith, true, false, List, [], ◌∷◌, if◌then◌else◌, str_eq, eq_iff,
}
use eve_industry_planner_sta.Prelude.Int.{ℤ}
use eve_industry_planner_sta.Tasks.Items.{
  EsiCostIndice, EsiIndustrySystem, SystemIndexes, set_activity, set_activities, normalize_system,
}

-- The activities of which a cost is kept, with their names in the API.
pub data Activity : Type 0 where
  manufacturing research_time research_material copying invention reaction : Activity

abbrev pub name_of : Activity → String
name_of manufacturing = "manufacturing"
name_of research_time = "researching_time_efficiency"
name_of research_material = "researching_material_efficiency"
name_of copying = "copying"
name_of invention = "invention"
name_of reaction = "reaction"

-- A string that is one name is not another.
another_name : (x a b : String) → str_eq a b ≡ false → str_eq x a ≡ true → str_eq x b ≡ false
another_name x a b h e = ground (arith, eq_iff x a, eq_iff x b, eq_iff a b)

module _ {Cost : Type 0} where
  abbrev pub cost_of : Activity → SystemIndexes Cost → Cost
  cost_of manufacturing s = s.manufacturing
  cost_of research_time s = s.research_time
  cost_of research_material s = s.research_material
  cost_of copying s = s.copying
  cost_of invention s = s.invention
  cost_of reaction s = s.reaction

  -- The cost of the last index of an activity, or else a default.
  abbrev pub last_cost : Cost → String → List (EsiCostIndice Cost) → Cost
  last_cost d activity [] = d
  last_cost d activity (ci ∷ rest) =
      last_cost (if str_eq ci.activity activity then ci.cost_index else d) activity rest

  cost_of-set_activity :
      (act : Activity) (s : SystemIndexes Cost) (ci : EsiCostIndice Cost)
      → cost_of act (set_activity s ci)
        ≡ (if str_eq ci.activity (name_of act) then ci.cost_index else cost_of act s)
  unfolding set_activity
  cost_of-set_activity manufacturing s ci = ground arith
  cost_of-set_activity research_time s ci =
      let differs = λ (b : String). another_name ci.activity "researching_time_efficiency" b in
      ground (arith, differs "manufacturing" refl)
  cost_of-set_activity research_material s ci =
      let differs = λ (b : String). another_name ci.activity "researching_material_efficiency" b in
      ground (arith, differs "manufacturing" refl, differs "researching_time_efficiency" refl)
  cost_of-set_activity copying s ci =
      let differs = λ (b : String). another_name ci.activity "copying" b in
      ground (
        arith,
        differs "manufacturing" refl,
        differs "researching_time_efficiency" refl,
        differs "researching_material_efficiency" refl,
      )
  cost_of-set_activity invention s ci =
      let differs = λ (b : String). another_name ci.activity "invention" b in
      ground (
        arith,
        differs "manufacturing" refl,
        differs "researching_time_efficiency" refl,
        differs "researching_material_efficiency" refl,
        differs "copying" refl,
      )
  cost_of-set_activity reaction s ci =
      let differs = λ (b : String). another_name ci.activity "reaction" b in
      ground (
        arith,
        differs "manufacturing" refl,
        differs "researching_time_efficiency" refl,
        differs "researching_material_efficiency" refl,
        differs "copying" refl,
        differs "invention" refl,
      )

  cost_of-set_activities :
      (act : Activity) (s : SystemIndexes Cost) (indices : List (EsiCostIndice Cost))
      → cost_of act (set_activities s indices) ≡ last_cost (cost_of act s) (name_of act) indices
  unfolding set_activities
  cost_of-set_activities act s [] = refl
  cost_of-set_activities act s (ci ∷ rest) =
      cost_of-set_activities act (set_activity s ci) rest
      ∙ ap (λ d. last_cost d (name_of act) rest) (cost_of-set_activity act s ci)

  -- A normalized system has for each of the six activities the cost that the last index of that
  -- activity gives, and the zero cost for an activity that no index names.
  pub normalize_system-cost :
      (none_yet : Cost) (now_ms : ℤ) (item : EsiIndustrySystem Cost) (act : Activity)
      → cost_of act (normalize_system none_yet now_ms item)
        ≡ last_cost none_yet (name_of act) item.cost_indices
  unfolding normalize_system
  normalize_system-cost none_yet now_ms item manufacturing =
      cost_of-set_activities manufacturing _ item.cost_indices
  normalize_system-cost none_yet now_ms item research_time =
      cost_of-set_activities research_time _ item.cost_indices
  normalize_system-cost none_yet now_ms item research_material =
      cost_of-set_activities research_material _ item.cost_indices
  normalize_system-cost none_yet now_ms item copying =
      cost_of-set_activities copying _ item.cost_indices
  normalize_system-cost none_yet now_ms item invention =
      cost_of-set_activities invention _ item.cost_indices
  normalize_system-cost none_yet now_ms item reaction =
      cost_of-set_activities reaction _ item.cost_indices
