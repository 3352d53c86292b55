-- ===== src/Api/RoundTrip.antt =====
-- The endpoint of the system indexes after a refresh (cmd/api/v1endpoints/systemIndex.go,
-- internal/tasks/esi/refreshSystemIndexes.go).
use eve_industry_planner_sta.Prelude.{
  ℕ, ◌≤◌, String, ◌≡◌, ◌∙◌, sym, Bool, true, length, List, ◌∷◌, ◌++◌, Option, none, some,
}
use eve_industry_planner_sta.Prelude.Int.{pos}
use eve_industry_planner_sta.Prelude.Text.{IsNumber}
use eve_industry_planner_sta.Prelude.Dict.{Dict, lookup}
use eve_industry_planner_sta.Esi.Client.{EsiClient}
use eve_industry_planner_sta.Esi.Feedback.{Response}
use eve_industry_planner_sta.Esi.Request.{ok}
use eve_industry_planner_sta.Redis.{Redis, acquire_refresh_lock}
use eve_industry_planner_sta.Tasks.Items.{
  EsiIndustrySystem, SystemIndexes, system_indexes_task, refresh_system_indexes,
}
use eve_industry_planner_sta.Tasks.Refresh.{Run, Message}
use eve_industry_planner_sta.Tasks.Stored.{item_key}
use eve_industry_planner_sta.Tasks.Excluded.{locked, streamed_by}
use eve_industry_planner_sta.Tasks.Kept.{made, Absent}
use eve_industry_planner_sta.Tasks.Keys.{system_indexes_task-KeysApart}
use eve_industry_planner_sta.Tasks.RoundTrip.{replied, refresh-keeps}
use eve_industry_planner_sta.Api.{
  IdsRequest, answered, extracted, extract_system_ids, system_indexes_handler,
}
use eve_industry_planner_sta.Api.Answers.{
  occurs, key_of, system_indexes_handler-answers, system_indexes_handler-answered,
}

module _ (r : Redis) {Cost : Type 0} (zero_cost : Cost)
    (marshal : SystemIndexes Cost → Option String)
    (unmarshal : String → Option (SystemIndexes Cost)) (run : Run (EsiIndustrySystem Cost))
    (msg : Message) where
  open r use {Store, get}

  -- After a refresh of the system indexes that held the lock, met a response of status 200 and ended
  -- its stream without error, the endpoint answers a request that holds the id of a system, and at most
  -- 500 ids, and its answer gives the id the system's last item in the response, if the read of the
  -- system's key succeeds and the stored text parses back to that item.
  pub system_indexes_handler-refreshed :
      (reads : String → Bool) (req : IdsRequest) (ids : List String) (c : EsiClient) (s : Store)
      (resp : Response) (before : List (EsiIndustrySystem Cost)) (a : EsiIndustrySystem Cost)
      (after : List (EsiIndustrySystem Cost)) (id text : String) (n : ℕ)
      → (acquire_refresh_lock r "esi:industry_systems:refresh_lock" run.lock_millis s).1 ≡ some true
      → replied r
          (system_indexes_task zero_cost marshal)
          run
          msg
          c
          (locked r (system_indexes_task zero_cost marshal) run msg s)
        ≡ ok resp
      → resp.status_code ≡ pos 200
      → (streamed_by r (system_indexes_task zero_cost marshal) run msg c s).error ≡ none
      → (run.decoded resp).items ≡ before ++ a ∷ after
      → Absent r
          (system_indexes_task zero_cost marshal)
          run
          msg
          (item_key
            (system_indexes_task zero_cost marshal)
            (made r (system_indexes_task zero_cost marshal) run msg a))
          after
      → (made r (system_indexes_task zero_cost marshal) run msg a).solar_system_id ≡ pos n
      → marshal (made r (system_indexes_task zero_cost marshal) run msg a) ≡ some text
      → unmarshal text ≡ some (made r (system_indexes_task zero_cost marshal) run msg a)
      → extract_system_ids req ≡ extracted ids
      → length ids ≤ 500
      → IsNumber id n
      → occurs id ids ≡ true
      → reads (key_of r zero_cost unmarshal reads n) ≡ true
      → (m : Dict (SystemIndexes Cost)) × (system_indexes_handler r zero_cost unmarshal reads req
            (refresh_system_indexes r zero_cost marshal run msg c s).store
          ≡ answered m)
        × (lookup id m ≡ some (made r (system_indexes_task zero_cost marshal) run msg a))
  unfolding refresh_system_indexes
  system_indexes_handler-refreshed reads req ids c s resp before a after id text n got h status
        no_error items absent numbered written parsed asked few number there read =
      let t = system_indexes_task zero_cost marshal in
      let apart = system_indexes_task-KeysApart zero_cost marshal in
      let b : SystemIndexes Cost = made r t run msg a in
      let stored =
        refresh-keeps r t run msg c s resp before a after got h status no_error items absent
          (λ e. apart.lock b (sym e)) (λ e. apart.etag b (sym e))
          (λ e. apart.last_updated b (sym e))
        ∙ written in
      let (m, done) =
        system_indexes_handler-answered r zero_cost unmarshal reads req ids id n _ asked few number
          there in
      let (_, _, held, _, _) =
        system_indexes_handler-answers r zero_cost unmarshal reads req ids _ m asked done in
      (
        m,
        done,
        held id n b number there
            (record { text = text; read = read; found = rw numbered at stored; parsed = parsed }),
      )
