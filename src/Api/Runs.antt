-- ===== src/Api/Runs.antt =====
-- The endpoint after a refresh of one system (cmd/api/v1endpoints/systemIndex.go,
-- internal/tasks/esi/refreshSystemIndexes.go).
use eve_industry_planner_sta.Prelude.{
  ℕ, String, ◌≡◌, ◌∙◌, refl, ap, arith, eq_iff, true, [], ◌∷◌, Option, none, some, str_eq,
  if◌then◌else◌,
}
use eve_industry_planner_sta.Prelude.Int.{pos, ◌-ℤ◌}
use eve_industry_planner_sta.Prelude.Word.{add64}
use eve_industry_planner_sta.Prelude.Text.{IsNumber}
use eve_industry_planner_sta.Prelude.Decimal.{format_int}
use eve_industry_planner_sta.Prelude.Dict.{Dict, lookup, insert}
use eve_industry_planner_sta.Redis.{acquire_refresh_lock, save_item, save_json}
use eve_industry_planner_sta.Esi.Bucket.{can_make_request, cleanup_old_consumptions, check_tokens}
use eve_industry_planner_sta.Esi.Client.{
  new_esi_client, limiter_at, get_limiter_for_path, get_mutex_for_unknown_path, write_limiter,
}
use eve_industry_planner_sta.Esi.Feedback.{update_from_headers}
use eve_industry_planner_sta.Esi.Request.{
  responded, do_request, perform, attempt, admit, send, receive, with_mutex, test_error,
  finish_stream, ok,
}
use eve_industry_planner_sta.Esi.Examples.Calls.{start, events}
use eve_industry_planner_sta.Tasks.Stream.{
  array_start, array_end, request_attempts, request_loop, is_final, stream_response, decode_body,
  stream_array, stream_items, open_body,
}
use eve_industry_planner_sta.Tasks.Items.{
  EsiIndustrySystem, SystemIndexes, set_activity, set_activities, normalize_system,
  system_indexes_task, refresh_system_indexes,
}
use eve_industry_planner_sta.Tasks.Refresh.{Task, Run, on_item, report_progress, first_progress}
use eve_industry_planner_sta.Tasks.Excluded.{locked, streamed_by}
use eve_industry_planner_sta.Tasks.Kept.{made}
use eve_industry_planner_sta.Tasks.RoundTrip.{replied, response_stream, run_stream-ok}
use eve_industry_planner_sta.Tasks.Examples.{set_nx_dict, set_if_absent, dict_store, ok_response}
use eve_industry_planner_sta.Api.{
  get_ids, answered, extracted, extract_system_ids, nonempty_ids, system_indexes_handler,
}
use eve_industry_planner_sta.Api.RoundTrip.{system_indexes_handler-refreshed}

abbrev amarr : EsiIndustrySystem ℕ
amarr = record {
  solar_system_id = pos 30002187;
  cost_indices =
      record { activity = "invention"; cost_index = 4 }
      ∷ record { activity = "manufacturing"; cost_index = 9 }
      ∷ [];
}

abbrev amarr_index : SystemIndexes ℕ
amarr_index = record {
  solar_system_id = pos 30002187;
  last_updated = pos 1001;
  manufacturing = 9;
  research_time = 0;
  research_material = 0;
  copying = 0;
  invention = 4;
  reaction = 0;
}

-- A format that keeps enough of this one system.
abbrev marshal_cost : SystemIndexes ℕ → Option String
marshal_cost s = some (format_int (pos s.manufacturing))

abbrev parse_cost : String → Option (SystemIndexes ℕ)
parse_cost text = if str_eq text "9" then some amarr_index else none

abbrev systems : Task (EsiIndustrySystem ℕ) (SystemIndexes ℕ)
systems = system_indexes_task 0 marshal_cost

abbrev one_system : Run (EsiIndustrySystem ℕ)
one_system = record {
  lock_millis = pos 1000;
  started = pos 0;
  request = λ etag attempt. events (responded ok_response);
  jitter = λ attempt. 50;
  decoded = λ resp. record {
    body_text = "";
    gzip_error = none;
    start = array_start;
    items = amarr ∷ [];
    ending = array_end;
  };
  decode_millis = pos 1001;
  item_at = λ count. (pos 1, pos 2);
  error_at = pos 0;
  delayed = true;
  save_error = "lost";
  updated_millis = pos 2000;
}

acquired :
    (acquire_refresh_lock dict_store "esi:industry_systems:refresh_lock" (pos 1000) []).1
    ≡ some true
unfolding acquire_refresh_lock set_nx_dict set_if_absent lookup
acquired = refl

replied_ok :
    replied dict_store systems one_system none start (locked dict_store systems one_system none [])
    ≡ ok ok_response
unfolding perform attempt admit send receive start new_esi_client limiter_at get_limiter_for_path
    lookup with_mutex get_mutex_for_unknown_path insert write_limiter test_error can_make_request
    cleanup_old_consumptions check_tokens add64 ◌-ℤ◌ update_from_headers request_attempts
    request_loop do_request finish_stream is_final
replied_ok = refl

response_ok :
    (response_stream dict_store systems one_system none ok_response (
      first_progress dict_store systems one_system none
        (locked dict_store systems one_system none []))).1.error
    ≡ none
unfolding stream_response decode_body stream_array stream_items open_body on_item report_progress
    save_item save_json first_progress
response_ok = refl

streamed_ok : (streamed_by dict_store systems one_system none start []).error ≡ none
streamed_ok =
    ap (λ x. x.error)
      (run_stream-ok dict_store systems one_system none start
        (locked dict_store systems one_system none []) ok_response replied_ok).1
    ∙ response_ok

amarr_made : made dict_store systems one_system none amarr ≡ amarr_index
unfolding normalize_system set_activities set_activity
amarr_made = refl

amarr-IsNumber : IsNumber "30002187" 30002187
amarr-IsNumber = record {
  some_digits = λ e. absurd (ground (arith, (eq_iff "30002187" "").1 e));
  digits = ground arith;
  value = refl;
  below = omega arith;
}

asked_amarr : extract_system_ids (get_ids ("30002187" ∷ [])) ≡ extracted ("30002187" ∷ [])
unfolding extract_system_ids nonempty_ids
asked_amarr = refl

written : marshal_cost amarr_index ≡ some "9"
unfolding format_int
written = refl

system_indexes_handler-refreshed_example :
    (m : Dict (SystemIndexes ℕ)) × (system_indexes_handler dict_store 0 parse_cost
        (λ key. true)
        (get_ids ("30002187" ∷ []))
        (refresh_system_indexes dict_store 0 marshal_cost one_system none start []).store
      ≡ answered m)
    × (lookup "30002187" m ≡ some (made dict_store systems one_system none amarr))
unfolding normalize_system set_activities set_activity
system_indexes_handler-refreshed_example =
    system_indexes_handler-refreshed dict_store 0 marshal_cost parse_cost one_system none
      (λ key. true) (get_ids ("30002187" ∷ [])) ("30002187" ∷ []) start [] ok_response [] amarr []
      "30002187" "9" 30002187 acquired replied_ok refl streamed_ok refl tt refl written refl
      asked_amarr (omega arith) amarr-IsNumber refl refl
