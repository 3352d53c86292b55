-- ===== src/Tasks/Examples/Runs.antt =====
-- Refreshes of the adjusted prices with and without new data, and the theorems about them
-- (internal/tasks/esi/refreshAdjustedPrices.go).
use eve_industry_planner_sta.Prelude.{
  ℕ, zero, suc, ◌<◌, ◌≡◌, ◌≢◌, refl, ◌∙◌, ap, inl, arith, String, true, false, [], ◌∷◌, none, some,
  eq_iff, if◌then◌else◌, ltb, leb,
}
use eve_industry_planner_sta.Prelude.Int.{pos, ◌-ℤ◌}
use eve_industry_planner_sta.Prelude.Word.{add64}
use eve_industry_planner_sta.Prelude.Dict.{Dict, lookup, insert}
use eve_industry_planner_sta.Prelude.Decimal.{format_int}
use eve_industry_planner_sta.Redis.{acquire_refresh_lock, save_item, save_json}
use eve_industry_planner_sta.Esi.Bucket.{can_make_request, cleanup_old_consumptions, check_tokens}
use eve_industry_planner_sta.Esi.Client.{
  new_esi_client, limiter_at, get_limiter_for_path, get_mutex_for_unknown_path, write_limiter,
}
use eve_industry_planner_sta.Esi.Feedback.{update_from_headers}
use eve_industry_planner_sta.Esi.Request.{
  failed, responded, do_request, perform, attempt, admit, send, receive, with_mutex, test_error,
  finish_stream, is_rate_limit_error, ok, err, other, Events,
}
use eve_industry_planner_sta.Esi.Examples.Calls.{start, events}
use eve_industry_planner_sta.Tasks.Stream.{
  request_attempts, request_loop, is_final, stream_response, decode_body, stream_array,
  stream_items, open_body,
}
use eve_industry_planner_sta.Tasks.Items.{normalize_price}
use eve_industry_planner_sta.Tasks.Refresh.{refresh, on_item, report_progress, first_progress}
use eve_industry_planner_sta.Tasks.Attempts.{result_at, EndsWith, request_attempts-ends}
use eve_industry_planner_sta.Tasks.Excluded.{locked, streamed_by, refresh-fruitless}
use eve_industry_planner_sta.Tasks.Keys.{adjusted_prices_task-KeysApart}
use eve_industry_planner_sta.Tasks.RoundTrip.{
  replied, response_stream, run_stream-ok, run_stream-err, refresh-keeps,
}
use eve_industry_planner_sta.Tasks.Examples.{
  set_nx_dict, set_if_absent, dict_store, prices_task, price, ok_response, run,
}

acquired :
    (acquire_refresh_lock dict_store "esi:market_prices:refresh_lock" (pos 1000) []).1 ≡ some true
unfolding acquire_refresh_lock set_nx_dict set_if_absent lookup
acquired = refl

replied_ok :
    replied dict_store prices_task
      (run (responded ok_response))
      (some 1)
      start
      (locked dict_store prices_task (run (responded ok_response)) (some 1) [])
    ≡ ok ok_response
unfolding perform attempt admit send receive start new_esi_client limiter_at get_limiter_for_path
    lookup with_mutex get_mutex_for_unknown_path insert write_limiter test_error can_make_request
    cleanup_old_consumptions check_tokens add64 ◌-ℤ◌ update_from_headers request_attempts
    request_loop do_request finish_stream is_final
replied_ok = refl

response_ok :
    (response_stream dict_store prices_task (run (responded ok_response)) (some 1) ok_response (
      first_progress dict_store prices_task
        (run (responded ok_response))
        (some 1)
        (locked dict_store prices_task (run (responded ok_response)) (some 1) []))).1.error
    ≡ none
unfolding stream_response decode_body stream_array stream_items open_body on_item report_progress
    save_item save_json first_progress
response_ok = refl

streamed_ok :
    (streamed_by dict_store prices_task (run (responded ok_response)) (some 1) start []).error
    ≡ none
streamed_ok =
    ap (λ x. x.error)
      (run_stream-ok dict_store prices_task (run (responded ok_response)) (some 1) start
        (locked dict_store prices_task (run (responded ok_response)) (some 1) []) ok_response
        replied_ok).1
    ∙ response_ok

refresh-keeps_example :
    lookup "esi:market_prices:34"
      (refresh dict_store prices_task (run (responded ok_response)) (some 1) start []).store
    ≡ some "low"
unfolding format_int normalize_price
refresh-keeps_example =
    refresh-keeps dict_store prices_task (run (responded ok_response)) (some 1) start [] ok_response
      (price 34 500 ∷ []) (price 34 6) (price 35 12 ∷ []) acquired replied_ok refl streamed_ok refl
      ((λ e. ground (arith, eq_iff "esi:market_prices:35" "esi:market_prices:34")), tt)
      (λ e. ground (arith, eq_iff "esi:market_prices:refresh_lock" "esi:market_prices:34"))
      (λ e. ground (arith, eq_iff "esi:market_prices:etag" "esi:market_prices:34"))
      (λ e. ground (arith, eq_iff "esi:market_prices:last_updated" "esi:market_prices:34"))

-- The first attempt times out and the second is answered.
abbrev second_answers : ℕ → Events
second_answers attempt =
    if leb attempt 1 then events (failed "timeout") else events (responded ok_response)

first_not_final :
    is_final (result_at second_answers (λ j. 50) "/v1/markets/prices/" start 0) ≡ false
unfolding perform attempt admit send receive start new_esi_client limiter_at get_limiter_for_path
    lookup with_mutex get_mutex_for_unknown_path insert write_limiter test_error can_make_request
    cleanup_old_consumptions check_tokens add64 ◌-ℤ◌ do_request is_final is_rate_limit_error
first_not_final = refl

first_before :
    (j : ℕ)
    → j < 1
    → is_final (result_at second_answers (λ j. 50) "/v1/markets/prices/" start j) ≡ false
first_before zero h = first_not_final
first_before (suc j) h = absurd (omega arith)

second_final : is_final (result_at second_answers (λ j. 50) "/v1/markets/prices/" start 1) ≡ true
unfolding perform attempt admit send receive start new_esi_client limiter_at get_limiter_for_path
    lookup with_mutex get_mutex_for_unknown_path insert write_limiter test_error can_make_request
    cleanup_old_consumptions check_tokens add64 ◌-ℤ◌ update_from_headers do_request finish_stream
    is_final
second_final = refl

request_attempts-ends_example :
    EndsWith second_answers
      (λ j. 50)
      "/v1/markets/prices/"
      1
      start
      (request_attempts second_answers (λ j. 50) "/v1/markets/prices/" start)
request_attempts-ends_example =
    request_attempts-ends second_answers (λ j. 50) "/v1/markets/prices/" start 1 (omega arith)
      (λ j h. first_before j h) (inl second_final)

abbrev fetched_before : Dict String
fetched_before = ("esi:market_prices:etag", "v1") ∷ []

timed_out :
    replied dict_store prices_task
      (run (failed "timeout"))
      (some 1)
      start
      (locked dict_store prices_task (run (failed "timeout")) (some 1) fetched_before)
    ≡ err (other "timeout")
unfolding perform attempt admit send receive start new_esi_client limiter_at get_limiter_for_path
    lookup with_mutex get_mutex_for_unknown_path insert write_limiter test_error can_make_request
    cleanup_old_consumptions check_tokens add64 ◌-ℤ◌ request_attempts request_loop do_request
    is_final is_rate_limit_error
timed_out = refl

not_streamed :
    (streamed_by dict_store prices_task
      (run (failed "timeout"))
      (some 1)
      start
      fetched_before).error
    ≢ none
not_streamed e =
    let failed_so =
      run_stream-err dict_store prices_task (run (failed "timeout")) (some 1) start
        (locked dict_store prices_task (run (failed "timeout")) (some 1) fetched_before)
        (other "timeout") timed_out in
    ground (arith, failed_so, e)

refresh-fruitless_example :
    lookup "esi:market_prices:etag"
      (refresh dict_store prices_task (run (failed "timeout")) (some 1) start fetched_before).store
    ≡ lookup "esi:market_prices:etag" fetched_before
refresh-fruitless_example =
    refresh-fruitless dict_store prices_task (run (failed "timeout")) (some 1)
      "esi:market_prices:etag" start fetched_before
      (λ e. ground (arith, eq_iff "esi:market_prices:refresh_lock" "esi:market_prices:etag"))
      (adjusted_prices_task-KeysApart
        (λ p. some (if ltb p.adjusted_price 100 then "low" else "high"))).etag
      (inl not_streamed)
