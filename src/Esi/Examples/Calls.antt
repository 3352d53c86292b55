-- ===== src/Esi/Examples/Calls.antt =====
-- Calls of the client of EVE's API at concrete inputs, and the theorems about them there
-- (internal/core/esi/rate_limited_client.go).
use eve_industry_planner_sta.Prelude.{
  ◌+◌, ◌<◌, ◌≡◌, refl, ◌≢◌, true, false, none, arith, length, eq_iff,
}
use eve_industry_planner_sta.Prelude.Int.{pos, ◌+ℤ◌, ◌-ℤ◌, ◌≤ℤ◌, ◌<ℤ◌}
use eve_industry_planner_sta.Prelude.Word.{add64, mul64}
use eve_industry_planner_sta.Prelude.Dict.{lookup, insert}
use eve_industry_planner_sta.Prelude.Text.{atoi}
use eve_industry_planner_sta.Esi.Bucket.{
  RateLimitError, cleanup_old_consumptions, can_make_request, check_tokens,
}
use eve_industry_planner_sta.Esi.Bucket.Admission.{IsTracked, spent}
use eve_industry_planner_sta.Esi.Client.{
  EsiClient, TestEnv, new_esi_client, limiter_at, write_limiter, get_limiter_for_path,
  get_or_create_group_limiter, get_mutex_for_unknown_path,
}
use eve_industry_planner_sta.Esi.Client.WellFormed.{IsWellFormed, new_esi_client-IsWellFormed}
use eve_industry_planner_sta.Esi.Feedback.{
  header_limit, resolve_limiter, update_from_headers, seconds_duration,
}
use eve_industry_planner_sta.Esi.Feedback.Registry.{
  update_from_headers-discovers, update_from_headers_frame,
}
use eve_industry_planner_sta.Esi.Request.{
  Events, Reply, responded, err, rate_limited, bytes, finish_stream, test_error, receive, send,
  admit, attempt, perform, do_request, with_mutex,
}
use eve_industry_planner_sta.Esi.Request.Calls.{perform-IsWellFormed}
use eve_industry_planner_sta.Esi.Request.Reading.{do_and_read}
use eve_industry_planner_sta.Esi.Request.Budget.{
  SameCall, limiter_for, perform_sent, do_and_read-refines,
}
use eve_industry_planner_sta.Esi.Request.Backoff.{
  IsTooManyRequests, too_many_requests_stops_next_call,
}
use eve_industry_planner_sta.Esi.Examples.{
  at_1000, counted_response, plain_response, refused_response, feedback_at,
}

abbrev no_test : TestEnv
no_test = record {
  mode = "";
  path = "";
  scenario = "";
  retry_after = "";
  parse_duration = λ s. none;
}

unfoldable pub start : EsiClient
start = new_esi_client "https://esi.evetech.net" no_test (pos 0)

start-IsWellFormed : IsWellFormed start
unfolding start
start-IsWellFormed = new_esi_client-IsWellFormed "https://esi.evetech.net" no_test (pos 0)

group_named : counted_response.header "X-Ratelimit-Group" ≢ ""
group_named e = ground (arith, eq_iff "market" "")

group_not_default : counted_response.header "X-Ratelimit-Group" ≢ "default"
group_not_default e = ground (arith, eq_iff "market" "default")

update_from_headers-discovers_example :
    get_limiter_for_path "/v1/markets/prices/"
      (update_from_headers
        (feedback_at (pos 5))
        (get_limiter_for_path "/v1/markets/prices/" start).0
        counted_response
        (pos 2)
        "/v1/markets/prices/"
        start).1
    ≡ (
      (update_from_headers
          (feedback_at (pos 5))
          (get_limiter_for_path "/v1/markets/prices/" start).0
          counted_response
          (pos 2)
          "/v1/markets/prices/"
          start).0,
      true,
    )
update_from_headers-discovers_example =
    update_from_headers-discovers (feedback_at (pos 5)) counted_response (pos 2)
      "/v1/markets/prices/" start start-IsWellFormed group_named group_not_default

discovered_at_1 :
    (update_from_headers
      (feedback_at (pos 5))
      0
      counted_response
      (pos 2)
      "/v1/markets/prices/"
      start).0
    ≡ 1
unfolding update_from_headers resolve_limiter get_or_create_group_limiter start new_esi_client
    lookup limiter_at header_limit
discovered_at_1 = refl

start_stored : 0 < length start.store
unfolding start new_esi_client
start_stored = omega arith

update_from_headers_frame_example :
    limiter_at
      (update_from_headers
        (feedback_at (pos 5))
        0
        counted_response
        (pos 2)
        "/v1/markets/prices/"
        start).1
      0
    ≡ limiter_at start 0
update_from_headers_frame_example =
    update_from_headers_frame (feedback_at (pos 5)) 0 counted_response (pos 2) "/v1/markets/prices/"
      start 0 start_stored (λ e. ground (arith, discovered_at_1, e))

abbrev pub events : Reply → Events
events reply = record {
  test_at = pos 0;
  check = at_1000;
  wait_error = none;
  build_error = none;
  reply = reply;
  feedback = feedback_at (pos 1_001_000_000_000);
  reply_at = pos 1_002_000_000_000;
}

perform-IsWellFormed_example :
    IsWellFormed
      (perform
        (finish_stream (pos 0))
        (events (responded counted_response))
        "/v1/industry/systems/"
        start).client
perform-IsWellFormed_example =
    perform-IsWellFormed (finish_stream (pos 0)) (events (responded counted_response))
      "/v1/industry/systems/" start start-IsWellFormed

start-IsTracked : IsTracked (limiter_for "/v1/industry/systems/" start)
unfolding start new_esi_client limiter_at get_limiter_for_path lookup
start-IsTracked = record { history = tt; light = omega arith }

start_untested : start.test_mode ≡ false
unfolding start new_esi_client
start_untested = refl

plain_sent :
    (perform
      (finish_stream (pos 0))
      (events (responded plain_response))
      "/v1/industry/systems/"
      start).sent
    ≡ 1
unfolding perform attempt admit send receive start new_esi_client limiter_at get_limiter_for_path
    lookup with_mutex get_mutex_for_unknown_path insert write_limiter test_error can_make_request
    cleanup_old_consumptions check_tokens add64 ◌-ℤ◌ update_from_headers
plain_sent = refl

refused_sent :
    (perform
      (finish_stream (pos 0))
      (events (responded refused_response))
      "/v1/industry/systems/"
      start).sent
    ≡ 1
unfolding perform attempt admit send receive start new_esi_client limiter_at get_limiter_for_path
    lookup with_mutex get_mutex_for_unknown_path insert write_limiter test_error can_make_request
    cleanup_old_consumptions check_tokens add64 ◌-ℤ◌ update_from_headers
refused_sent = refl

refused_response-IsTooManyRequests : IsTooManyRequests refused_response (pos 60)
unfolding atoi
refused_response-IsTooManyRequests = record {
  status = refl;
  given = λ e. ground (arith, eq_iff "60" "");
  parsed = refl;
}

refused_not_default : refused_response.header "X-Ratelimit-Group" ≢ "default"
refused_not_default e = ground (arith, eq_iff "market" "default")

delay_ahead : at_1000.now <ℤ pos 1_001_000_000_000 +ℤ seconds_duration (pos 60)
unfolding ◌+ℤ◌ mul64
delay_ahead = omega arith

perform_sent_example :
    ((limiter_for "/v1/industry/systems/" start).retry_after ≤ℤ at_1000.now)
    × (pos (spent at_1000 (limiter_for "/v1/industry/systems/" start) + 2)
        ≤ℤ (limiter_for "/v1/industry/systems/" start).token_limit)
perform_sent_example =
    perform_sent (finish_stream (pos 0)) (events (responded plain_response)) "/v1/industry/systems/"
      start start-IsTracked plain_sent

do_and_read-refines_example :
    SameCall
      (bytes "[]")
      (do_and_read (bytes "[]") (events (responded counted_response)) "/v1/industry/systems/" start)
      (do_request (events (responded counted_response)) "/v1/industry/systems/" start)
do_and_read-refines_example =
    do_and_read-refines (events (responded counted_response)) "/v1/industry/systems/" (bytes "[]")
      start

too_many_requests_stops_next_call_example :
    ((perform
        (finish_stream (pos 0))
        (events (responded plain_response))
        "/v1/industry/systems/"
        (perform
          (finish_stream (pos 0))
          (events (responded refused_response))
          "/v1/industry/systems/"
          start).client).sent
      ≡ 0)
    × (e : RateLimitError) × ((perform
          (finish_stream (pos 0))
          (events (responded plain_response))
          "/v1/industry/systems/"
          (perform
            (finish_stream (pos 0))
            (events (responded refused_response))
            "/v1/industry/systems/"
            start).client).result
        ≡ err (rate_limited e))
    × (e.retryable ≡ true)
    × (e.retry_after ≡ pos 1_001_000_000_000 +ℤ seconds_duration (pos 60))
too_many_requests_stops_next_call_example =
    too_many_requests_stops_next_call (finish_stream (pos 0)) (finish_stream (pos 0))
      (events (responded refused_response)) (events (responded plain_response))
      "/v1/industry/systems/" start refused_response (pos 60) start-IsWellFormed start_untested refl
      refused_sent refused_response-IsTooManyRequests refused_not_default delay_ahead
