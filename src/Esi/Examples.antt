-- ===== src/Esi/Examples.antt =====
-- Runs of the client of EVE's API at concrete inputs, and the theorems of the modules beside this
-- one at those inputs (internal/core/esi/rate_limited_client.go).
pub mod Calls
use eve_industry_planner_sta.Prelude.{
  ℕ, ◌+◌, ◌<◌, ◌≤◌, ◌≡◌, refl, ◌≢◌, ◌↔◌, String, Bool, true, false, List, [], ◌∷◌, Option, none,
  some, arith, length, str_eq, eq_iff, if◌then◌else◌,
}
use eve_industry_planner_sta.Prelude.Int.{ℤ, pos, ◌+ℤ◌, ◌-ℤ◌, ◌≤ℤ◌, ◌<ℤ◌}
use eve_industry_planner_sta.Prelude.Word.{add64, mul64}
use eve_industry_planner_sta.Prelude.Dict.{lookup, insert}
use eve_industry_planner_sta.Prelude.Text.{atoi}
use eve_industry_planner_sta.Esi.Bucket.{
  TokenConsumption, GroupLimiter, RateLimitError, CheckClock, window, five_minutes,
  cleanup_old_consumptions, can_make_request, check_tokens, insufficient_error,
  get_tokens_for_status,
}
use eve_industry_planner_sta.Esi.Bucket.Window.{
  weight, live, cutoff_at, cleanup_old_consumptions_lem,
}
use eve_industry_planner_sta.Esi.Bucket.Admission.{
  IsTracked, spent, can_make_request-admits, can_make_request-refuses,
}
use eve_industry_planner_sta.Esi.Client.{
  EsiClient, TestEnv, new_limiter, new_esi_client, limiter_at, write_limiter, get_limiter_for_path,
  update_token_limit, get_or_create_group_limiter, map_path, register_limiter,
  get_mutex_for_unknown_path,
}
use eve_industry_planner_sta.Esi.Client.WellFormed.{IsWellFormed, new_esi_client-IsWellFormed}
use eve_industry_planner_sta.Esi.Feedback.{
  Response, FeedbackClock, header_limit, resolve_limiter, update_usage, update_retry_after,
  apply_feedback, update_from_headers, seconds_duration,
}
use eve_industry_planner_sta.Esi.Feedback.Registry.{
  update_from_headers-discovers, update_from_headers_frame,
}
use eve_industry_planner_sta.Esi.Feedback.Usage.{can_make_request-ignores_server_count}
use eve_industry_planner_sta.Esi.Feedback.Overshoot.{IsLocal, IsPlain, admitted-IsLocal}
use eve_industry_planner_sta.Esi.Request.{
  Events, Exchange, Reply, responded, ok, err, rate_limited, bytes, finish_stream, test_error,
  receive, send, admit, attempt, perform, do_request, with_mutex,
}
use eve_industry_planner_sta.Esi.Request.Calls.{perform-IsWellFormed}
use eve_industry_planner_sta.Esi.Request.Budget.{
  SameCall, limiter_for, perform_sent, do_and_read-refines,
}
use eve_industry_planner_sta.Esi.Request.Backoff.{
  IsTooManyRequests, too_many_requests_stops_next_call,
}

-- Two entries, of which the first is older than the window at 1000 seconds.
abbrev aged : GroupLimiter
aged = record (new_limiter "market" (pos 4) (pos 0)) {
  consumptions =
      record { tokens = pos 5; consumed = pos 10_000_000_000 }
      ∷ record { tokens = pos 2; consumed = pos 200_000_000_000 }
      ∷ [];
}

abbrev pub at_1000 : CheckClock
at_1000 = record {
  cleanup_at = pos 1_000_000_000_000;
  now = pos 1_000_000_000_000;
  until_at = pos 1_000_000_000_000;
}

cleanup_old_consumptions_lem_example :
    cleanup_old_consumptions (pos 1_000_000_000_000) aged ≡ record aged {
      consumptions = live (cutoff_at (pos 1_000_000_000_000) aged) aged.consumptions;
      token_used = pos (weight (live (cutoff_at (pos 1_000_000_000_000) aged) aged.consumptions));
      last_update = pos 1_000_000_000_000;
    }
unfolding ◌-ℤ◌
cleanup_old_consumptions_lem_example =
    cleanup_old_consumptions_lem (pos 1_000_000_000_000) aged (omega arith) (omega arith)

aged-IsTracked : IsTracked aged
aged-IsTracked = record { history = omega arith; light = omega arith }

can_make_request-admits_example :
    ((can_make_request at_1000 aged (pos 2)).1 ≡ none)
    ↔ ((aged.retry_after ≤ℤ at_1000.now) × (pos (spent at_1000 aged + 2) ≤ℤ aged.token_limit))
can_make_request-admits_example =
    can_make_request-admits at_1000 aged 2 aged-IsTracked (omega arith)

-- With three tokens asked for, the bucket of four refuses until the second entry expires at 1100.
abbrev fresh : GroupLimiter
fresh = record aged {
  consumptions = record { tokens = pos 2; consumed = pos 200_000_000_000 } ∷ [];
  token_used = pos 2;
  last_update = pos 1_000_000_000_000;
}

abbrev refusal : RateLimitError
refusal = record {
  retryable = true;
  retry_after = pos 1_100_000_000_000;
  reason = "insufficient tokens";
  group = "market";
  token_used = pos 2;
  token_limit = pos 4;
  estimated_tokens = pos 3;
}

aged_refused : can_make_request at_1000 aged (pos 3) ≡ (fresh, some refusal)
unfolding can_make_request cleanup_old_consumptions check_tokens insufficient_error add64 ◌-ℤ◌
aged_refused = refl

can_make_request-refuses_example :
    ((t : ℤ)
      → t <ℤ refusal.retry_after
      → live (cutoff_at t fresh) fresh.consumptions ≡ fresh.consumptions)
    × ((t : ℤ)
        → refusal.retry_after ≤ℤ t
        → length (live (cutoff_at t fresh) fresh.consumptions) < length fresh.consumptions)
    × ((refusal.retryable ≡ true) ↔ (
        (at_1000.now <ℤ refusal.retry_after)
        × (refusal.retry_after <ℤ at_1000.until_at +ℤ five_minutes)))
can_make_request-refuses_example =
    can_make_request-refuses at_1000 aged fresh (pos 3) refusal (omega arith) (λ e. cc e)
      aged_refused

-- A response with the counts of the server, one without any, and a 429.
abbrev pub counted_response : Response
counted_response = record {
  status_code = pos 200;
  header = λ k.
      if str_eq k "X-Ratelimit-Group"
      then "market"
      else if str_eq k "X-Ratelimit-Remaining"
      then "0"
      else if str_eq k "X-Ratelimit-Used"
      then "1000"
      else "";
}

abbrev pub plain_response : Response
plain_response = record { status_code = pos 404; header = λ k. "" }

abbrev pub refused_response : Response
refused_response = record {
  status_code = pos 429;
  header = λ k.
      if str_eq k "X-Ratelimit-Group"
      then "market"
      else if str_eq k "Retry-After"
      then "60"
      else "";
}

abbrev pub feedback_at : ℤ → FeedbackClock
feedback_at t = record { now = t; create_at = t; cleanup_at = t }

remaining_given : counted_response.header "X-Ratelimit-Remaining" ≢ ""
remaining_given e = ground (arith, eq_iff "0" "")

can_make_request-ignores_server_count_example :
    can_make_request at_1000
      (apply_feedback (feedback_at (pos 999_000_000_000)) counted_response (pos 2) aged)
      (pos 2)
    ≡ can_make_request at_1000
        (update_retry_after counted_response (pos 999_000_000_000) (
          update_token_limit
            (header_limit counted_response)
            (cleanup_old_consumptions (pos 999_000_000_000) aged)))
        (pos 2)
can_make_request-ignores_server_count_example =
    can_make_request-ignores_server_count at_1000 (feedback_at (pos 999_000_000_000))
      counted_response (pos 2) (pos 2) aged remaining_given

-- So the server's word that nothing remains does not stop the next request.
exhausted_admitted :
    (can_make_request at_1000
      (apply_feedback (feedback_at (pos 999_000_000_000)) counted_response (pos 2) aged)
      (pos 2)).1
    ≡ none
unfolding can_make_request cleanup_old_consumptions check_tokens insufficient_error add64 ◌-ℤ◌
    apply_feedback update_retry_after update_usage update_token_limit header_limit atoi
exhausted_admitted = refl

local : GroupLimiter
local = new_limiter "market" (pos 4) (pos 0)

local-IsLocal : IsLocal 4 local
unfolding local
local-IsLocal = record { limited = refl; counted = refl; within = omega arith; history = tt }

local_admitted : (can_make_request at_1000 local (pos 2)).1 ≡ none
unfolding local can_make_request cleanup_old_consumptions check_tokens insufficient_error add64 ◌-ℤ◌
local_admitted = refl

admitted-IsLocal_example : IsLocal 4 (
    apply_feedback
      (feedback_at (pos 1_000_000_000_000))
      plain_response
      (get_tokens_for_status (pos 404))
      (can_make_request at_1000 local (pos 2)).0)
admitted-IsLocal_example =
    admitted-IsLocal at_1000 (feedback_at (pos 1_000_000_000_000)) local plain_response 4
      (omega arith) (record { no_limit = refl; no_remaining = refl }) local-IsLocal local_admitted
