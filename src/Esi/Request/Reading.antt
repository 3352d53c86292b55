-- ===== src/Esi/Request/Reading.antt =====
-- `Do` (internal/core/esi/rate_limited_client.go), which repeats the text of `DoRequest` and reads the
-- body.
use eve_industry_planner_sta.Prelude.{
  ℕ, String, Bool, true, false, Option, none, some, ◌&&◌, if◌then◌else◌, str_eq,
}
use eve_industry_planner_sta.Prelude.Int.{ℤ, pos, ◌+ℤ◌, eqb_ℤ}
use eve_industry_planner_sta.Prelude.Text.{atoi}
use eve_industry_planner_sta.Esi.Bucket.{
  GroupLimiter, RateLimitError, can_make_request, get_tokens_for_status, window,
}
use eve_industry_planner_sta.Esi.Client.{
  EsiClient, limiter_at, write_limiter, get_limiter_for_path, get_mutex_for_unknown_path,
}
use eve_industry_planner_sta.Esi.Feedback.{Response, update_from_headers, seconds_duration}
use eve_industry_planner_sta.Esi.Request.{
  rate_limited, other, Reply, failed, responded, Events, Result, ok, err, Exchange, Body,
  unreadable, bytes, should_inject_test_error, inject_test_rate_limit_error,
}

module _ (body : Body) (ev : Events) (path : String) where
  -- The seconds of the header, if it is there and parses.
  unfoldable pub retry_after_of : Response → Option ℤ
  retry_after_of resp =
      let text = resp.header "Retry-After" in if str_eq text "" then none else atoi text

  unfoldable pub too_many_error : Option ℤ → ℤ → GroupLimiter → RateLimitError
  too_many_error none tokens gl = record {
    retryable = false;
    retry_after = ev.reply_at +ℤ window;
    reason = "server returned 429 Too Many Requests";
    group = gl.name;
    token_used = gl.token_used;
    token_limit = gl.token_limit;
    estimated_tokens = tokens;
  }
  too_many_error (some seconds) tokens gl = record {
    retryable = true;
    retry_after = ev.reply_at +ℤ seconds_duration seconds;
    reason = "server returned 429 Too Many Requests";
    group = gl.name;
    token_used = gl.token_used;
    token_limit = gl.token_limit;
    estimated_tokens = tokens;
  }

  -- From the read of the body on.
  unfoldable pub read_body : Body → Response → ℤ → GroupLimiter → Result String
  unfolding too_many_error retry_after_of
  read_body (unreadable text) resp tokens gl = err (other text)
  read_body (bytes text) resp tokens gl =
      if eqb_ℤ resp.status_code (pos 429)
      then err (rate_limited (too_many_error (retry_after_of resp) tokens gl))
      else ok text

  -- From the response on.
  unfoldable pub receive_and_read : ℕ → Response → EsiClient → Exchange String
  unfolding read_body
  receive_and_read gl resp c =
      let tokens = get_tokens_for_status resp.status_code in
      let (actual, c') = update_from_headers ev.feedback gl resp tokens path c in
      record { client = c'; sent = 1; result = read_body body resp tokens (limiter_at c' actual) }

  -- From the wait for the general limiter on: its error, that of building the request, the exchange.
  unfoldable pub send_and_read :
      ℕ → Option String → Option String → Reply → EsiClient → Exchange String
  unfolding receive_and_read
  send_and_read gl (some text) build_error reply c = record {
    client = c;
    sent = 0;
    result = err (other text);
  }
  send_and_read gl none (some text) reply c = record {
    client = c;
    sent = 0;
    result = err (other text);
  }
  send_and_read gl none none (failed text) c = record {
    client = c;
    sent = 1;
    result = err (other text);
  }
  send_and_read gl none none (responded resp) c = receive_and_read gl resp c

  -- From the result of the check of the tokens on.
  unfoldable pub admit_and_read : ℕ → Option RateLimitError → EsiClient → Exchange String
  unfolding send_and_read
  admit_and_read gl (some e) c = record { client = c; sent = 0; result = err (rate_limited e) }
  admit_and_read gl none c = send_and_read gl ev.wait_error ev.build_error ev.reply c

  -- From the error that the test mode injects on, if any: the check of the tokens.
  unfoldable pub check_and_read : ℕ → Option RateLimitError → EsiClient → Exchange String
  unfolding admit_and_read
  check_and_read gl (some e) c = record { client = c; sent = 0; result = err (rate_limited e) }
  check_and_read gl none c =
      let (checked, refusal) = can_make_request ev.check (limiter_at c gl) (pos 2) in
      admit_and_read gl refusal (write_limiter gl checked c)

  unfoldable pub injected_error : ℕ → EsiClient → Option RateLimitError
  injected_error gl c =
      if c.test_mode && should_inject_test_error c path
      then inject_test_rate_limit_error c ev.test_at (limiter_at c gl) (pos 2)
      else none

  unfoldable pub discover : Bool → EsiClient → EsiClient
  discover true c = c
  discover false c = (get_mutex_for_unknown_path path c).1

  unfoldable pub do_and_read : EsiClient → Exchange String
  unfolding check_and_read injected_error discover
  do_and_read c =
      let (gl, known) = get_limiter_for_path path c in
      let c' = discover known c in check_and_read gl (injected_error gl c') c'
