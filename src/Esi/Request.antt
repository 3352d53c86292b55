-- ===== src/Esi/Request.antt =====
-- `DoRequest` and the test mode (internal/core/esi/rate_limited_client.go). What the client
-- does not decide is an event of the call: the readings of the clock, and the results of
-- `Limiter.Wait`, of building the request, of the HTTP exchange and of reading the body.
pub mod Calls
pub mod Budget
pub mod Backoff
pub mod Reading
use eve_industry_planner_sta.Prelude.{
  ℕ, ◌+◌, String, Bool, true, false, Option, none, some, ◌&&◌, if◌then◌else◌, str_eq,
}
use eve_industry_planner_sta.Prelude.Int.{ℤ, pos, ◌+ℤ◌, ◌*ℤ◌, eqb_ℤ}
use eve_industry_planner_sta.Prelude.Text.{atoi, has_prefix}
use eve_industry_planner_sta.Esi.Bucket.{
  GroupLimiter, RateLimitError, CheckClock, can_make_request, get_tokens_for_status, window, minute,
}
use eve_industry_planner_sta.Esi.Client.{
  EsiClient, limiter_at, write_limiter, get_limiter_for_path, get_mutex_for_unknown_path,
}
use eve_industry_planner_sta.Esi.Feedback.{
  Response, FeedbackClock, update_from_headers, seconds_duration,
}

-- An error of the client: a classified one, or any other with its text.
pub data EsiError : Type 0 where
  rate_limited : RateLimitError → EsiError
  other : String → EsiError

-- errors.As(err, &rateLimitErr)
unfoldable pub get_rate_limit_error : EsiError → Option RateLimitError
get_rate_limit_error (rate_limited e) = some e
get_rate_limit_error (other text) = none

unfoldable pub is_rate_limit_error : EsiError → Bool
is_rate_limit_error (rate_limited e) = true
is_rate_limit_error (other text) = false

unfoldable pub is_retryable_rate_limit_error : EsiError → Bool
is_retryable_rate_limit_error (rate_limited e) = e.retryable
is_retryable_rate_limit_error (other text) = false

-- The HTTP exchange: an error, or a response.
pub data Reply : Type 0 where
  failed : String → Reply
  responded : Response → Reply

pub record Events : Type 0 where
  pub test_at : ℤ
  pub check : CheckClock
  pub wait_error : Option String
  pub build_error : Option String
  pub reply : Reply
  pub feedback : FeedbackClock
  pub reply_at : ℤ

-- What a call leaves: the client, the number of HTTP requests sent, and the error or the response.
pub data Result {ℓ} (A : Type ℓ) : Type ℓ where
  ok : A → Result A
  err : EsiError → Result A

pub record Exchange {ℓ} (A : Type ℓ) : Type ℓ where
  pub client : EsiClient
  pub sent : ℕ
  pub result : Result A

unfoldable pub should_inject_test_error : EsiClient → String → Bool
should_inject_test_error c path =
    if c.test_mode
    then if str_eq c.test_mode_path "" then true else has_prefix path c.test_mode_path
    else false

-- The scenario's verdict: retryable, when, and why; `none` for the one that injects nothing.
pub test_scenario : EsiClient → ℤ → Option (Bool × ℤ × String)
test_scenario c now =
    if str_eq c.test_mode_scenario "retryable_short"
    then some (true, now +ℤ pos 30_000_000_000, "test mode: retryable rate limit (short delay)")
    else if str_eq c.test_mode_scenario "retryable_long"
    then some (true, now +ℤ c.test_mode_retry_after, "test mode: retryable rate limit (long delay)")
    else if str_eq c.test_mode_scenario "non_retryable"
    then some
        (false, pos 0, "test mode: non-retryable rate limit (insufficient tokens, >5 min wait)")
    else if str_eq c.test_mode_scenario "429_response"
    then none
    else some (true, now +ℤ pos 30_000_000_000, "test mode: default retryable rate limit")

unfoldable pub inject_test_rate_limit_error :
    EsiClient → ℤ → GroupLimiter → ℤ → Option RateLimitError
unfolding test_scenario
inject_test_rate_limit_error c now gl estimated = elim (test_scenario c now) [
  | none ↦ none
  | some (retryable, retry_after, reason) ↦ some (record {
    retryable = retryable;
    retry_after = retry_after;
    reason = reason;
    group = gl.name;
    token_used = gl.token_used;
    token_limit = gl.token_limit;
    estimated_tokens = estimated;
  })
]

-- The classified error of a 429 response.
unfoldable pub too_many_requests : ℤ → Response → ℤ → GroupLimiter → RateLimitError
too_many_requests now resp tokens gl =
    let delay : Option ℤ =
      if str_eq (resp.header "Retry-After") "" then none else atoi (resp.header "Retry-After") in
    record {
      retryable = elim delay [ none ↦ false | some seconds ↦ true ];
      retry_after = elim delay [
        | none ↦ now +ℤ window
        | some seconds ↦ now +ℤ seconds_duration seconds
      ];
      reason = "server returned 429 Too Many Requests";
      group = gl.name;
      token_used = gl.token_used;
      token_limit = gl.token_limit;
      estimated_tokens = tokens;
    }

-- What the caller makes of a response: the limiter after the feedback, the tokens, the response.
abbrev pub Finish : Type 0 → Type 0
Finish A = GroupLimiter → ℤ → Response → Result A

-- `DoRequest` hands the response on, unless it is a 429.
unfoldable pub finish_stream : ℤ → Finish Response
finish_stream reply_at gl tokens resp =
    if eqb_ℤ resp.status_code (pos 429)
    then err (rate_limited (too_many_requests reply_at resp tokens gl))
    else ok resp

-- The body of a response is text, or an error of the read.
pub data Body : Type 0 where
  unreadable : String → Body
  bytes : String → Body

-- The client once the mutex of an unknown path is there. Its locking is left to Threads.
unfoldable pub with_mutex : Bool → String → EsiClient → EsiClient
with_mutex true path c = c
with_mutex false path c = (get_mutex_for_unknown_path path c).1

-- The injected error of the test mode, if any.
unfoldable pub test_error : Events → ℕ → String → EsiClient → Option RateLimitError
test_error ev gl path c =
    if c.test_mode && should_inject_test_error c path
    then inject_test_rate_limit_error c ev.test_at (limiter_at c gl) (pos 2)
    else none

module _ {A : Type 0} (finish : Finish A) (ev : Events) (gl : ℕ) (path : String) where
  -- From the response on: the feedback, and the caller's part.
  unfoldable pub receive : Response → EsiClient → Exchange A
  receive resp c =
      let tokens = get_tokens_for_status resp.status_code in
      let (actual, c') = update_from_headers ev.feedback gl resp tokens path c in
      record { client = c'; sent = 1; result = finish (limiter_at c' actual) tokens resp }

  -- Past the token check: the general limiter, the request, the exchange.
  unfoldable pub send : Option String → Option String → Reply → EsiClient → Exchange A
  send (some text) build_error reply c = record { client = c; sent = 0; result = err (other text) }
  send none (some text) reply c = record { client = c; sent = 0; result = err (other text) }
  send none none (failed text) c = record { client = c; sent = 1; result = err (other text) }
  send none none (responded resp) c = receive resp c

  -- After the token check.
  unfoldable pub admit : Option RateLimitError → EsiClient → Exchange A
  admit (some e) c = record { client = c; sent = 0; result = err (rate_limited e) }
  admit none c = send ev.wait_error ev.build_error ev.reply c

  -- The token check of a call, which cleans the limiter, unless the test mode injects an error.
  unfoldable pub attempt : Option RateLimitError → EsiClient → Exchange A
  attempt (some e) c = record { client = c; sent = 0; result = err (rate_limited e) }
  attempt none c =
      let (checked, refusal) = can_make_request ev.check (limiter_at c gl) (pos 2) in
      admit refusal (write_limiter gl checked c)

-- `DoRequest`, with what it makes of the response as a parameter.
unfoldable pub perform : {A : Type 0} → Finish A → Events → String → EsiClient → Exchange A
perform finish ev path c =
    let (gl, known) = get_limiter_for_path path c in
    let c' = with_mutex known path c in attempt finish ev gl path (test_error ev gl path c') c'

unfoldable pub do_request : Events → String → EsiClient → Exchange Response
unfolding perform
do_request ev path c = perform (finish_stream ev.reply_at) ev path c
