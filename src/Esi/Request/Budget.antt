-- ===== src/Esi/Request/Budget.antt =====
-- A request leaves only within the budget, and `Do` is `DoRequest` with the body read
-- (internal/core/esi/rate_limited_client.go).
use eve_industry_planner_sta.Prelude.{
  ℕ, ◌+◌, ◌≡◌, refl, String, Bool, Option, none, some, arith, true, false,
}
use eve_industry_planner_sta.Prelude.Int.{ℤ, pos, ◌+ℤ◌, ◌≤ℤ◌}
use eve_industry_planner_sta.Esi.Bucket.{GroupLimiter, RateLimitError, window}
use eve_industry_planner_sta.Esi.Bucket.Admission.{IsTracked, spent, can_make_request-admits}
use eve_industry_planner_sta.Esi.Client.{EsiClient, limiter_at, get_limiter_for_path}
use eve_industry_planner_sta.Esi.Feedback.{Response, seconds_duration}
use eve_industry_planner_sta.Esi.Request.{
  Events, Reply, failed, responded, Exchange, Result, ok, err, Finish, bytes, finish_stream,
  with_mutex, receive, send, admit, attempt, perform, do_request, Body, too_many_requests,
  test_error,
}
use eve_industry_planner_sta.Esi.Request.Reading.{
  retry_after_of, too_many_error, read_body, receive_and_read, send_and_read, admit_and_read,
  check_and_read, injected_error, discover, do_and_read,
}
use eve_industry_planner_sta.Esi.Request.Calls.{attempt_sent, with_mutex_only}

-- The limiter that a call is checked against.
abbrev pub limiter_for : String → EsiClient → GroupLimiter
limiter_for path c = limiter_at c (get_limiter_for_path path c).0

pub limiter_at-with_mutex :
    (known : Bool) (path : String) (c : EsiClient) (p : ℕ)
    → limiter_at (with_mutex known path c) p ≡ limiter_at c p
unfolding limiter_at
limiter_at-with_mutex known path c p = let (u, m, e) = with_mutex_only known path c in rw e

-- A call sends its request only if no retry-after period of the path's limiter is active, and the
-- tokens spent within the window leave room for the two tokens of the estimate.
pub perform_sent :
    {A : Type 0} (finish : Finish A) (ev : Events) (path : String) (c : EsiClient)
    → IsTracked (limiter_for path c)
    → (perform finish ev path c).sent ≡ 1
    → ((limiter_for path c).retry_after ≤ℤ ev.check.now)
      × (pos (spent ev.check (limiter_for path c) + 2) ≤ℤ (limiter_for path c).token_limit)
unfolding perform
perform_sent finish ev path c v e =
    let gl = (get_limiter_for_path path c).0 in
    let (_, passed, _, _) = attempt_sent finish ev gl path _ _ e in
    (can_make_request-admits ev.check (limiter_for path c) 2 v (omega arith)).0
      (rw (limiter_at-with_mutex (get_limiter_for_path path c).1 path c gl) at passed)

-- The result of `Do` from that of `DoRequest`, when the body can be read.
abbrev pub with_body : String → Result Response → Result String
with_body body (ok resp) = ok body
with_body body (err e) = err e

-- Two exchanges that agree on the client, on the requests sent, and on the result up to the body, if
-- it can be read.
pub record SameCall (body : Body) (x : Exchange String) (y : Exchange Response) : Type 0 where
  pub client : x.client ≡ y.client
  pub sent : x.sent ≡ y.sent
  pub result : (text : String) → body ≡ bytes text → x.result ≡ with_body text y.result

module _ (ev : Events) (path : String) (body : Body) where
  too_many_error-delay :
      (delay : Option ℤ) (tokens : ℤ) (gl : GroupLimiter)
      → too_many_error body ev path delay tokens gl ≡ record {
        retryable = elim delay [ none ↦ false | some seconds ↦ true ];
        retry_after = elim delay [
          | none ↦ ev.reply_at +ℤ window
          | some seconds ↦ ev.reply_at +ℤ seconds_duration seconds
        ];
        reason = "server returned 429 Too Many Requests";
        group = gl.name;
        token_used = gl.token_used;
        token_limit = gl.token_limit;
        estimated_tokens = tokens;
      }
  unfolding too_many_error
  too_many_error-delay none tokens gl = refl
  too_many_error-delay (some seconds) tokens gl = refl

  too_many_error-same :
      (resp : Response) (tokens : ℤ) (gl : GroupLimiter)
      → too_many_error body ev path (retry_after_of body ev path resp) tokens gl
        ≡ too_many_requests ev.reply_at resp tokens gl
  unfolding too_many_requests retry_after_of
  too_many_error-same resp tokens gl =
      too_many_error-delay (retry_after_of body ev path resp) tokens gl

  read_body-same :
      (text : String) (resp : Response) (tokens : ℤ) (gl : GroupLimiter)
      → read_body body ev path (bytes text) resp tokens gl
        ≡ with_body text (finish_stream ev.reply_at gl tokens resp)
  unfolding read_body finish_stream
  read_body-same text resp tokens gl = ground (arith, too_many_error-same resp tokens gl)

  receive-SameCall :
      (gl : ℕ) (resp : Response) (c : EsiClient)
      → SameCall body
          (receive_and_read body ev path gl resp c)
          (receive (finish_stream ev.reply_at) ev gl path resp c)
  unfolding receive receive_and_read
  receive-SameCall gl resp c = record {
    client = refl;
    sent = refl;
    result = λ text e. rw e (read_body-same text resp _ _);
  }

  send-SameCall :
      (gl : ℕ) (w b : Option String) (reply : Reply) (c : EsiClient)
      → SameCall body
          (send_and_read body ev path gl w b reply c)
          (send (finish_stream ev.reply_at) ev gl path w b reply c)
  unfolding send send_and_read
  send-SameCall gl (some text) b reply c = record {
    client = refl;
    sent = refl;
    result = λ t e. refl;
  }
  send-SameCall gl none (some text) reply c = record {
    client = refl;
    sent = refl;
    result = λ t e. refl;
  }
  send-SameCall gl none none (failed text) c = record {
    client = refl;
    sent = refl;
    result = λ t e. refl;
  }
  send-SameCall gl none none (responded resp) c = receive-SameCall gl resp c

  admit-SameCall :
      (gl : ℕ) (refusal : Option RateLimitError) (c : EsiClient)
      → SameCall body
          (admit_and_read body ev path gl refusal c)
          (admit (finish_stream ev.reply_at) ev gl path refusal c)
  unfolding admit admit_and_read
  admit-SameCall gl (some e) c = record { client = refl; sent = refl; result = λ t e'. refl }
  admit-SameCall gl none c = send-SameCall gl ev.wait_error ev.build_error ev.reply c

  attempt-SameCall :
      (gl : ℕ) (t : Option RateLimitError) (c : EsiClient)
      → SameCall body
          (check_and_read body ev path gl t c)
          (attempt (finish_stream ev.reply_at) ev gl path t c)
  unfolding attempt check_and_read
  attempt-SameCall gl (some e) c = record { client = refl; sent = refl; result = λ t e'. refl }
  attempt-SameCall gl none c = admit-SameCall gl _ _

  discover-same :
      (known : Bool) (c : EsiClient) → discover body ev path known c ≡ with_mutex known path c
  unfolding discover with_mutex
  discover-same true c = refl
  discover-same false c = refl

  injected_error-same :
      (gl : ℕ) (c : EsiClient) → injected_error body ev path gl c ≡ test_error ev gl path c
  unfolding injected_error test_error
  injected_error-same gl c = refl

  -- `Do` leaves the client as `DoRequest` does and sends as many requests. When the body can be read,
  -- it returns the body where `DoRequest` returns the response, and the same error where it fails.
  pub do_and_read-refines :
      (c : EsiClient) → SameCall body (do_and_read body ev path c) (do_request ev path c)
  unfolding do_and_read do_request perform
  do_and_read-refines c =
      let (gl, known) = get_limiter_for_path path c in
      rw (discover-same known c)
        (rw (injected_error-same gl (with_mutex known path c)) (attempt-SameCall gl _ _))
