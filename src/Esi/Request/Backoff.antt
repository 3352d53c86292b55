-- ===== src/Esi/Request/Backoff.antt =====
-- A 429 response and the next call for its path (internal/core/esi/rate_limited_client.go).
use eve_industry_planner_sta.Prelude.{
  ℕ, ◌<◌, ◌≡◌, refl, ◌≢◌, ◌∙◌, ap, inl, inr, String, Bool, true, false, Option, none, some, arith,
  length, Bool-cases, str_eq, eq_iff,
}
use eve_industry_planner_sta.Prelude.Int.{ℤ, pos, ◌+ℤ◌, ◌<ℤ◌}
use eve_industry_planner_sta.Prelude.Text.{atoi}
use eve_industry_planner_sta.Esi.Bucket.{
  GroupLimiter, RateLimitError, can_make_request, get_tokens_for_status,
}
use eve_industry_planner_sta.Esi.Client.{
  EsiClient, limiter_at, write_limiter, get_limiter_for_path, get_or_create_group_limiter, map_path,
  register_limiter,
}
use eve_industry_planner_sta.Esi.Client.WellFormed.{
  IsWellFormed, limiter_at-write_self, write_limiter-IsWellFormed, get_limiter_for_path-stored,
}
use eve_industry_planner_sta.Esi.Feedback.{
  Response, FeedbackClock, resolve_limiter, apply_feedback, update_from_headers, seconds_duration,
}
use eve_industry_planner_sta.Esi.Feedback.Registry.{
  resolve_limiter-IsWellFormed, update_from_headers-discovers, update_from_headers_unnamed,
  get_limiter-write,
}
use eve_industry_planner_sta.Esi.Feedback.Usage.{too_many_requests_blocks}
use eve_industry_planner_sta.Esi.Request.{
  Exchange, rate_limited, Events, responded, err, Finish, with_mutex, test_error, receive, send,
  admit, attempt, perform,
}
use eve_industry_planner_sta.Esi.Request.Calls.{
  attempt_sent, name-can_make_request, with_mutex-IsWellFormed, store-with_mutex,
  get_limiter-with_mutex, with_mutex_only,
}
use eve_industry_planner_sta.Esi.Request.Budget.{limiter_for, limiter_at-with_mutex}

-- A 429 response with a delay in `Retry-After`, in seconds.
pub record IsTooManyRequests (resp : Response) (seconds : ℤ) : Type 0 where
  pub status : resp.status_code ≡ pos 429
  pub given : resp.header "Retry-After" ≢ ""
  pub parsed : atoi (resp.header "Retry-After") ≡ some seconds

-- The limiter that a response was counted on is the path's from then on.
actual-eq :
    (k : FeedbackClock) (resp : Response) (tokens : ℤ) (path : String) (c : EsiClient)
    → IsWellFormed c
    → resp.header "X-Ratelimit-Group" ≢ "default"
    → (get_limiter_for_path path
        (update_from_headers k (get_limiter_for_path path c).0 resp tokens path c).1).0
      ≡ (update_from_headers k (get_limiter_for_path path c).0 resp tokens path c).0
actual-eq k resp tokens path c v d =
    elim (Bool-cases (str_eq (resp.header "X-Ratelimit-Group") "")) [
      | inl e ↦ update_from_headers_unnamed k resp tokens path c ((eq_iff _ _).0 e)
      | inr e ↦
          ap (λ (r : ℕ × Bool). r.0)
            (update_from_headers-discovers k resp tokens path c v
              (λ n. ground (arith, eq_iff (resp.header "X-Ratelimit-Group") "")) d)
    ]

-- After a 429 the limiter of the path blocks until the end of the delay.
limiter_after :
    (k : FeedbackClock) (resp : Response) (tokens : ℤ) (path : String) (c : EsiClient)
    → IsWellFormed c
    → resp.header "X-Ratelimit-Group" ≢ "default"
    → (gl : GroupLimiter) × (limiter_for path
          (update_from_headers k (get_limiter_for_path path c).0 resp tokens path c).1
        ≡ apply_feedback k resp tokens gl)
limiter_after k resp tokens path c v d =
    let p = (get_limiter_for_path path c).0 in
    let (w, b) =
      resolve_limiter-IsWellFormed k p resp path c (get_limiter_for_path-stored path c v) v in
    (
      limiter_at (resolve_limiter k p resp path c).1 (resolve_limiter k p resp path c).0,
      rw (actual-eq k resp tokens path c v d) (
          unfold update_from_headers in
          limiter_at-write_self (resolve_limiter k p resp path c).1
            (resolve_limiter k p resp path c).0 _ b),
    )

-- No call touches the test mode.
test_mode-update :
    (k : FeedbackClock) (gl : ℕ) (resp : Response) (tokens : ℤ) (path : String) (c : EsiClient)
    → (update_from_headers k gl resp tokens path c).1.test_mode ≡ c.test_mode
unfolding update_from_headers resolve_limiter get_or_create_group_limiter map_path register_limiter
    write_limiter
test_mode-update k gl resp tokens path c = ground arith

test_error_off :
    (ev : Events) (gl : ℕ) (path : String) (c : EsiClient)
    → c.test_mode ≡ false
    → test_error ev gl path c ≡ none
unfolding test_error
test_error_off ev gl path c e = rw e

module _ {A : Type 0} (finish : Finish A) (ev : Events) (gl : ℕ) (path : String) where
  -- A call that sent its request and got a response ends in `receive`.
  attempt_receives :
      (t : Option RateLimitError) (c : EsiClient) (resp : Response)
      → ev.reply ≡ responded resp
      → (attempt finish ev gl path t c).sent ≡ 1
      → attempt finish ev gl path t c
        ≡ receive finish ev gl path resp
            (write_limiter gl (can_make_request ev.check (limiter_at c gl) (pos 2)).0 c)
  unfolding attempt admit
  attempt_receives (some e) c resp r s = ground arith
  attempt_receives none c resp r s =
      let (_, passed, waited, built) = attempt_sent finish ev gl path none c s in
      rw (passed, admit) (rw (waited, built, r) (unfold send in refl))

  -- A refused call sends nothing.
  attempt_refused :
      (c : EsiClient) (e : RateLimitError)
      → (can_make_request ev.check (limiter_at c gl) (pos 2)).1 ≡ some e
      → ((attempt finish ev gl path none c).sent ≡ 0)
        × ((attempt finish ev gl path none c).result ≡ err (rate_limited e))
  unfolding attempt admit
  attempt_refused c e h = (rw (h, admit), rw (h, admit))

off_with_mutex :
    (known : Bool) (path : String) (c : EsiClient)
    → c.test_mode ≡ false
    → (with_mutex known path c).test_mode ≡ false
off_with_mutex known path c off = let (u, m, e) = with_mutex_only known path c in rw e off

-- A call whose limiter's check refuses.
perform_refused :
    {A : Type 0} (finish : Finish A) (ev : Events) (path : String) (c : EsiClient)
    (e : RateLimitError)
    → c.test_mode ≡ false
    → (can_make_request ev.check (limiter_for path c) (pos 2)).1 ≡ some e
    → ((perform finish ev path c).sent ≡ 0)
      × ((perform finish ev path c).result ≡ err (rate_limited e))
unfolding perform
perform_refused finish ev path c e off h =
    let p = (get_limiter_for_path path c).0 in
    let known = (get_limiter_for_path path c).1 in
    rw (test_error_off ev p path (with_mutex known path c) (off_with_mutex known path c off)) (
      attempt_refused finish ev p path (with_mutex known path c) e
        (rw (limiter_at-with_mutex known path c p) h))

-- What is left by a call that sent its request and got a response: the feedback on a client that
-- is well formed and finds the limiter of the path where the call did.
perform_receives :
    {A : Type 0} (finish : Finish A) (ev : Events) (path : String) (c : EsiClient) (resp : Response)
    → IsWellFormed c
    → c.test_mode ≡ false
    → ev.reply ≡ responded resp
    → (perform finish ev path c).sent ≡ 1
    → (d : EsiClient) × IsWellFormed d
      × (d.test_mode ≡ false)
      × ((perform finish ev path c).client
          ≡ (update_from_headers ev.feedback
              (get_limiter_for_path path d).0
              resp
              (get_tokens_for_status resp.status_code)
              path
              d).1)
unfolding perform
perform_receives finish ev path c resp v off r s =
    let p = (get_limiter_for_path path c).0 in
    let known = (get_limiter_for_path path c).1 in
    let c' = with_mutex known path c in
    let checked = (can_make_request ev.check (limiter_at c' p) (pos 2)).0 in
    let stored : p < length c'.store =
      rw (store-with_mutex known path c) (get_limiter_for_path-stored path c v) in
    (
      write_limiter p checked c',
      write_limiter-IsWellFormed c' p checked stored (name-can_make_request ev (limiter_at c' p))
          (with_mutex-IsWellFormed known path c v),
      unfold write_limiter in off_with_mutex known path c off,
      rw (get_limiter-write path p checked c', get_limiter-with_mutex known path c)
          (ap (λ (x : Exchange _). x.client) (attempt_receives finish ev p path _ c' resp r s)
            ∙ unfold receive in refl),
    )

-- With the test mode off, after a call that met a 429 with a delay, in any group but one called
-- "default", a call for the same path sends nothing until the delay has passed since that response, and returns a retryable
-- error that names the end of the delay.
pub too_many_requests_stops_next_call :
    {A B : Type 0} (finish : Finish A) (finish' : Finish B) (ev ev' : Events) (path : String)
    (c : EsiClient) (resp : Response) (seconds : ℤ)
    → IsWellFormed c
    → c.test_mode ≡ false
    → ev.reply ≡ responded resp
    → (perform finish ev path c).sent ≡ 1
    → IsTooManyRequests resp seconds
    → resp.header "X-Ratelimit-Group" ≢ "default"
    → ev'.check.now <ℤ ev.feedback.now +ℤ seconds_duration seconds
    → ((perform finish' ev' path (perform finish ev path c).client).sent ≡ 0)
      × (e : RateLimitError) × ((perform finish' ev' path (perform finish ev path c).client).result
          ≡ err (rate_limited e))
      × (e.retryable ≡ true)
      × (e.retry_after ≡ ev.feedback.now +ℤ seconds_duration seconds)
too_many_requests_stops_next_call finish finish' ev ev' path c resp seconds v off r s t d h =
    let tokens = get_tokens_for_status resp.status_code in
    let (c₁, v₁, off₁, left) = perform_receives finish ev path c resp v off r s in
    let p = (get_limiter_for_path path c₁).0 in
    let (gl, at) = limiter_after ev.feedback resp tokens path c₁ v₁ d in
    let (e, refused, retryable, due) =
      too_many_requests_blocks ev'.check ev.feedback resp tokens (pos 2) _ gl t.status
        (inr (seconds, t.given, t.parsed, refl)) h in
    let (nothing, result) =
      perform_refused finish' ev' path (update_from_headers ev.feedback p resp tokens path c₁).1 e
        (test_mode-update ev.feedback p resp tokens path c₁ ∙ off₁) (rw at refused) in
    (rw left nothing, e, rw left result, retryable, due)
