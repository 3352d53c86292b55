-- ===== src/Esi/Bucket/Admission.antt =====
-- When `canMakeRequest` lets a request through, and what a refusal says
-- (internal/core/esi/rate_limited_client.go).
use eve_industry_planner_sta.Prelude.{
  ℕ, ◌+◌, ◌^◌, ◌<◌, ◌≡◌, refl, ap, ◌≢◌, ◌↔◌, true, [], none, some, arith, length,
}
use eve_industry_planner_sta.Prelude.Int.{ℤ, pos, ◌+ℤ◌, ◌≤ℤ◌, ◌<ℤ◌, ltb_ℤ, +ℤ_parts, -ℤ_parts}
use eve_industry_planner_sta.Esi.Bucket.{
  GroupLimiter, RateLimitError, CheckClock, can_make_request, check_tokens, insufficient_error,
  cleanup_old_consumptions, until, oldest_expiry, five_minutes,
}
use eve_industry_planner_sta.Esi.Bucket.Window.{
  IsHistory, weight, live, cutoff_at, cleanup_old_consumptions_lem, oldest_expiry_first,
  weight-live, add64_small,
}

-- A history of costs, with room below the end of `int` for its sum and one request.
pub record IsTracked (gl : GroupLimiter) : Type 0 where
  pub history : IsHistory gl.consumptions
  pub light : weight gl.consumptions < 2 ^ 62

-- The tokens spent within the window before a cleanup.
abbrev pub spent : CheckClock → GroupLimiter → ℕ
spent k gl = weight (live (cutoff_at k.cleanup_at gl) gl.consumptions)

pub cleaned-eq :
    (k : CheckClock) (gl : GroupLimiter)
    → IsTracked gl
    → cleanup_old_consumptions k.cleanup_at gl ≡ record gl {
      consumptions = live (cutoff_at k.cleanup_at gl) gl.consumptions;
      token_used = pos (spent k gl);
      last_update = k.cleanup_at;
    }
cleaned-eq k gl v =
    cleanup_old_consumptions_lem k.cleanup_at gl v.history
      (omega (arith, weight-live (cutoff_at k.cleanup_at gl) gl.consumptions, v.light))

check_tokens-admits :
    (k : CheckClock) (gl : GroupLimiter) (u e : ℕ)
    → u < 2 ^ 62
    → e < 2 ^ 62
    → gl.token_used ≡ pos u
    → (check_tokens k gl (pos e) ≡ none)
      ↔ ((gl.retry_after ≤ℤ k.now) × (pos (u + e) ≤ℤ gl.token_limit))
unfolding check_tokens
check_tokens-admits k gl u e a b h =
    rw h (rw (add64_small u (pos e) refl (omega arith)) (ground arith))

-- A request is let through exactly when no retry-after period is active and the tokens spent within
-- the window, with those of the request, stay within the limit.
pub can_make_request-admits :
    (k : CheckClock) (gl : GroupLimiter) (e : ℕ)
    → IsTracked gl
    → e < 2 ^ 62
    → ((can_make_request k gl (pos e)).1 ≡ none)
      ↔ ((gl.retry_after ≤ℤ k.now) × (pos (spent k gl + e) ≤ℤ gl.token_limit))
unfolding can_make_request
can_make_request-admits k gl e v b = rw (cleaned-eq k gl v) (
    check_tokens-admits k _ (spent k gl) e
      (omega (arith, weight-live (cutoff_at k.cleanup_at gl) gl.consumptions, v.light)) b refl)

check_tokens-refuses :
    (k : CheckClock) (gl : GroupLimiter) (estimated : ℤ) (err : RateLimitError)
    → gl.retry_after ≤ℤ k.now
    → check_tokens k gl estimated ≡ some err
    → err ≡ insufficient_error k gl estimated
unfolding check_tokens
check_tokens-refuses k gl estimated err h e = ground arith

until_below : (t now : ℤ) → (ltb_ℤ (until t now) five_minutes ≡ true) ↔ (t <ℤ now +ℤ five_minutes)
unfolding until
until_below t now = ground (arith, -ℤ_parts t now, +ℤ_parts now five_minutes)

insufficient_retryable :
    (k : CheckClock) (gl : GroupLimiter) (estimated : ℤ)
    → ((insufficient_error k gl estimated).retryable ≡ true) ↔ (
        (k.now <ℤ (insufficient_error k gl estimated).retry_after)
        × ((insufficient_error k gl estimated).retry_after <ℤ k.until_at +ℤ five_minutes))
unfolding insufficient_error
insufficient_retryable k gl estimated =
    ground (arith, until_below (oldest_expiry k.now gl.window_duration gl.consumptions) k.until_at)

-- When a request is refused while no retry-after period is active, and the cleaned history is not
-- empty, the error's retry time is the first instant at which a cleanup drops an entry of that
-- history: an earlier cleanup drops none, and each from then on drops at least one. The error is
-- retryable exactly when that instant lies ahead by less than five minutes.
pub can_make_request-refuses :
    (k : CheckClock) (gl gl' : GroupLimiter) (estimated : ℤ) (err : RateLimitError)
    → gl'.retry_after ≤ℤ k.now
    → gl'.consumptions ≢ []
    → can_make_request k gl estimated ≡ (gl', some err)
    → ((t : ℤ) → t <ℤ err.retry_after → live (cutoff_at t gl') gl'.consumptions ≡ gl'.consumptions)
      × ((t : ℤ)
          → err.retry_after ≤ℤ t
          → length (live (cutoff_at t gl') gl'.consumptions) < length gl'.consumptions)
      × ((err.retryable ≡ true)
          ↔ ((k.now <ℤ err.retry_after) × (err.retry_after <ℤ k.until_at +ℤ five_minutes)))
unfolding can_make_request
can_make_request-refuses k gl gl' estimated err h ne e =
    let same : err ≡ insufficient_error k gl' estimated =
      check_tokens-refuses k gl' estimated err h (ground arith) in
    let expiry : err.retry_after ≡ oldest_expiry k.now gl'.window_duration gl'.consumptions =
      unfold insufficient_error in ap (λ (r : RateLimitError). r.retry_after) same in
    let (before, after) = oldest_expiry_first k.now gl' ne in
    (
      (λ t b. before t (rw expiry at b)),
      (λ t b. after t (rw expiry at b)),
      rw same (insufficient_retryable k gl' estimated),
    )
