-- ===== src/Esi/Feedback/Usage.antt =====
-- How responses and the token check work together on one limiter
-- (internal/core/esi/rate_limited_client.go).
use eve_industry_planner_sta.Prelude.{
  ◌≤◌, ◌≡◌, refl, ◌≢◌, ◌∙◌, ◌⊎◌, sym, inl, inr, true, some, arith, Option-cases, Bool-cases, str_eq,
  eq_iff,
}
use eve_industry_planner_sta.Prelude.Int.{ℤ, pos, pos_part, neg_part, ◌+ℤ◌, ◌<ℤ◌}
use eve_industry_planner_sta.Prelude.Word.{sub64}
use eve_industry_planner_sta.Prelude.Text.{atoi}
use eve_industry_planner_sta.Esi.Bucket.{
  GroupLimiter, RateLimitError, CheckClock, cleanup_old_consumptions, can_make_request,
  check_tokens, blocked_error, get_tokens_for_status,
}
use eve_industry_planner_sta.Esi.Client.{update_token_limit}
use eve_industry_planner_sta.Esi.Feedback.{
  Response, FeedbackClock, header_limit, update_usage, update_retry_after, apply_feedback,
  seconds_duration,
}

-- Every status costs between 0 and 5 tokens.
pub get_tokens_for_status_bounds :
    (status : ℤ)
    → (neg_part (get_tokens_for_status status) ≡ 0) × (pos_part (get_tokens_for_status status) ≤ 5)
unfolding get_tokens_for_status
get_tokens_for_status_bounds status = ground arith

-- The check recomputes the count, so it does not depend on the count that it finds.
can_make_request-token_used :
    (k : CheckClock) (gl : GroupLimiter) (used estimated : ℤ)
    → can_make_request k (record gl { token_used = used }) estimated
      ≡ can_make_request k gl estimated
unfolding can_make_request cleanup_old_consumptions
can_make_request-token_used k gl used estimated = refl

update_retry_after-token_used :
    (resp : Response) (now used : ℤ) (gl : GroupLimiter)
    → update_retry_after resp now (record gl { token_used = used })
      ≡ record (update_retry_after resp now gl) { token_used = used }
unfolding update_retry_after
update_retry_after-token_used resp now used gl = ground arith

update_usage_server :
    (resp : Response) (tokens now : ℤ) (gl : GroupLimiter)
    → resp.header "X-Ratelimit-Remaining" ≢ ""
    → (used : ℤ) × (update_usage resp tokens now gl ≡ record gl { token_used = used })
unfolding update_usage
update_usage_server resp tokens now gl h =
    elim (Bool-cases (str_eq (resp.header "X-Ratelimit-Remaining") "")) [
      | inl e ↦ absurd (h ((eq_iff _ _).0 e))
      | inr e ↦ elim (Option-cases (atoi (resp.header "X-Ratelimit-Remaining"))) [
        | inl u ↦ (gl.token_used, rw (e, u, update_usage))
        | inr (r, u) ↦ elim (Bool-cases (str_eq (resp.header "X-Ratelimit-Used") "")) [
          | inl n ↦ (sub64 gl.token_limit r, rw (e, u, n, update_usage))
          | inr n ↦ elim (Option-cases (atoi (resp.header "X-Ratelimit-Used"))) [
            | inl w ↦ (gl.token_used, rw (e, u, n, w, update_usage))
            | inr (used, w) ↦ (used, rw (e, u, n, w, update_usage))
          ]
        ]
      ]
    ]

-- When a response says how many tokens remain, nothing that it says of them reaches the next token
-- check: the check decides as if the response had no `X-Ratelimit-Remaining` or `X-Ratelimit-Used`
-- and its own cost had not been counted.
pub can_make_request-ignores_server_count :
    (kc : CheckClock) (k : FeedbackClock) (resp : Response) (tokens estimated : ℤ)
    (gl : GroupLimiter)
    → resp.header "X-Ratelimit-Remaining" ≢ ""
    → can_make_request kc (apply_feedback k resp tokens gl) estimated
      ≡ can_make_request kc
          (update_retry_after resp k.now
            (update_token_limit (header_limit resp) (cleanup_old_consumptions k.cleanup_at gl)))
          estimated
unfolding apply_feedback
can_make_request-ignores_server_count kc k resp tokens estimated gl h =
    let (used, e) =
      update_usage_server resp tokens k.now
        (update_token_limit (header_limit resp) (cleanup_old_consumptions k.cleanup_at gl)) h in
    rw e (
      rw (update_retry_after-token_used resp k.now used _)
        (can_make_request-token_used kc _ used estimated))

-- The end of the retry-after period that a 429 response asks for.
abbrev pub IsDue : Response → ℤ → GroupLimiter → ℤ → Type 0
IsDue resp now gl due =
    ((resp.header "Retry-After" ≡ "") × (due ≡ now +ℤ gl.window_duration))
    ⊎ ((seconds : ℤ) × (resp.header "Retry-After" ≢ "")
        × (atoi (resp.header "Retry-After") ≡ some seconds)
        × (due ≡ now +ℤ seconds_duration seconds))

retry_after-update :
    (resp : Response) (now due : ℤ) (gl : GroupLimiter)
    → resp.status_code ≡ pos 429
    → IsDue resp now gl due
    → (update_retry_after resp now gl).retry_after ≡ due
unfolding update_retry_after
retry_after-update resp now due gl s (inl (e, d)) = rw (s, e) (sym d)
retry_after-update resp now due gl s (inr (seconds, ne, e, d)) =
    ground (arith, eq_iff (resp.header "Retry-After") "")

window-before :
    (k : FeedbackClock) (resp : Response) (tokens : ℤ) (gl : GroupLimiter)
    → (update_usage resp tokens k.now (
        update_token_limit
          (header_limit resp)
          (cleanup_old_consumptions k.cleanup_at gl))).window_duration
      ≡ gl.window_duration
unfolding update_usage update_token_limit cleanup_old_consumptions
window-before k resp tokens gl = ground arith

retry_after-apply :
    (k : FeedbackClock) (resp : Response) (tokens due : ℤ) (gl : GroupLimiter)
    → resp.status_code ≡ pos 429
    → IsDue resp k.now gl due
    → (apply_feedback k resp tokens gl).retry_after ≡ due
unfolding apply_feedback
retry_after-apply k resp tokens due gl s d =
    retry_after-update resp k.now due _ s (rw (window-before k resp tokens gl) d)

retry_after-cleanup :
    (now : ℤ) (gl : GroupLimiter) → (cleanup_old_consumptions now gl).retry_after ≡ gl.retry_after
unfolding cleanup_old_consumptions
retry_after-cleanup now gl = refl

check_tokens_blocked :
    (k : CheckClock) (gl : GroupLimiter) (estimated : ℤ)
    → k.now <ℤ gl.retry_after
    → check_tokens k gl estimated ≡ some (blocked_error gl estimated)
unfolding check_tokens
check_tokens_blocked k gl estimated h = ground arith

-- After a 429 response every check before the end of its retry-after period refuses, with a
-- retryable error that names that end.
pub too_many_requests_blocks :
    (kc : CheckClock) (k : FeedbackClock) (resp : Response) (tokens estimated due : ℤ)
    (gl : GroupLimiter)
    → resp.status_code ≡ pos 429
    → IsDue resp k.now gl due
    → kc.now <ℤ due
    → (err : RateLimitError) × ((can_make_request kc (apply_feedback k resp tokens gl) estimated).1
        ≡ some err)
      × (err.retryable ≡ true)
      × (err.retry_after ≡ due)
unfolding apply_feedback can_make_request
too_many_requests_blocks kc k resp tokens estimated due gl s d h =
    let gl' = apply_feedback k resp tokens gl in
    (
      blocked_error (cleanup_old_consumptions kc.cleanup_at gl') estimated,
      check_tokens_blocked kc (cleanup_old_consumptions kc.cleanup_at gl') estimated (
          rw (retry_after-cleanup kc.cleanup_at gl', retry_after-apply k resp tokens due gl s d) h),
      unfold blocked_error in refl,
      unfold blocked_error in
          retry_after-cleanup kc.cleanup_at gl' ∙ retry_after-apply k resp tokens due gl s d,
    )
