-- ===== src/Esi/Feedback/Overshoot.antt =====
-- A limiter that only its own history feeds: the responses send no rate limit headers
-- (internal/core/esi/rate_limited_client.go).
use eve_industry_planner_sta.Prelude.{
  ℕ, ◌+◌, ◌^◌, ◌<◌, ◌≤◌, ◌≡◌, refl, ◌∙◌, ap, sym, [], ◌∷◌, none, arith,
}
use eve_industry_planner_sta.Prelude.Int.{ℤ, pos, pos_part, neg_part}
use eve_industry_planner_sta.Prelude.Word.{add64}
use eve_industry_planner_sta.Esi.Bucket.{
  TokenConsumption, GroupLimiter, CheckClock, can_make_request, get_tokens_for_status,
}
use eve_industry_planner_sta.Esi.Bucket.Window.{
  IsHistory, weight, live, cutoff_at, weight-append, weight-live, IsHistory-append, live-IsHistory,
  cleanup_old_consumptions_lem, add64_small,
}
use eve_industry_planner_sta.Esi.Bucket.Admission.{
  IsTracked, spent, cleaned-eq, can_make_request-admits,
}
use eve_industry_planner_sta.Esi.Client.{update_token_limit}
use eve_industry_planner_sta.Esi.Feedback.{
  Response, FeedbackClock, header_limit, update_usage, update_retry_after, apply_feedback,
}
use eve_industry_planner_sta.Esi.Feedback.Usage.{get_tokens_for_status_bounds}

-- The count is the sum of the history, and at most three tokens over the limit.
pub record IsLocal (limit : ℕ) (gl : GroupLimiter) : Type 0 where
  pub limited : gl.token_limit ≡ pos limit
  pub counted : gl.token_used ≡ pos (weight gl.consumptions)
  pub within : weight gl.consumptions ≤ limit + 3
  pub history : IsHistory gl.consumptions

-- A response without rate limit headers.
pub record IsPlain (resp : Response) : Type 0 where
  pub no_limit : resp.header "X-Ratelimit-Limit" ≡ ""
  pub no_remaining : resp.header "X-Ratelimit-Remaining" ≡ ""

update_retry_after-IsLocal :
    (limit : ℕ) (resp : Response) (now : ℤ) (gl : GroupLimiter)
    → IsLocal limit gl
    → IsLocal limit (update_retry_after resp now gl)
update_retry_after-IsLocal limit resp now gl v = record {
  limited = token_limit-eq ∙ v.limited;
  counted = token_used-eq ∙ v.counted ∙ ap (λ cs. pos (weight cs)) (sym consumptions-eq);
  within = rw consumptions-eq v.within;
  history = rw consumptions-eq v.history;
}
  where
    token_limit-eq : (update_retry_after resp now gl).token_limit ≡ gl.token_limit
    token_limit-eq = unfold update_retry_after in ground arith

    token_used-eq : (update_retry_after resp now gl).token_used ≡ gl.token_used
    token_used-eq = unfold update_retry_after in ground arith

    consumptions-eq : (update_retry_after resp now gl).consumptions ≡ gl.consumptions
    consumptions-eq = unfold update_retry_after in ground arith

update_token_limit_plain :
    (resp : Response) (gl : GroupLimiter)
    → IsPlain resp
    → update_token_limit (header_limit resp) gl ≡ gl
unfolding update_token_limit header_limit
update_token_limit_plain resp gl h = rw h.no_limit

add_cost :
    (used : ℤ) (n : ℕ) (tokens : ℤ)
    → (neg_part tokens ≡ 0) × (pos_part tokens ≤ 5)
    → used ≡ pos n
    → n < 2 ^ 62
    → add64 used tokens ≡ pos (n + pos_part tokens)
add_cost used n tokens t e b = rw e (add64_small n tokens t.0 (omega (arith, t.1)))

update_usage_plain :
    (limit : ℕ) (resp : Response) (now tokens : ℤ) (gl : GroupLimiter)
    → IsPlain resp
    → (neg_part tokens ≡ 0) × (pos_part tokens ≤ 5)
    → limit < 2 ^ 61
    → gl.token_limit ≡ pos limit
    → gl.token_used ≡ pos (weight gl.consumptions)
    → weight gl.consumptions + 2 ≤ limit
    → IsHistory gl.consumptions
    → IsLocal limit (update_usage resp tokens now gl)
unfolding update_usage
update_usage_plain limit resp now tokens gl h t b l c w v =
    let entry : TokenConsumption = record { tokens = tokens; consumed = now } in
    rw h.no_remaining (record {
      limited = l;
      counted =
          add_cost gl.token_used (weight gl.consumptions) tokens t c (omega arith)
          ∙ ap pos {x = weight gl.consumptions + pos_part tokens}
              (omega (arith, weight-append gl.consumptions (entry ∷ [])));
      within = omega (arith, weight-append gl.consumptions (entry ∷ []), t.1);
      history = IsHistory-append gl.consumptions (entry ∷ []) v (t, tt);
    })

can_make_request_cleans :
    (kc : CheckClock) (gl : GroupLimiter)
    → IsTracked gl
    → (can_make_request kc gl (pos 2)).0 ≡ record gl {
      consumptions = live (cutoff_at kc.cleanup_at gl) gl.consumptions;
      token_used = pos (spent kc gl);
      last_update = kc.cleanup_at;
    }
unfolding can_make_request
can_make_request_cleans kc gl v = cleaned-eq kc gl v

after_check :
    (k : FeedbackClock) (gl : GroupLimiter) (resp : Response) (limit : ℕ)
    → limit < 2 ^ 61
    → IsPlain resp
    → gl.token_limit ≡ pos limit
    → weight gl.consumptions + 2 ≤ limit
    → IsHistory gl.consumptions
    → IsLocal limit (apply_feedback k resp (get_tokens_for_status resp.status_code) gl)
unfolding apply_feedback
after_check k gl resp limit b p l w v =
    let less = weight-live (cutoff_at k.cleanup_at gl) gl.consumptions in
    rw
      (
        cleanup_old_consumptions_lem k.cleanup_at gl v (omega arith),
        update_token_limit_plain resp _ p,
      )
      (update_retry_after-IsLocal limit resp k.now _ (
        update_usage_plain limit resp k.now _ _ p (get_tokens_for_status_bounds resp.status_code) b
          l refl (omega arith) (live-IsHistory (cutoff_at k.cleanup_at gl) gl.consumptions v)))

-- A request that the check lets through on such a limiter, and whose response has no rate limit
-- headers, leaves such a limiter: the overshoot never grows past three tokens.
pub admitted-IsLocal :
    (kc : CheckClock) (k : FeedbackClock) (gl : GroupLimiter) (resp : Response) (limit : ℕ)
    → limit < 2 ^ 61
    → IsPlain resp
    → IsLocal limit gl
    → (can_make_request kc gl (pos 2)).1 ≡ none
    → IsLocal limit (
        apply_feedback k resp
          (get_tokens_for_status resp.status_code)
          (can_make_request kc gl (pos 2)).0)
admitted-IsLocal kc k gl resp limit b p v h =
    let tracked : IsTracked gl = record { history = v.history; light = omega (arith, v.within) } in
    let fits : weight (live (cutoff_at kc.cleanup_at gl) gl.consumptions) + 2 ≤ limit =
      ground (arith, (can_make_request-admits kc gl 2 tracked (omega arith)).0 h) in
    rw (can_make_request_cleans kc gl tracked) (
      after_check k _ resp limit b p v.limited fits
        (live-IsHistory (cutoff_at kc.cleanup_at gl) gl.consumptions v.history))
