-- ===== src/Esi/Feedback.antt =====
-- `updateFromHeaders`: what a response teaches the client
-- (internal/core/esi/rate_limited_client.go).
pub mod Registry
pub mod Usage
pub mod Overshoot
use eve_industry_planner_sta.Prelude.{
  ℕ, String, Bool, true, false, not, List, [], ◌∷◌, ◌++◌, Option, none, some, ◌&&◌, ◌||◌,
  if◌then◌else◌, str_eq,
}
use eve_industry_planner_sta.Prelude.Int.{ℤ, pos, ◌+ℤ◌, ltb_ℤ, eqb_ℤ}
use eve_industry_planner_sta.Prelude.Word.{add64, sub64, mul64}
use eve_industry_planner_sta.Prelude.Dict.{lookup}
use eve_industry_planner_sta.Prelude.Text.{atoi}
use eve_industry_planner_sta.Esi.Bucket.{GroupLimiter, cleanup_old_consumptions, second}
use eve_industry_planner_sta.Esi.Client.{
  EsiClient, limiter_at, write_limiter, update_token_limit, get_or_create_group_limiter,
}

-- An HTTP response: `header` is `resp.Header.Get`, empty for a header that is not there.
pub record Response : Type 0 where
  pub status_code : ℤ
  pub header : String → String

-- The readings of the clock in one call: `now`, for a new limiter, and in the cleanup.
pub record FeedbackClock : Type 0 where
  pub now : ℤ
  pub create_at : ℤ
  pub cleanup_at : ℤ

-- The token limit of the headers, 0 if there is none that parses.
unfoldable pub header_limit : Response → ℤ
header_limit resp =
    if str_eq (resp.header "X-Ratelimit-Limit") ""
    then pos 0
    else elim (atoi (resp.header "X-Ratelimit-Limit")) [ none ↦ pos 0 | some limit ↦ limit ]

-- `pathKnown && knownGroup == groupStr`
path_in_group : String → Option String → Bool
path_in_group group none = false
path_in_group group (some known) = str_eq known group

-- The limiter that the response belongs to: the known one, a discovered one, or `gl`.
unfoldable pub resolve_limiter : FeedbackClock → ℕ → Response → String → EsiClient → ℕ × EsiClient
unfolding path_in_group
resolve_limiter k gl resp path c =
    let group = resp.header "X-Ratelimit-Group" in
    let create = get_or_create_group_limiter group path (header_limit resp) k.create_at c in
    if str_eq group "" then (gl, c) else elim (lookup group c.limiters) [
      | none ↦ create
      | some p ↦
          if path_in_group group (lookup path c.path_to_group)
          then (p, c)
          else if not (str_eq group (limiter_at c gl).name)
          then create
          else (gl, c)
    ]

-- The count of used tokens: the server's, if it sends one, and else the local history.
unfoldable pub update_usage : Response → ℤ → ℤ → GroupLimiter → GroupLimiter
update_usage resp tokens now gl =
    let local = record gl {
      consumptions = gl.consumptions ++ record { tokens = tokens; consumed = now } ∷ [];
      token_used = add64 gl.token_used tokens;
    } in
    if str_eq (resp.header "X-Ratelimit-Remaining") ""
    then local
    else elim (atoi (resp.header "X-Ratelimit-Remaining")) [
      | none ↦ gl
      | some remaining ↦
          if str_eq (resp.header "X-Ratelimit-Used") ""
          then record gl { token_used = sub64 gl.token_limit remaining }
          else elim (atoi (resp.header "X-Ratelimit-Used")) [
            | none ↦ gl
            | some used ↦ record gl { token_used = used }
          ]
    ]

-- time.Duration(seconds) * time.Second
abbrev pub seconds_duration : ℤ → ℤ
seconds_duration seconds = mul64 seconds second

-- The retry-after period of a 429 response.
unfoldable pub update_retry_after : Response → ℤ → GroupLimiter → GroupLimiter
update_retry_after resp now gl =
    if eqb_ℤ resp.status_code (pos 429)
    then if str_eq (resp.header "Retry-After") ""
      then record gl { retry_after = now +ℤ gl.window_duration }
      else elim (atoi (resp.header "Retry-After")) [
        | none ↦ gl
        | some seconds ↦ record gl { retry_after = now +ℤ seconds_duration seconds }
      ]
    else gl

-- What the response changes in its limiter, after the cleanup.
unfoldable pub apply_feedback : FeedbackClock → Response → ℤ → GroupLimiter → GroupLimiter
apply_feedback k resp tokens gl = update_retry_after resp k.now (
    update_usage resp tokens k.now
      (update_token_limit (header_limit resp) (cleanup_old_consumptions k.cleanup_at gl)))

unfoldable pub update_from_headers :
    FeedbackClock → ℕ → Response → ℤ → String → EsiClient → ℕ × EsiClient
update_from_headers k gl resp tokens path c =
    let (actual, c') = resolve_limiter k gl resp path c in
    (actual, write_limiter actual (apply_feedback k resp tokens (limiter_at c' actual)) c')
