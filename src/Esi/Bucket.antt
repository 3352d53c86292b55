-- ===== src/Esi/Bucket.antt =====
-- The token bucket of one ESI rate limit group: `GroupLimiter` and its methods
-- (internal/core/esi/rate_limited_client.go). Instants and durations are integers in nanoseconds;
-- an instant counts from Go's zero `time.Time`, which is 0. Each reading of the clock is an argument.
-- `rate.Limiter` is a third-party type: its `Wait` is an event of Esi/Request, and the settings that
-- are only handed to it are not kept here. The lock of a limiter is held over each method's reads
-- and writes, so a method is one step.
pub mod Window
pub mod Admission
use eve_industry_planner_sta.Prelude.{
  String, Bool, true, false, List, [], ◌∷◌, ◌++◌, Option, none, some, ◌&&◌, if◌then◌else◌,
}
use eve_industry_planner_sta.Prelude.Int.{ℤ, pos, ◌+ℤ◌, ◌-ℤ◌, ltb_ℤ, leb_ℤ}
use eve_industry_planner_sta.Prelude.Word.{add64, min_int64, max_int64}

pub record TokenConsumption : Type 0 where
  pub tokens : ℤ
  pub consumed : ℤ

pub record GroupLimiter : Type 0 where
  pub name : String
  pub token_limit : ℤ
  pub token_used : ℤ
  pub consumptions : List TokenConsumption
  pub last_update : ℤ
  pub retry_after : ℤ
  pub window_duration : ℤ

pub record RateLimitError : Type 0 where
  pub retryable : Bool
  pub retry_after : ℤ
  pub reason : String
  pub group : String
  pub token_used : ℤ
  pub token_limit : ℤ
  pub estimated_tokens : ℤ

-- time.Second, time.Minute
abbrev pub second : ℤ
second = pos 1_000_000_000

abbrev pub minute : ℤ
minute = pos 60_000_000_000

abbrev pub five_minutes : ℤ
five_minutes = pos 300_000_000_000

abbrev pub window : ℤ
window = pos 900_000_000_000

-- The token cost of a response, by its status.
unfoldable pub get_tokens_for_status : ℤ → ℤ
get_tokens_for_status status =
    if leb_ℤ (pos 200) status && ltb_ℤ status (pos 300)
    then pos 2
    else if leb_ℤ (pos 300) status && ltb_ℤ status (pos 400)
    then pos 1
    else if leb_ℤ (pos 400) status && ltb_ℤ status (pos 500)
    then pos 5
    else if leb_ℤ (pos 500) status
    then pos 0
    else pos 2

-- The loop of `cleanupOldConsumptions`: what is younger than the cutoff, and its tokens.
unfoldable pub sweep :
    ℤ → List TokenConsumption → ℤ → List TokenConsumption → List TokenConsumption × ℤ
sweep cutoff valid total [] = (valid, total)
sweep cutoff valid total (c ∷ cs) = elim (ltb_ℤ cutoff c.consumed) [
  | true ↦ sweep cutoff (valid ++ c ∷ []) (add64 total c.tokens) cs
  | false ↦ sweep cutoff valid total cs
]

unfoldable pub cleanup_old_consumptions : ℤ → GroupLimiter → GroupLimiter
unfolding sweep
cleanup_old_consumptions now gl =
    let (valid, total) = sweep (now -ℤ gl.window_duration) [] (pos 0) gl.consumptions in
    record gl { consumptions = valid; token_used = total; last_update = now }

-- The loop over the history that finds the oldest entry, the first of those equally old.
unfoldable pub oldest : TokenConsumption → List TokenConsumption → TokenConsumption
oldest o [] = o
oldest o (c ∷ cs) = oldest (if ltb_ℤ c.consumed o.consumed then c else o) cs

unfoldable pub oldest_expiry : ℤ → ℤ → List TokenConsumption → ℤ
unfolding oldest
oldest_expiry now duration [] = now +ℤ duration
oldest_expiry now duration (c ∷ cs) = (oldest c (c ∷ cs)).consumed +ℤ duration

-- time.Until, which saturates as `Time.Sub` does.
unfoldable pub until : ℤ → ℤ → ℤ
until t now =
    let d = t -ℤ now in
    if ltb_ℤ d min_int64 then min_int64 else if ltb_ℤ max_int64 d then max_int64 else d

-- The readings of the clock in one call: in `cleanupOldConsumptions`, `now`, and in `time.Until`.
pub record CheckClock : Type 0 where
  pub cleanup_at : ℤ
  pub now : ℤ
  pub until_at : ℤ

unfoldable pub blocked_error : GroupLimiter → ℤ → RateLimitError
blocked_error gl estimated = record {
  retryable = true;
  retry_after = gl.retry_after;
  reason = "retry-after period active";
  group = gl.name;
  token_used = gl.token_used;
  token_limit = gl.token_limit;
  estimated_tokens = estimated;
}

unfoldable pub insufficient_error : CheckClock → GroupLimiter → ℤ → RateLimitError
unfolding until oldest_expiry
insufficient_error k gl estimated =
    let expiry = oldest_expiry k.now gl.window_duration gl.consumptions in
    record {
      retryable = ltb_ℤ k.now expiry && ltb_ℤ (until expiry k.until_at) five_minutes;
      retry_after = expiry;
      reason = "insufficient tokens";
      group = gl.name;
      token_used = gl.token_used;
      token_limit = gl.token_limit;
      estimated_tokens = estimated;
    }

-- The verdict on a bucket that has been cleaned.
unfoldable pub check_tokens : CheckClock → GroupLimiter → ℤ → Option RateLimitError
check_tokens k gl estimated =
    if ltb_ℤ k.now gl.retry_after
    then some (blocked_error gl estimated)
    else if ltb_ℤ gl.token_limit (add64 gl.token_used estimated)
    then some (insufficient_error k gl estimated)
    else none

unfoldable pub can_make_request :
    CheckClock → GroupLimiter → ℤ → GroupLimiter × Option RateLimitError
can_make_request k gl estimated =
    let gl' = cleanup_old_consumptions k.cleanup_at gl in (gl', check_tokens k gl' estimated)
