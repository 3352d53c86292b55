-- ===== src/Nats.antt =====
-- The NATS helpers (internal/core/nats): the acknowledgement of a message with backoff, the retry
-- loop of `Connect`, which internal/core/redis/redis.go and internal/core/mongo/mongo.go share, the
-- streams and the consumers.
pub mod Settling
pub mod Retry
pub mod Streams
pub mod Ensured
pub mod Examples
use eve_industry_planner_sta.Prelude.{
  ℕ, zero, suc, ◌+◌, ◌-◌, ◌*◌, ◌%◌, ◌^◌, Bool, true, false, List, [], ◌∷◌, Option, none, some, ltb,
  leb, if◌then◌else◌,
}
use eve_industry_planner_sta.Prelude.Int.{ℤ, pos}

-- What is said to the server of one message, in order (`MessageAcker`, `MessageInterface`). A delay
-- is in nanoseconds.
pub data Call : Type 0 where
  ack nak term in_progress : Call
  nak_with_delay : ℤ → Call

-- `1 << (deliveries - 1)` of an unsigned 64-bit count: the shift of 2 ^ 64 - 1 for none.
shift_one : ℕ → ℕ
shift_one deliveries =
    let shift = (deliveries + 2 ^ 64 - 1) % 2 ^ 64 in
    elim (ltb shift 63) [ true ↦ 2 ^ shift | false ↦ 0 ]

unfoldable pub nack_with_backoff : ℕ → Call
unfolding shift_one
nack_with_backoff deliveries =
    if leb 5 deliveries
    then term
    else (let delay_secs = shift_one deliveries in
        if ltb 60 delay_secs
        then nak_with_delay (pos (60 * 1_000_000_000))
        else nak_with_delay (pos (delay_secs * 1_000_000_000)))

-- The loop of `Connect`: `i` is its counter, which the body counts up once more, and `tried` the
-- number of attempts so far; `attempt` tells which of them connect.
unfoldable pub connect_loop : ℕ → (ℕ → Bool) → ℕ → ℕ → Bool × ℕ
connect_loop zero attempt i tried = (false, tried)
connect_loop (suc fuel) attempt i tried =
    let again = connect_loop fuel attempt (i + 1 + 1) (tried + 1) in
    if ltb i 5 then (if attempt tried then (true, tried + 1) else again) else (false, tried)

-- `Connect`: whether it connected, and the attempts that it made.
unfoldable pub connect : (ℕ → Bool) → Bool × ℕ
unfolding connect_loop
connect attempt = connect_loop 6 attempt 0 0
