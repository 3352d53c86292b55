-- ===== src/Nats/Retry.antt =====
-- How often `Connect` tries (internal/core/nats/nats.go, internal/core/redis/redis.go,
-- internal/core/mongo/mongo.go).
use eve_industry_planner_sta.Prelude.{ℕ, ◌≡◌, refl, Bool, true, false, if◌then◌else◌}
use eve_industry_planner_sta.Nats.{connect}

-- `Connect` makes three attempts at most: it connects exactly when one of the first three does, at
-- the first that does, and gives up after the third, not after the five that its log line names.
pub connect_attempts :
    (attempt : ℕ → Bool)
    → connect attempt ≡ (
        if attempt 0
        then (true, 1)
        else if attempt 1
        then (true, 2)
        else if attempt 2
        then (true, 3)
        else (false, 3))
unfolding connect
connect_attempts attempt = refl
