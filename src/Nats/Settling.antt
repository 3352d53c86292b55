-- ===== src/Nats/Settling.antt =====
-- The delays of `NackWithBackoff` (internal/core/nats/nats.go).
use eve_industry_planner_sta.Prelude.{ℕ, zero, suc, ◌-◌, ◌*◌, ◌^◌, ◌<◌, ◌≤◌, ◌≡◌, refl, arith}
use eve_industry_planner_sta.Prelude.Int.{pos}
use eve_industry_planner_sta.Nats.{term, nak_with_delay, nack_with_backoff}

-- The delay of a message, in seconds, that has been delivered `n` times: 1, 2, 4, 8.
abbrev pub backoff_seconds : ℕ → ℕ
backoff_seconds n = 2 ^ (n - 1)

-- A message is given up from its fifth delivery on; before, it is delayed by a second, doubled for
-- each delivery after the first, and never by more than eight seconds. A message that counts no
-- delivery is not delayed.
pub nack_with_backoff_lem :
    (n : ℕ)
    → (5 ≤ n → nack_with_backoff n ≡ term)
      × (0 < n
          → n < 5
          → (nack_with_backoff n ≡ nak_with_delay (pos (backoff_seconds n * 1_000_000_000)))
            × (backoff_seconds n ≤ 8))
      × (nack_with_backoff 0 ≡ nak_with_delay (pos 0))
unfolding nack_with_backoff
nack_with_backoff_lem zero = ((λ h. absurd (omega arith)), (λ h k. absurd (omega arith)), refl)
nack_with_backoff_lem (suc zero) = ((λ h. absurd (omega arith)), (λ h k. (refl, omega arith)), refl)
nack_with_backoff_lem (suc (suc zero)) =
    ((λ h. absurd (omega arith)), (λ h k. (refl, omega arith)), refl)
nack_with_backoff_lem (suc (suc (suc zero))) =
    ((λ h. absurd (omega arith)), (λ h k. (refl, omega arith)), refl)
nack_with_backoff_lem (suc (suc (suc (suc zero)))) =
    ((λ h. absurd (omega arith)), (λ h k. (refl, omega arith)), refl)
nack_with_backoff_lem (suc (suc (suc (suc (suc n))))) =
    ((λ h. ground arith), (λ h k. absurd (omega arith)), refl)
