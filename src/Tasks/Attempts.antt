-- ===== src/Tasks/Attempts.antt =====
-- The request loop of the stream functions (internal/tasks/esi/refreshSystemIndexes.go,
-- internal/tasks/esi/refreshAdjustedPrices.go).
use eve_industry_planner_sta.Prelude.{
  ℕ, zero, suc, ◌+◌, ◌≤◌, ◌<◌, ◌≡◌, ◌⊎◌, inl, inr, arith, String, true, false, List, [], ◌∷◌,
}
use eve_industry_planner_sta.Esi.Client.{EsiClient}
use eve_industry_planner_sta.Esi.Feedback.{Response}
use eve_industry_planner_sta.Esi.Request.{Events, Result, do_request}
use eve_industry_planner_sta.Esi.Request.Calls.{perform-sent_le}
use eve_industry_planner_sta.Tasks.Stream.{
  Attempts, is_final, retry_wait, request_loop, request_attempts,
}

-- The sum of the waits.
abbrev pub total : List ℕ → ℕ
total [] = 0
total (w ∷ rest) = w + total rest

do_request-sent_le : (ev : Events) (path : String) (c : EsiClient) → (do_request ev path c).sent ≤ 1
unfolding do_request
do_request-sent_le ev path c = perform-sent_le _ ev path c

module _ (events : ℕ → Events) (jitter : ℕ → ℕ) (path : String) where
  request_loop-calls_le :
      (left attempt : ℕ) (c : EsiClient)
      → ((request_loop events jitter path left attempt c).calls ≤ left + 1)
        × ((request_loop events jitter path left attempt c).sent
            ≤ (request_loop events jitter path left attempt c).calls)
  unfolding request_loop
  request_loop-calls_le zero attempt c = (omega arith, do_request-sent_le _ path c)
  request_loop-calls_le (suc left) attempt c =
      let x = do_request (events attempt) path c in
      ground (
        arith,
        request_loop-calls_le left (attempt + 1) x.client,
        do_request-sent_le (events attempt) path c,
      )

  -- At most four calls of the client are made, each sends one request at most, and the waits
  -- between them sum up to 3.8 seconds at most if the random part of each is below 100 ms.
  pub request_attempts-bounds :
      ((attempt : ℕ) → jitter attempt < 100)
      → (c : EsiClient)
      → ((request_attempts events jitter path c).sent
          ≤ (request_attempts events jitter path c).calls)
        × ((request_attempts events jitter path c).calls ≤ 4)
        × (total (request_attempts events jitter path c).waits ≤ 3800)
  unfolding request_attempts request_loop retry_wait
  request_attempts-bounds h c = (
    (request_loop-calls_le 3 1 c).1,
    (request_loop-calls_le 3 1 c).0,
    ground (arith, h 1, h 2, h 3),
  )

  -- The calls of a loop in order: what each returned, from the first attempt.
  abbrev pub client_at : EsiClient → ℕ → EsiClient
  client_at c zero = c
  client_at c (suc k) = (do_request (events (k + 1)) path (client_at c k)).client

  abbrev pub result_at : EsiClient → ℕ → Result Response
  result_at c k = (do_request (events (k + 1)) path (client_at c k)).result

  -- What a loop leaves that ends with attempt `k + 1`.
  abbrev pub EndsWith : ℕ → EsiClient → Attempts → Type 0
  EndsWith k c a = (a.calls ≡ k + 1) × (a.result ≡ result_at c k) × (a.client ≡ client_at c (k + 1))

  -- The loop ends with the first attempt that returns a response or a rate limit error, and with
  -- the fourth if there is none: it returns the result of that attempt, and no further call is made.
  pub request_attempts-ends :
      (c : EsiClient) (k : ℕ)
      → k ≤ 3
      → ((j : ℕ) → j < k → is_final (result_at c j) ≡ false)
      → (is_final (result_at c k) ≡ true) ⊎ (k ≡ 3)
      → EndsWith k c (request_attempts events jitter path c)
  unfolding request_attempts request_loop
  request_attempts-ends c zero h before (inl e) = ground (arith, e)
  request_attempts-ends c (suc zero) h before (inl e) = ground (arith, before 0 (omega arith), e)
  request_attempts-ends c (suc (suc zero)) h before (inl e) =
      ground (arith, before 0 (omega arith), before 1 (omega arith), e)
  request_attempts-ends c (suc (suc (suc zero))) h before e =
      ground (arith, before 0 (omega arith), before 1 (omega arith), before 2 (omega arith))
  request_attempts-ends c zero h before (inr e) = absurd (omega arith)
  request_attempts-ends c (suc zero) h before (inr e) = absurd (omega arith)
  request_attempts-ends c (suc (suc zero)) h before (inr e) = absurd (omega arith)
  request_attempts-ends c (suc (suc (suc (suc k)))) h before e = absurd (omega arith)
