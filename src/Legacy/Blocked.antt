-- ===== src/Legacy/Blocked.antt =====
-- The channel of requests fills up (legacy/shared/requests/requests.go).
use eve_industry_planner_sta.Prelude.{
  ℕ, zero, suc, ◌+◌, ◌-◌, ◌≤◌, ◌<◌, ◌≡◌, refl, ap, sym, ◌∙◌, arith, String, true, false, List, [],
  ◌∷◌, ◌++◌, some, length, Bool-cases, inl, inr, leb,
}
use mathlib.Core.List.{append-nil, append_assoc}
use eve_industry_planner_sta.Prelude.Int.{pos}
use eve_industry_planner_sta.Legacy.{
  Values, Request, Response, Pages, etag_of, is_completed, Fetching, set_page_query_parameters,
  get_available_page_count, further_pages, send_pages, with_etag, prepare, mark, settle, serve,
  blocked, run, fetch_all_pages,
}
use eve_industry_planner_sta.Legacy.Pages.{send_pages-blocks, fetch_all_pages-blocks}
use eve_industry_planner_sta.Legacy.Channel.{
  requests, length-requests, length-append, send_pages-fits, send_pages-skips,
}
use eve_industry_planner_sta.Legacy.Served.{serve-blocks, serve-sends}

-- How many requests the pages still to be served will add beside their own.
tri : ℕ → ℕ
tri zero = 0
tri (suc j) = j + tri j

module _ {A : Type 0} (previous : Pages String) (answer : ℕ → Values → Response A) (n : ℕ)
    (told : (i : ℕ) (query : Values)
      → get_available_page_count (answer i query).pages ≡ pos n) where
  -- What remains of page k + 1 after it is served: the pages after it are sent for once more.
  sent_again :
      (k left : ℕ) (s : Fetching A) (rest : List Request)
      → n ≡ k + suc left
      → ((p : ℕ) → 2 ≤ p → p < k + 1 → is_completed p s.completed ≡ true)
      → send_pages s.initial ((k + 1) ∷ s.completed) 2 (n - 1) rest
        ≡ send_pages s.initial ((k + 1) ∷ s.completed) (2 + k) left rest
  unfolding is_completed
  sent_again k left s rest all before =
      let further : n - 1 ≡ k + left = omega (arith, all) in
      ap (λ l. send_pages s.initial ((k + 1) ∷ s.completed) 2 l rest) further
      ∙ send_pages-skips s.initial ((k + 1) ∷ s.completed) 2 k left rest
          (λ p from below. ground (arith, before p from, below))

  still_open :
      (k : ℕ) (completed : List ℕ)
      → ((p : ℕ) → k + 1 ≤ p → is_completed p completed ≡ false)
      → (p : ℕ) → 2 + k ≤ p
      → is_completed p ((k + 1) ∷ completed) ≡ false
  unfolding is_completed
  still_open k completed later p from = ground (arith, later p, from)

  now_completed :
      (k : ℕ) (completed : List ℕ)
      → ((p : ℕ) → 2 ≤ p → p < k + 1 → is_completed p completed ≡ true)
      → (p : ℕ) → 2 ≤ p
      → p < k + 1 + 1
      → is_completed p ((k + 1) ∷ completed) ≡ true
  unfolding is_completed
  now_completed k completed before p from below = ground (arith, before p from, below)

  -- Pages 1 to k are served, the others wait at the head of the channel.
  run-blocks :
      (k j fuel i : ℕ) (s : Fetching A) (extra : List Request)
      → n ≡ k + j
      → 1 ≤ j
      → ((p : ℕ) → k + 1 ≤ p → is_completed p s.completed ≡ false)
      → ((p : ℕ) → 2 ≤ p → p < k + 1 → is_completed p s.completed ≡ true)
      → length extra + j ≤ 100
      → 100 ≤ length extra + tri j
      → j ≤ fuel
      → run fuel previous
          (λ i query. some (answer i query))
          i
          s
          (requests s.initial (k + 1) j ++ extra)
        ≡ blocked
  unfolding run requests tri
  run-blocks k zero fuel i s extra all some_left later before room many enough =
      absurd (omega (arith, some_left))
  run-blocks k (suc zero) fuel i s extra all some_left later before room many enough =
      absurd (omega (arith, room, many))
  run-blocks k (suc (suc j)) zero i s extra all some_left later before room many enough =
      absurd (omega (arith, enough))
  run-blocks k (suc (suc j)) (suc fuel) i s extra all some_left later before room many enough =
      let left = requests s.initial (k + 1 + 1) (suc j) in
      let params = set_page_query_parameters s.initial (k + 1) in
      let again = sent_again k (suc j) s (left ++ extra) all before in
      let size : length (left ++ extra) ≡ suc j + length extra =
        length-append left extra
        ∙ ap (λ l. l + length extra) (length-requests s.initial (k + 1 + 1) (suc j)) in
      let new = later (k + 1) (omega arith) in
      elim (Bool-cases (leb (length (left ++ extra) + suc j) 100)) [
        | inr full ↦
            rw
              (
                serve-blocks previous answer n told i (k + 1) params (left ++ extra) s new (
                    again
                    ∙ send_pages-blocks s.initial ((k + 1) ∷ s.completed) (2 + k) (suc j)
                        (left ++ extra) (still_open k s.completed later) (ground (arith, full))
                        (omega (arith, size, room))),
                run,
              )
              refl
        | inl fits ↦
            let (s', served, same_initial, same_queue, same_completed) =
              serve-sends previous answer n told i (k + 1) params (left ++ extra)
                ((left ++ extra) ++ requests s.initial (2 + k) (suc j)) s new
                (again
                  ∙ send_pages-fits s.initial ((k + 1) ∷ s.completed) (2 + k) (suc j)
                      (left ++ extra) (still_open k s.completed later) (ground (arith, fits))) in
            let more = requests s.initial (2 + k) (suc j) in
            let longer : length (extra ++ more) ≡ length extra + suc j =
              length-append extra more
              ∙ ap (λ l. length extra + l) (length-requests s.initial (2 + k) (suc j)) in
            rw (served, run)
              (ap (λ q. run fuel previous (λ i query. some (answer i query)) (i + 1) s' q)
                  (same_queue
                    ∙ append_assoc left extra more
                    ∙ ap (λ v. requests v (k + 1 + 1) (suc j) ++ (extra ++ more))
                        (sym same_initial))
                ∙ run-blocks (k + 1) (suc j) fuel (i + 1) s' (extra ++ more) (omega (arith, all))
                    (omega arith)
                    (λ p from.
                      ap (is_completed p) same_completed
                      ∙ still_open k s.completed later p (omega (arith, from)))
                    (λ p from below.
                      ap (is_completed p) same_completed
                      ∙ now_completed k s.completed before p from below)
                    (ground (arith, fits, size, longer)) (omega (arith, longer, many))
                    (omega (arith, enough)))
      ]

-- Fifteen pages after the first are enough.
tri-many : (i : ℕ) → 100 ≤ tri (15 + i)
unfolding tri
tri-many zero = omega arith
tri-many (suc i) =
    let more : 15 + suc i ≡ suc (15 + i) = omega arith in rw (more, tri) (omega (arith, tri-many i))

only_first : (p : ℕ) → 2 ≤ p → is_completed p (1 ∷ []) ≡ false
unfolding is_completed
only_first p from = ground (arith, from)

module _ {A : Type 0} where
  -- The state after the response for page 1.
  abbrev after_first : Values → Pages String → Response A → ℕ → Fetching A
  after_first initial previous response left = record {
    initial = with_etag (etag_of 1 previous) initial;
    queue = requests (with_etag (etag_of 1 previous) initial) 2 left;
    completed = 1 ∷ [];
    all_items = response.items;
    updated_etags = (1, response.etag) ∷ [];
    asked = (1, with_etag (etag_of 1 previous) initial) ∷ [];
  }

  first_served :
      (fuel : ℕ) (initial : Values) (previous : Pages String) (answer : ℕ → Values → Response A)
      (n : ℕ)
      → ((i : ℕ) (query : Values) → get_available_page_count (answer i query).pages ≡ pos n)
      → n ≤ 101
      → fetch_all_pages (suc fuel) initial previous (λ i query. some (answer i query))
        ≡ run fuel previous
            (λ i query. some (answer i query))
            1
            (after_first initial previous
              (answer 0 (with_etag (etag_of 1 previous) initial))
              (n - 1))
            (requests (with_etag (etag_of 1 previous) initial) 2 (n - 1))
  unfolding fetch_all_pages run serve settle prepare mark further_pages is_completed
  first_served fuel initial previous answer n told few =
      rw
        (
          fetch_all_pages,
          run,
          serve,
          settle,
          told 0 (with_etag (etag_of 1 previous) initial),
          further_pages,
          send_pages-fits (with_etag (etag_of 1 previous) initial) (1 ∷ []) 2 (n - 1) []
              (λ p from. ground (arith, from)) (omega (arith, few)),
        )
        refl

  -- If ESI has 16 pages or more, and answers every request and tells so, FetchAllPages does not return,
  -- however many requests it may make: the goroutine that alone reads the channel blocks on a send to
  -- it.
  pub fetch_all_pages-never_returns :
      (fuel : ℕ) (initial : Values) (previous : Pages String) (answer : ℕ → Values → Response A)
      (n : ℕ)
      → ((i : ℕ) (query : Values) → get_available_page_count (answer i query).pages ≡ pos n)
      → 16 ≤ n
      → n ≤ fuel
      → fetch_all_pages fuel initial previous (λ i query. some (answer i query)) ≡ blocked
  fetch_all_pages-never_returns zero initial previous answer n told many enough =
      absurd (omega (arith, many, enough))
  fetch_all_pages-never_returns (suc fuel) initial previous answer n told many enough =
      elim (Bool-cases (leb n 101)) [
        | inr more ↦
            let response = answer 0 (with_etag (etag_of 1 previous) initial) in
            fetch_all_pages-blocks fuel initial previous (λ i query. some (answer i query)) response
              n refl (told 0 (with_etag (etag_of 1 previous) initial)) (ground (arith, more))
        | inl few ↦
            let response = answer 0 (with_etag (etag_of 1 previous) initial) in
            let waiting = requests (with_etag (etag_of 1 previous) initial) 2 (n - 1) in
            let split : 15 + (n - 16) ≡ n - 1 = omega (arith, many) in
            first_served fuel initial previous answer n told (ground (arith, few))
            ∙ ap
                (λ q.
                  run fuel previous (λ i query. some (answer i query)) 1
                    (after_first initial previous response (n - 1)) q)
                (sym (append-nil waiting))
            ∙ run-blocks previous answer n told 1 (n - 1) fuel 1
                (after_first initial previous response (n - 1)) [] (omega (arith, many))
                (omega (arith, many)) (λ p from. only_first p (omega (arith, from)))
                (λ p from below. absurd (omega (arith, from, below))) (ground (arith, few))
                (ground (arith, tri-many (n - 16), ap tri split)) (omega (arith, enough))
      ]
