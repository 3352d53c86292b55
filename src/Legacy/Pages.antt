-- ===== src/Legacy/Pages.antt =====
-- What FetchAllPages returns, and when it does not (legacy/shared/requests/requests.go).
use eve_industry_planner_sta.Prelude.{
  ℕ, zero, suc, ◌+◌, ◌-◌, ◌≤◌, ◌≡◌, refl, ◌∙◌, arith, String, false, List, [], ◌∷◌, ◌++◌, map,
  Option, none, some, length, Bool-cases, inl, inr, ltb, ◌==◌, if◌then◌else◌,
}
use eve_industry_planner_sta.Prelude.Int.{pos}
use eve_industry_planner_sta.Prelude.Dict.{lookup, insert, lookup-insert, lookup-insert_self}
use eve_industry_planner_sta.Prelude.Text.{atoi}
use eve_industry_planner_sta.Prelude.Decimal.{format_int}
use eve_industry_planner_sta.Legacy.{
  Values, own, Request, Response, Pages, etag_of, is_completed, enqueue, set_page_query_parameters,
  get_available_page_count, further_pages, send_pages, with_etag, prepare, mark, settle, serve, Run,
  finished, blocked, unfinished, run, fetch_all_pages,
}

length-snoc : (q : List Request) (r : Request) → length (q ++ r ∷ []) ≡ length q + 1
length-snoc [] r = refl
length-snoc (x ∷ q) r = ground (arith, length-snoc q r)

-- More pages than there is room for in the channel.
pub send_pages-blocks :
    (initial : Values) (completed : List ℕ) (page left : ℕ) (queue : List Request)
    → ((p : ℕ) → page ≤ p → is_completed p completed ≡ false)
    → 101 ≤ length queue + left
    → length queue ≤ 100
    → send_pages initial completed page left queue ≡ none
unfolding send_pages enqueue
send_pages-blocks initial completed page zero queue h most fits =
    absurd (ground (arith, most, fits))
send_pages-blocks initial completed page (suc left) queue h most fits =
    elim (Bool-cases (ltb (length queue) 100)) [
      | inr full ↦ rw (h page (omega arith), full, send_pages, enqueue) refl
      | inl room ↦
          let request : Request = record {
            params = own (set_page_query_parameters initial page);
            page = page;
            retries = 0;
          } in
          rw (h page (omega arith), room, send_pages, enqueue)
            (send_pages-blocks initial completed (page + 1) left (queue ++ request ∷ [])
              (λ p later. h p (omega (arith, later)))
              (ground (arith, most, length-snoc queue request))
              (ground (arith, room, length-snoc queue request)))
    ]

pub query_in : ℕ → List (ℕ × Values) → Values
query_in page [] = []
query_in page ((p, query) ∷ rest) =
    let later = query_in page rest in if p == page then query else later

module _ {A : Type 0} where
  -- What a call that returns gives, and the pages that it asked for.
  abbrev pub items_of : Run A → Option (List A)
  items_of (finished s) = some s.all_items
  items_of blocked = none
  items_of unfinished = none

  abbrev pub pages_asked : Run A → List ℕ
  pages_asked (finished s) = map (λ (x : ℕ × Values). x.0) s.asked
  pages_asked blocked = []
  pages_asked unfinished = []

  pub query_of : ℕ → Run A → Values
  query_of page (finished s) = query_in page s.asked
  query_of page blocked = []
  query_of page unfinished = []

  -- If the response for page 1 tells of 102 pages or more, FetchAllPages does not return: the goroutine
  -- that alone reads the channel blocks on a send to it.
  pub fetch_all_pages-blocks :
      (fuel : ℕ) (initial : Values) (previous : Pages String)
      (fetch : ℕ → Values → Option (Response A)) (response : Response A) (n : ℕ)
      → fetch 0 (with_etag (etag_of 1 previous) initial) ≡ some response
      → get_available_page_count response.pages ≡ pos n
      → 102 ≤ n
      → fetch_all_pages (suc fuel) initial previous fetch ≡ blocked
  unfolding fetch_all_pages run serve settle prepare mark further_pages is_completed
  fetch_all_pages-blocks fuel initial previous fetch response n answered told many =
      rw
        (
          fetch_all_pages,
          run,
          serve,
          prepare,
          answered,
          fetch_all_pages,
          run,
          serve,
          settle,
          told,
          further_pages,
          send_pages-blocks (with_etag (etag_of 1 previous) initial) (1 ∷ []) 2 (n - 1) []
              (λ p later. ground (arith, later)) (omega (arith, many)) (omega arith),
        )
        refl

  -- Responses in their order, and errors after them.
  abbrev pub in_turn : List (Response A) → ℕ → Values → Option (Response A)
  in_turn [] n query = none
  in_turn (response ∷ rest) zero query = some response
  in_turn (response ∷ rest) (suc n) query = in_turn rest n query

  abbrev pub response_of_three : List A → String → Response A
  response_of_three items etag = record { items = items; etag = etag; pages = "3" }

  -- If ESI has three pages, as all its responses tell, FetchAllPages asks for the third page twice and
  -- returns the items of both its responses, after those of the other pages.
  pub fetch_all_pages-third_twice :
      (fuel : ℕ) (initial : Values) (previous : Pages String) (items₁ items₂ items₃ items₄ : List A)
      (etag₁ etag₂ etag₃ etag₄ : String)
      → (items_of (
            fetch_all_pages (suc (suc (suc (suc (suc fuel))))) initial previous (
              in_turn (
                response_of_three items₁ etag₁
                ∷ response_of_three items₂ etag₂
                ∷ response_of_three items₃ etag₃
                ∷ response_of_three items₄ etag₄
                ∷ [])))
          ≡ some (((items₁ ++ items₂) ++ items₃) ++ items₄))
        × (pages_asked (
              fetch_all_pages (suc (suc (suc (suc (suc fuel))))) initial previous (
                in_turn (
                  response_of_three items₁ etag₁
                  ∷ response_of_three items₂ etag₂
                  ∷ response_of_three items₃ etag₃
                  ∷ response_of_three items₄ etag₄
                  ∷ [])))
            ≡ 1 ∷ 2 ∷ 3 ∷ 3 ∷ [])
  unfolding fetch_all_pages run serve settle prepare mark further_pages is_completed send_pages
      enqueue get_available_page_count atoi
  fetch_all_pages-third_twice fuel initial previous items₁ items₂ items₃ items₄ etag₁ etag₂ etag₃
        etag₄ =
      (refl, refl)

  -- A page that ESI answers with an error every time is asked for four times, and FetchAllPages returns
  -- without it and with no error.
  pub fetch_all_pages-gives_up :
      (fuel : ℕ) (initial : Values) (previous : Pages String)
      → (items_of (fetch_all_pages (suc (suc (suc (suc (suc fuel))))) initial previous (in_turn []))
          ≡ some [])
        × (pages_asked
              (fetch_all_pages (suc (suc (suc (suc (suc fuel))))) initial previous (in_turn []))
            ≡ 1 ∷ 1 ∷ 1 ∷ 1 ∷ [])
  unfolding fetch_all_pages run serve settle prepare mark further_pages is_completed send_pages
      enqueue
  fetch_all_pages-gives_up fuel initial previous = (refl, refl)

  -- The query of the request for page 2, in a collection of two pages. It has the ETag that was given
  -- for page 1, unless one was given for page 2: page 1 sets its ETag in the caller's map, which is
  -- copied for page 2.
  pub fetch_all_pages-first_etag :
      (fuel : ℕ) (initial : Values) (previous : Pages String) (etag : String)
      (items₁ items₂ : List A)
      → etag_of 1 previous ≡ some etag
      → etag_of 2 previous ≡ none
      → lookup "If-None-Match" (
          query_of 2 (
            fetch_all_pages (suc (suc (suc fuel))) initial previous (
              in_turn (
                record { items = items₁; etag = ""; pages = "2" }
                ∷ record { items = items₂; etag = ""; pages = "2" }
                ∷ []))))
        ≡ some (etag ∷ [])
  unfolding fetch_all_pages run serve settle prepare mark further_pages is_completed send_pages
      enqueue get_available_page_count atoi query_in query_of with_etag set_page_query_parameters
  fetch_all_pages-first_etag fuel initial previous etag items₁ items₂ one two =
      rw (one, two, fetch_all_pages, run, serve, prepare, with_etag)
        (lookup-insert (insert "If-None-Match" (etag ∷ []) initial) "If-None-Match" "page"
            (format_int (pos 2) ∷ [])
          ∙ lookup-insert_self "If-None-Match" (etag ∷ []) initial)
