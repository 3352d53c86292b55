-- ===== src/Legacy/Served.antt =====
-- A page that is served for the first time (legacy/shared/requests/requests.go).
use eve_industry_planner_sta.Prelude.{
  ℕ, ◌-◌, ◌≡◌, refl, ap, String, false, List, [], ◌∷◌, ◌++◌, none, some,
}
use eve_industry_planner_sta.Prelude.Int.{pos}
use eve_industry_planner_sta.Legacy.{
  Values, own, Request, Response, Pages, etag_of, is_completed, Fetching, get_available_page_count,
  further_pages, send_pages, with_etag, prepare, mark, settle, serve,
}

module _ {A : Type 0} (previous : Pages String) (answer : ℕ → Values → Response A) (n : ℕ)
    (told : (i : ℕ) (query : Values)
      → get_available_page_count (answer i query).pages ≡ pos n) where
  abbrev pub request_for : Values → ℕ → Request
  request_for params page = record { params = own params; page = page; retries = 0 }

  -- A page that is served for the first time.
  mark-new :
      (params : Values) (page : ℕ) (completed : List ℕ)
      → is_completed page completed ≡ false
      → mark (request_for params page) completed ≡ page ∷ completed
  unfolding mark
  mark-new params page completed new = rw (new, mark) refl

  settle-told :
      (i page : ℕ) (params query : Values) (s : Fetching A)
      → settle (request_for params page) (own query) (some (answer i query)) s
        ≡ (elim (send_pages s.initial s.completed 2 (n - 1) s.queue) [
          | none ↦ none
          | some queue ↦ some (record s {
            queue = queue;
            all_items = s.all_items ++ (answer i query).items;
            updated_etags = (page, (answer i query).etag) ∷ s.updated_etags;
          })
        ])
  unfolding settle further_pages
  settle-told i page params query s = rw (told i query, settle, further_pages) refl

  -- The state in which the response for a new page is looked at.
  abbrev pub fetched_at : Values → ℕ → List Request → Fetching A → Fetching A
  fetched_at params page rest s = record s {
    queue = rest;
    completed = page ∷ s.completed;
    asked = s.asked ++ (page, with_etag (etag_of page previous) params) ∷ [];
  }

  serve-new :
      (i page : ℕ) (params : Values) (rest : List Request) (s : Fetching A)
      → is_completed page s.completed ≡ false
      → serve previous (λ query. some (answer i query)) (request_for params page) rest s
        ≡ settle
            (request_for params page)
            (own (with_etag (etag_of page previous) params))
            (some (answer i (with_etag (etag_of page previous) params)))
            (fetched_at params page rest s)
  unfolding serve prepare
  serve-new i page params rest s new =
      ap
        (λ completed.
          settle (request_for params page) (own (with_etag (etag_of page previous) params))
            (some (answer i (with_etag (etag_of page previous) params)))
            (record s {
              queue = rest;
              completed = completed;
              asked = s.asked ++ (page, with_etag (etag_of page previous) params) ∷ [];
            }))
        (mark-new params page s.completed new)

  pub serve-blocks :
      (i page : ℕ) (params : Values) (rest : List Request) (s : Fetching A)
      → is_completed page s.completed ≡ false
      → send_pages s.initial (page ∷ s.completed) 2 (n - 1) rest ≡ none
      → serve previous (λ query. some (answer i query)) (request_for params page) rest s ≡ none
  serve-blocks i page params rest s new sent =
      rw
        (
          serve-new i page params rest s new,
          settle-told i page params (with_etag (etag_of page previous) params)
              (fetched_at params page rest s),
          sent,
        )
        refl

  pub serve-sends :
      (i page : ℕ) (params : Values) (rest queue : List Request) (s : Fetching A)
      → is_completed page s.completed ≡ false
      → send_pages s.initial (page ∷ s.completed) 2 (n - 1) rest ≡ some queue
      → (s' : Fetching A) × (serve previous
            (λ query. some (answer i query))
            (request_for params page)
            rest
            s
          ≡ some s')
        × (s'.initial ≡ s.initial)
        × (s'.queue ≡ queue)
        × (s'.completed ≡ page ∷ s.completed)
  serve-sends i page params rest queue s new sent =
      let query = with_etag (etag_of page previous) params in
      let s₂ : Fetching A = fetched_at params page rest s in
      (
        record s₂ {
          queue = queue;
          all_items = s.all_items ++ (answer i query).items;
          updated_etags = (page, (answer i query).etag) ∷ s.updated_etags;
        },
        rw (serve-new i page params rest s new, settle-told i page params query s₂, sent) refl,
        refl,
        refl,
        refl,
      )
