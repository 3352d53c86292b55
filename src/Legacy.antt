-- ===== src/Legacy.antt =====
-- The pages of a collection (legacy/shared/requests/requests.go, `FetchAllPages`). The goroutine that
-- fetches is alone in reading the channel of requests, and it sends to it as well. What comes of a
-- request to ESI is given for each of them, in their order.
pub mod Pages
pub mod Channel
pub mod Served
pub mod Blocked
pub mod Ids
mod Examples
use eve_industry_planner_sta.Prelude.{
  ℕ, zero, suc, ◌+◌, ◌-◌, String, Bool, true, false, List, [], ◌∷◌, ◌++◌, Option, none, some,
  length, ◌==◌, ltb, not, if◌then◌else◌, str_eq, ◌||◌,
}
use eve_industry_planner_sta.Prelude.Int.{ℤ, pos, negsuc}
use eve_industry_planner_sta.Prelude.Dict.{Dict, lookup, insert}
use eve_industry_planner_sta.Prelude.Text.{atoi}
use eve_industry_planner_sta.Prelude.Decimal.{format_int}

-- url.Values
abbrev pub Values : Type 0
Values = Dict (List String)

-- The query parameters of a request: a map of its own, or the caller's, which the first request shares.
pub data Params : Type 0 where
  initial_parameters : Params
  own : Values → Params

pub record Request : Type 0 where
  pub params : Params
  pub page : ℕ
  pub retries : ℕ

-- A response: its items, and the headers ETag and X-Pages, empty where it lacks them.
pub record Response (A : Type 0) : Type 0 where
  pub items : List A
  pub etag : String
  pub pages : String

-- A map from pages.
abbrev pub Pages : Type 0 → Type 0
Pages V = List (ℕ × V)

unfoldable pub etag_of : ℕ → Pages String → Option String
etag_of page [] = none
etag_of page ((p, etag) ∷ rest) =
    let later = etag_of page rest in if p == page then some etag else later

unfoldable pub is_completed : ℕ → List ℕ → Bool
is_completed page [] = false
is_completed page (p ∷ rest) = (p == page) || is_completed page rest

-- `asked` are the requests made so far, with their query parameters.
pub record Fetching (A : Type 0) : Type 0 where
  pub initial : Values
  pub queue : List Request
  pub completed : List ℕ
  pub all_items : List A
  pub updated_etags : Pages String
  pub asked : List (ℕ × Values)

-- A send to the channel, whose capacity is 100; `none` for one that blocks.
unfoldable pub enqueue : Request → List Request → Option (List Request)
enqueue request queue = if ltb (length queue) 100 then some (queue ++ request ∷ []) else none

unfoldable pub set_page_query_parameters : Values → ℕ → Values
set_page_query_parameters initial page = insert "page" (format_int (pos page) ∷ []) initial

unfoldable pub get_available_page_count : String → ℤ
get_available_page_count pages_as_string =
    if str_eq pages_as_string ""
    then pos 1
    else (elim (atoi pages_as_string) [ none ↦ pos 1 | some n ↦ n ])

-- How often the loop from page 2 to the given one runs.
unfoldable pub further_pages : ℤ → ℕ
further_pages (pos n) = n - 1
further_pages (negsuc n) = 0

-- The loop over the further pages, from `page` on.
unfoldable pub send_pages : Values → List ℕ → ℕ → ℕ → List Request → Option (List Request)
unfolding enqueue
send_pages initial completed page zero queue = some queue
send_pages initial completed page (suc left) queue =
    let skipped = send_pages initial completed (page + 1) left queue in
    if is_completed page completed
    then skipped
    else elim (enqueue
        (record { params = own (set_page_query_parameters initial page); page = page; retries = 0 })
        queue) [ none ↦ none | some queue' ↦ send_pages initial completed (page + 1) left queue' ]

-- The parameters that a request is made with, and the caller's after that: an ETag is set in the map
-- that the request has.
unfoldable pub with_etag : Option String → Values → Values
with_etag none params = params
with_etag (some etag) params = insert "If-None-Match" (etag ∷ []) params

unfoldable pub prepare : Option String → Params → Values → Params × Values × Values
unfolding with_etag
prepare etag initial_parameters initial =
    (initial_parameters, with_etag etag initial, with_etag etag initial)
prepare etag (own params) initial = (own (with_etag etag params), with_etag etag params, initial)

-- A page is marked as completed before it is fetched.
unfoldable pub mark : Request → List ℕ → List ℕ
mark request completed =
    if not (is_completed request.page completed) || ltb 0 request.retries
    then request.page ∷ completed
    else completed

pub data Run (A : Type 0) : Type 0 where
  finished : Fetching A → Run A
  blocked unfinished : Run A

module _ {A : Type 0} where
  -- What comes of the request `request`, whose query is known: it is sent again after an error, three
  -- times at most, and after a response the further pages are sent that are not completed.
  unfoldable pub settle : Request → Params → Option (Response A) → Fetching A → Option (Fetching A)
  unfolding enqueue
  settle request params none s =
      if ltb request.retries 3
      then elim (enqueue (record request { params = params; retries = request.retries + 1 })
          s.queue) [ none ↦ none | some queue ↦ some (record s { queue = queue }) ]
      else some s
  settle request params (some response) s =
      elim (send_pages s.initial s.completed 2
        (further_pages (get_available_page_count response.pages)) s.queue) [
          | none ↦ none
          | some queue ↦ some (record s {
            queue = queue;
            all_items = s.all_items ++ response.items;
            updated_etags = (request.page, response.etag) ∷ s.updated_etags;
          })
        ]

  -- The body of the loop over the channel, for a request and the rest of the channel.
  unfoldable pub serve :
      Pages String
      → (Values → Option (Response A))
      → Request
      → List Request
      → Fetching A
      → Option (Fetching A)
  unfolding settle prepare mark
  serve previous fetch request rest s =
      let (params, query, initial) =
        prepare (etag_of request.page previous) request.params s.initial in
      settle request params (fetch query) (record s {
        initial = initial;
        queue = rest;
        completed = mark request s.completed;
        asked = s.asked ++ (request.page, query) ∷ [];
      })

  -- The loop until no request is left, for so many requests at most. `fetch n` is the outcome of the
  -- request after the first `n`.
  unfoldable pub run :
      ℕ → Pages String → (ℕ → Values → Option (Response A)) → ℕ → Fetching A → List Request → Run A
  unfolding serve
  run zero previous fetch n s [] = finished s
  run zero previous fetch n s (request ∷ rest) = unfinished
  run (suc fuel) previous fetch n s [] = finished s
  run (suc fuel) previous fetch n s (request ∷ rest) =
      elim (serve previous (fetch n) request rest s) [
        | none ↦ blocked
        | some s' ↦ run fuel previous fetch (n + 1) s' s'.queue
      ]

  -- The first request, for page 1 with the caller's parameters.
  unfoldable pub fetch_all_pages :
      ℕ → Values → Pages String → (ℕ → Values → Option (Response A)) → Run A
  unfolding run
  fetch_all_pages fuel initial previous fetch =
      run fuel previous fetch 0
        (record {
          initial = initial;
          queue = [];
          completed = [];
          all_items = [];
          updated_etags = [];
          asked = [];
        })
        (record { params = initial_parameters; page = 1; retries = 0 } ∷ [])
