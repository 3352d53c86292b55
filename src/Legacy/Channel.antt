-- ===== src/Legacy/Channel.antt =====
-- What the loop over the further pages sends (legacy/shared/requests/requests.go).
use eve_industry_planner_sta.Prelude.{
  ℕ, zero, suc, ◌+◌, ◌≤◌, ◌<◌, ◌≡◌, refl, ap, sym, ◌∙◌, arith, true, false, List, [], ◌∷◌, ◌++◌,
  some, length, ltb,
}
use mathlib.Core.List.{append-nil, append_assoc}
use eve_industry_planner_sta.Legacy.{
  Values, own, Request, is_completed, enqueue, set_page_query_parameters, send_pages,
}

-- The requests for some pages, from `page` on.
unfoldable pub requests : Values → ℕ → ℕ → List Request
requests initial page zero = []
requests initial page (suc left) =
    record { params = own (set_page_query_parameters initial page); page = page; retries = 0 }
    ∷ requests initial (page + 1) left

pub length-requests :
    (initial : Values) (page left : ℕ) → length (requests initial page left) ≡ left
unfolding requests
length-requests initial page zero = refl
length-requests initial page (suc left) = omega (arith, length-requests initial (page + 1) left)

pub length-append : (xs ys : List Request) → length (xs ++ ys) ≡ length xs + length ys
length-append [] ys = omega arith
length-append (x ∷ xs) ys = omega (arith, length-append xs ys)

-- Pages that are not completed, with room for all of them.
pub send_pages-fits :
    (initial : Values) (completed : List ℕ) (page left : ℕ) (queue : List Request)
    → ((p : ℕ) → page ≤ p → is_completed p completed ≡ false)
    → length queue + left ≤ 100
    → send_pages initial completed page left queue ≡ some (queue ++ requests initial page left)
unfolding send_pages enqueue requests
send_pages-fits initial completed page zero queue h fits = ap (λ q. some q) (sym (append-nil queue))
send_pages-fits initial completed page (suc left) queue h fits =
    let request : Request = record {
      params = own (set_page_query_parameters initial page);
      page = page;
      retries = 0;
    } in
    let room : ltb (length queue) 100 ≡ true = ground (arith, fits) in
    rw (h page (omega arith), room, send_pages, enqueue)
      (send_pages-fits initial completed (page + 1) left (queue ++ request ∷ [])
          (λ p later. h p (omega (arith, later)))
          (omega (arith, fits, length-append queue (request ∷ [])))
        ∙ ap (λ q. some q) (append_assoc queue (request ∷ []) (requests initial (page + 1) left)))

-- Completed pages are passed over.
pub send_pages-skips :
    (initial : Values) (completed : List ℕ) (page skipped left : ℕ) (queue : List Request)
    → ((p : ℕ) → page ≤ p → p < page + skipped → is_completed p completed ≡ true)
    → send_pages initial completed page (skipped + left) queue
      ≡ send_pages initial completed (page + skipped) left queue
unfolding send_pages
send_pages-skips initial completed page zero left queue h =
    let none_skipped : 0 + left ≡ left = omega arith in
    let same : page + 0 ≡ page = omega arith in rw (none_skipped, same) refl
send_pages-skips initial completed page (suc skipped) left queue h =
    let more : suc skipped + left ≡ suc (skipped + left) = omega arith in
    rw (more, h page (omega arith) (omega arith), send_pages)
      (send_pages-skips initial completed (page + 1) skipped left queue
          (λ p from below. h p (omega (arith, from)) (omega (arith, below)))
        ∙ ap (λ p. send_pages initial completed p left queue) (omega arith))
