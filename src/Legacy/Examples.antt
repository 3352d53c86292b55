-- ===== src/Legacy/Examples.antt =====
-- The legacy helpers at concrete inputs (legacy/shared/requests/requests.go,
-- legacy/apiServer/util/util.go).
use eve_industry_planner_sta.Prelude.{
  ℕ, ◌≤◌, ◌≡◌, refl, arith, String, Bool, true, [], ◌∷◌, some, length, if◌then◌else◌,
}
use eve_industry_planner_sta.Prelude.Int.{pos}
use eve_industry_planner_sta.Prelude.Dict.{lookup, insert}
use eve_industry_planner_sta.Prelude.Text.{atoi}
use eve_industry_planner_sta.Legacy.{
  Values, Response, get_available_page_count, blocked, fetch_all_pages,
}
use eve_industry_planner_sta.Legacy.Blocked.{fetch_all_pages-never_returns}
use eve_industry_planner_sta.Legacy.Ids.{
  get_request, extracted, extract_ids, count, occurs, valid_id, all_valid, check_ids, checked,
  remove_duplicate_ids, remove_seen, is_seen, only_digits, extract_ids-once, IsNumeral,
}

-- Every page has one item and no ETag, and there are 16 pages.
abbrev sixteen : ℕ → Values → Response Bool
sixteen n query = record { items = true ∷ []; etag = ""; pages = "16" }

abbrev by_name : Values
by_name = ("order", "name" ∷ []) ∷ []

told : get_available_page_count "16" ≡ pos 16
unfolding get_available_page_count atoi
told = refl

fetch_all_pages-never_returns_example :
    fetch_all_pages 20 by_name [] (λ n query. some (sixteen n query)) ≡ blocked
fetch_all_pages-never_returns_example =
    fetch_all_pages-never_returns 20 by_name [] sixteen 16 (λ n query. told) (omega arith)
      (omega arith)

two_ids : extract_ids (get_request ("7" ∷ "7" ∷ "12" ∷ [])) ≡ extracted ("7" ∷ "12" ∷ [])
unfolding extract_ids check_ids checked remove_duplicate_ids remove_seen is_seen lookup insert
    all_valid valid_id only_digits
two_ids = refl

extract_ids-once_example :
    ((id : String)
      → count id ("7" ∷ "12" ∷ []) ≡ (if occurs id ("7" ∷ "7" ∷ "12" ∷ []) then 1 else 0))
    × (length {A = String} ("7" ∷ "12" ∷ []) ≤ 500)
    × (1 ≤ length {A = String} ("7" ∷ "12" ∷ []))
    × ((id : String) → occurs id ("7" ∷ "7" ∷ "12" ∷ []) ≡ true → IsNumeral id)
extract_ids-once_example = extract_ids-once ("7" ∷ "7" ∷ "12" ∷ []) ("7" ∷ "12" ∷ []) two_ids
