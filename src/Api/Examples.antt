-- ===== src/Api/Examples.antt =====
-- The endpoint of the system indexes on a store in memory (cmd/api/v1endpoints/systemIndex.go).
use eve_industry_planner_sta.Prelude.{
  ℕ, ◌≤◌, String, ◌≡◌, refl, Bool, true, List, [], ◌∷◌, Option, none, some, length,
}
use eve_industry_planner_sta.Prelude.Text.{IsNumber, parse_int, parse_digits, signed_in_range}
use eve_industry_planner_sta.Prelude.Dict.{Dict, lookup}
use eve_industry_planner_sta.Tasks.Items.{SystemIndexes}
use eve_industry_planner_sta.Tasks.Examples.{dict_store}
use eve_industry_planner_sta.Api.{
  all_digits, valid_id_pattern, is_valid_id, validate_system_ids, get_ids, answered, extracted,
  nonempty_ids, extract_system_ids, retrieve, answer_ids, system_indexes_handler,
}
use eve_industry_planner_sta.Api.Answers.{occurs, IsStored, unknown, system_indexes_handler-answers}

abbrev asked : List String
asked = "30000142" ∷ "jita" ∷ "4294967296" ∷ []

-- A word and a number beyond 32 bits are left out.
asked_valid : validate_system_ids asked ≡ ("30000142" ∷ [], 2)
unfolding validate_system_ids is_valid_id valid_id_pattern all_digits parse_int parse_digits
    signed_in_range
asked_valid = refl

asked_extracted : extract_system_ids (get_ids asked) ≡ extracted asked
unfolding extract_system_ids nonempty_ids
asked_extracted = refl

-- No text parses.
abbrev unreadable : String → Option (SystemIndexes ℕ)
unreadable text = none

-- Every read succeeds.
abbrev always : String → Bool
always key = true

abbrev answer_map : Dict (SystemIndexes ℕ)
answer_map = retrieve dict_store 0 unreadable always ("30000142" ∷ []) [] []

answered_asked :
    system_indexes_handler dict_store 0 unreadable always (get_ids asked) [] ≡ answered answer_map
unfolding system_indexes_handler answer_ids
answered_asked = rw (asked_extracted, system_indexes_handler) (rw asked_valid refl)

system_indexes_handler-answers_example :
    (1 ≤ length (validate_system_ids asked).0)
    × (length (validate_system_ids asked).0 ≤ 500)
    × ((id : String) (n : ℕ) (index : SystemIndexes ℕ)
        → IsNumber id n
        → occurs id asked ≡ true
        → IsStored dict_store 0 unreadable always [] n index
        → lookup id answer_map ≡ some index)
    × ((id : String) (n : ℕ)
        → IsNumber id n
        → occurs id asked ≡ true
        → ((index : SystemIndexes ℕ) → ¬ IsStored dict_store 0 unreadable always [] n index)
        → lookup id answer_map ≡ some (unknown dict_store 0 unreadable always n))
    × ((id : String) (index : SystemIndexes ℕ)
        → lookup id answer_map ≡ some index
        → (occurs id asked ≡ true) × (n : ℕ) × IsNumber id n)
system_indexes_handler-answers_example =
    system_indexes_handler-answers dict_store 0 unreadable always (get_ids asked) asked []
      answer_map asked_extracted answered_asked
