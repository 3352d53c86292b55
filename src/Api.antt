-- ===== src/Api.antt =====
-- The endpoint of the system indexes (cmd/api/v1endpoints/systemIndex.go) and the readers of Redis
-- that it calls (internal/core/redis/redis.go). A request is its method with what `url.Query` or the
-- JSON decoder makes of it.
pub mod Answers
pub mod Middleware
pub mod Nested
pub mod RoundTrip
mod Examples
mod Runs
use eve_industry_planner_sta.Prelude.{
  ℕ, zero, suc, ◌+◌, String, Bool, true, false, List, [], ◌∷◌, Option, none, some, ◌&&◌, leb, ltb,
  if◌then◌else◌, length,
}
use Prim.Native.String.{◌++◌}
use eve_industry_planner_sta.Prelude.Int.{ℤ, pos}
use eve_industry_planner_sta.Prelude.Text.{codes, parse_int}
use eve_industry_planner_sta.Prelude.Decimal.{format_int}
use eve_industry_planner_sta.Prelude.Dict.{Dict, insert}
use eve_industry_planner_sta.Redis.{Redis}
use eve_industry_planner_sta.Tasks.Items.{SystemIndexes}

-- The pattern ^\d+$.
unfoldable pub all_digits : List ℕ → Bool
all_digits [] = true
all_digits (c ∷ cs) = (leb 48 c && leb c 57) && all_digits cs

unfoldable pub valid_id_pattern : List ℕ → Bool
valid_id_pattern [] = false
valid_id_pattern (c ∷ cs) = all_digits (c ∷ cs)

-- strconv.ParseInt(idStr, 10, 32)
abbrev pub parse_id : String → Option ℤ
parse_id id = parse_int 32 (codes id)

-- The two tests of one id.
unfoldable pub is_valid_id : String → Bool
is_valid_id id =
    if valid_id_pattern (codes id)
    then (elim (parse_id id) [ none ↦ false | some n ↦ true ])
    else false

-- The valid ids in order, and the number of the others.
unfoldable pub validate_system_ids : List String → List String × ℕ
validate_system_ids [] = ([], 0)
validate_system_ids (id ∷ rest) =
    let (validated, invalid) = validate_system_ids rest in
    if is_valid_id id then (id ∷ validated, invalid) else (validated, invalid + 1)

-- `none` for a body that does not decode.
pub data IdsRequest : Type 0 where
  get_ids : List String → IdsRequest
  post_ids : Option (List String) → IdsRequest
  other_method : IdsRequest

pub data IndexesResponse (Index : Type 0) : Type 0 where
  http_error : ℕ → String → IndexesResponse Index
  answered : Dict Index → IndexesResponse Index

-- An error is its status and the start of its text.
pub data Extracted : Type 0 where
  rejected : ℕ → String → Extracted
  extracted : List String → Extracted

unfoldable pub nonempty_ids : String → List String → Extracted
nonempty_ids text [] = rejected 400 text
nonempty_ids text (id ∷ rest) = extracted (id ∷ rest)

unfoldable pub extract_system_ids : IdsRequest → Extracted
unfolding nonempty_ids
extract_system_ids (get_ids ids) = nonempty_ids "Invalid request: missing 'id' query parameter" ids
extract_system_ids (post_ids none) = rejected 400 "Invalid request: invalid JSON body"
extract_system_ids (post_ids (some ids)) =
    nonempty_ids "Invalid request: empty array in request body" ids
extract_system_ids other_method = rejected 405 "Method not allowed"

-- `reads` tells for which keys a GET succeeds while the request is served.
module _ (r : Redis) {Cost : Type 0} (zero_cost : Cost)
    (unmarshal : String → Option (SystemIndexes Cost)) (reads : String → Bool) where
  open r use {Store, get}

  -- `none` for a read that fails, for a key that is not there, and for a text that does not parse.
  unfoldable pub get_json : String → Store → Option (SystemIndexes Cost)
  get_json key s =
      if reads key then (elim (get key s) [ none ↦ none | some text ↦ unmarshal text ]) else none

  unfoldable pub get_industry_system_index : ℤ → Store → Option (SystemIndexes Cost)
  get_industry_system_index id s = get_json ("esi:industry_systems:" ++ format_int id) s

  unfoldable pub blank_index : ℤ → SystemIndexes Cost
  blank_index id = record {
    solar_system_id = id;
    last_updated = pos 0;
    manufacturing = zero_cost;
    research_time = zero_cost;
    research_material = zero_cost;
    copying = zero_cost;
    invention = zero_cost;
    reaction = zero_cost;
  }

  -- The number of an id. The ids are valid here, so that the second parse has no error.
  unfoldable pub id_number : String → ℤ
  id_number id = elim (parse_id id) [ none ↦ pos 0 | some n ↦ n ]

  unfoldable pub index_of : String → Store → SystemIndexes Cost
  index_of id s = elim (get_industry_system_index (id_number id) s) [
    | none ↦ blank_index (id_number id)
    | some index ↦ index
  ]

  -- The loop over the ids, on the map so far.
  unfoldable pub retrieve :
      List String → Store → Dict (SystemIndexes Cost) → Dict (SystemIndexes Cost)
  retrieve [] s result = result
  retrieve (id ∷ rest) s result = retrieve rest s (insert id (index_of id s) result)

  -- maxSystemIDs is 500.
  unfoldable pub answer_ids : List String → Store → IndexesResponse (SystemIndexes Cost)
  answer_ids [] s = http_error 400 "No valid system IDs provided"
  answer_ids (id ∷ rest) s =
      if ltb 500 (length (id ∷ rest))
      then http_error 400 "Too many system IDs (max 500)"
      else answered (retrieve (id ∷ rest) s [])

  unfoldable pub system_indexes_handler : IdsRequest → Store → IndexesResponse (SystemIndexes Cost)
  system_indexes_handler req s = elim (extract_system_ids req) [
    | rejected status text ↦ http_error status text
    | extracted ids ↦ answer_ids (validate_system_ids ids).0 s
  ]
