-- ===== src/Legacy/Ids.antt =====
-- The ids of a request (legacy/apiServer/util/util.go, `ExtractIDs`).
use eve_industry_planner_sta.Prelude.{
  ℕ, ◌+◌, ◌≤◌, ◌≡◌, ◌≢◌, arith, String, Bool, true, false, not, List, [], ◌∷◌, Option, none, some,
  length, Bool-cases, inl, inr, ◌||◌, ◌&&◌, if◌then◌else◌, ltb, leb, ◌==◌, str_eq, eq_iff,
}
use eve_industry_planner_sta.Prelude.Dict.{Dict, lookup, insert, lookup-insert}
use eve_industry_planner_sta.Prelude.Text.{codes, AllDigits}

-- What the request holds of them: the values of the query parameter `id` of a GET, what the body of a
-- POST decodes to, if it does.
pub data IdRequest : Type 0 where
  get_request : List String → IdRequest
  post_request : Option (List String) → IdRequest
  other_request : IdRequest

pub data IdError : Type 0 where
  method_not_allowed missing_id too_many_ids invalid_id_format invalid_request_body : IdError

pub data Extraction : Type 0 where
  refused : IdError → Extraction
  extracted : List String → Extraction

-- The pattern ^\d+$.
unfoldable pub only_digits : List ℕ → Bool
only_digits [] = true
only_digits (c ∷ cs) = (leb b'0' c && leb c b'9') && only_digits cs

unfoldable pub valid_id : String → Bool
unfolding only_digits
valid_id id = not (str_eq id "") && only_digits (codes id)

unfoldable pub all_valid : List String → Bool
all_valid [] = true
all_valid (id ∷ rest) = valid_id id && all_valid rest

unfoldable pub is_seen : Option Bool → Bool
is_seen none = false
is_seen (some b) = b

unfoldable pub remove_seen : Dict Bool → List String → List String
unfolding is_seen
remove_seen seen [] = []
remove_seen seen (id ∷ rest) =
    let skipped = remove_seen seen rest in
    let kept = remove_seen (insert id true seen) rest in
    if not (is_seen (lookup id seen)) then id ∷ kept else skipped

unfoldable pub remove_duplicate_ids : List String → List String
unfolding remove_seen
remove_duplicate_ids ids = remove_seen [] ids

-- The checks that both methods make.
unfoldable pub check_ids : List String → Option IdError
check_ids ids =
    if length ids == 0
    then some missing_id
    else if ltb 500 (length ids)
    then some too_many_ids
    else if not (all_valid ids)
    then some invalid_id_format
    else none

unfoldable pub checked : Option IdError → List String → Extraction
checked none ids = extracted ids
checked (some e) ids = refused e

unfoldable pub extract_ids : IdRequest → Extraction
unfolding check_ids remove_duplicate_ids checked
extract_ids (get_request ids) = checked (check_ids ids) (remove_duplicate_ids ids)
extract_ids (post_request none) = refused invalid_request_body
extract_ids (post_request (some ids)) = checked (check_ids ids) ids
extract_ids other_request = refused method_not_allowed

-- How often an id stands in a list, and whether it does.
abbrev pub count : String → List String → ℕ
count id [] = 0
count id (x ∷ rest) = (if str_eq x id then 1 else 0) + count id rest

abbrev pub occurs : String → List String → Bool
occurs id [] = false
occurs id (x ∷ rest) = str_eq x id || occurs id rest

count-remove_seen :
    (id : String) (seen : Dict Bool) (ids : List String)
    → count id (remove_seen seen ids)
      ≡ (if is_seen (lookup id seen) then 0 else if occurs id ids then 1 else 0)
unfolding remove_seen is_seen
count-remove_seen id seen [] = ground arith
count-remove_seen id seen (x ∷ rest) = ground (
  arith,
  count-remove_seen id seen rest,
  count-remove_seen id (insert x true seen) rest,
  lookup-insert seen id x true,
  eq_iff x id,
  eq_iff id x,
)

length-remove_seen :
    (seen : Dict Bool) (ids : List String) → length (remove_seen seen ids) ≤ length ids
unfolding remove_seen
length-remove_seen seen [] = omega arith
length-remove_seen seen (x ∷ rest) =
    ground (arith, length-remove_seen seen rest, length-remove_seen (insert x true seen) rest)

all_valid-occurs :
    (id : String) (ids : List String)
    → all_valid ids ≡ true
    → occurs id ids ≡ true
    → valid_id id ≡ true
unfolding all_valid
all_valid-occurs id [] h o = absurd (ground (arith, o))
all_valid-occurs id (x ∷ rest) h o = elim (Bool-cases (str_eq x id)) [
  | inl same ↦ rw (← (eq_iff x id).0 same) (ground (arith, h))
  | inr differs ↦ all_valid-occurs id rest (ground (arith, h)) (ground (arith, o, differs))
]

-- A text of decimal digits, of at least one character.
abbrev pub IsNumeral : String → Type 0
IsNumeral id = (id ≢ "") × AllDigits (codes id)

only_digits-AllDigits : (cs : List ℕ) → only_digits cs ≡ true → AllDigits cs
unfolding only_digits
only_digits-AllDigits [] h = tt
only_digits-AllDigits (c ∷ cs) h =
    let rest = only_digits-AllDigits cs (ground (arith, h)) in
    (ground (arith, h), ground (arith, h), rest)

valid_id-IsNumeral : (id : String) → valid_id id ≡ true → IsNumeral id
unfolding valid_id
valid_id-IsNumeral id h = (
  (λ e. absurd (ground (arith, h, (eq_iff id "").1 e))),
  only_digits-AllDigits (codes id) (ground (arith, h)),
)

-- The ids of a GET request, once extracted, are those of its query, each of them once. There are between
-- 1 and 500 of them, and each is a text of one or more decimal digits.
pub extract_ids-once :
    (query ids : List String)
    → extract_ids (get_request query) ≡ extracted ids
    → ((id : String) → count id ids ≡ (if occurs id query then 1 else 0))
      × (length ids ≤ 500)
      × (1 ≤ length ids)
      × ((id : String) → occurs id query ≡ true → IsNumeral id)
unfolding extract_ids check_ids checked remove_duplicate_ids remove_seen is_seen lookup
extract_ids-once [] ids h = absurd (ground (arith, h))
extract_ids-once (x ∷ rest) ids h =
    let same : remove_seen [] (x ∷ rest) ≡ ids = ground (arith, h) in
    (
      (λ id. rw (← same) (count-remove_seen id [] (x ∷ rest))),
      rw (← same) (ground (arith, length-remove_seen [] (x ∷ rest), h)),
      ground (arith, h),
      (λ id o. valid_id-IsNumeral id (all_valid-occurs id (x ∷ rest) (ground (arith, h)) o)),
    )
