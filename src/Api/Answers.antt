-- ===== src/Api/Answers.antt =====
-- What the endpoint of the system indexes answers (cmd/api/v1endpoints/systemIndex.go).
use eve_industry_planner_sta.Prelude.{
  ℕ, ◌≤◌, String, ◌≡◌, ◌≢◌, ◌∙◌, refl, ap, arith, ◌↔◌, Bool, true, false, ◌&&◌, ◌||◌, List, [], ◌∷◌,
  Option, none, some, if◌then◌else◌, length, str_eq, eq_iff, Option-cases, Bool-cases, inl, inr,
}
use eve_industry_planner_sta.Prelude.Dict.{Dict, lookup, insert, lookup-insert}
use eve_industry_planner_sta.Prelude.Int.{pos}
use eve_industry_planner_sta.Prelude.Decimal.{format_int}
use eve_industry_planner_sta.Prelude.Text.{
  codes, AllDigits, IsNumber, IsNumber-codes, parse_int-IsNumber, IsNumber-parse_int,
}
use Prim.Native.String.{◌++◌}
use eve_industry_planner_sta.Redis.{Redis}
use eve_industry_planner_sta.Tasks.Items.{SystemIndexes}
use eve_industry_planner_sta.Api.{
  all_digits, valid_id_pattern, parse_id, is_valid_id, validate_system_ids, IdsRequest, answered,
  extracted, extract_system_ids, get_json, get_industry_system_index, blank_index, id_number,
  index_of, retrieve, answer_ids, system_indexes_handler,
}

abbrev pub occurs : String → List String → Bool
occurs id [] = false
occurs id (other ∷ rest) = str_eq id other || occurs id rest

occurs-validate :
    (id : String) (ids : List String)
    → occurs id (validate_system_ids ids).0 ≡ (is_valid_id id && occurs id ids)
unfolding validate_system_ids
occurs-validate id [] = ground arith
occurs-validate id (x ∷ rest) = ground (arith, occurs-validate id rest, eq_iff id x)

length-validate : (ids : List String) → length (validate_system_ids ids).0 ≤ length ids
unfolding validate_system_ids
length-validate [] = omega arith
length-validate (x ∷ rest) = ground (arith, length-validate rest)

occurs-some : (id : String) (ids : List String) → occurs id ids ≡ true → 1 ≤ length ids
occurs-some id [] h = absurd (ground (arith, h))
occurs-some id (x ∷ rest) h = omega arith

all_digits-AllDigits : (cs : List ℕ) → all_digits cs ≡ true → AllDigits cs
unfolding all_digits
all_digits-AllDigits [] h = tt
all_digits-AllDigits (c ∷ cs) h =
    let rest = all_digits-AllDigits cs (ground (arith, h)) in
    (ground (arith, h), ground (arith, h), rest)

AllDigits-all_digits : (cs : List ℕ) → AllDigits cs → all_digits cs ≡ true
unfolding all_digits
AllDigits-all_digits [] h = refl
AllDigits-all_digits (c ∷ cs) h = ground (arith, h.0, h.1, AllDigits-all_digits cs h.2)

pattern-digits : (cs : List ℕ) → valid_id_pattern cs ≡ true → (cs ≢ []) × AllDigits cs
unfolding valid_id_pattern
pattern-digits [] h = absurd (ground (arith, h))
pattern-digits (c ∷ cs) h = ((λ e. absurd (ground (arith, e))), all_digits-AllDigits (c ∷ cs) h)

digits-pattern : (cs : List ℕ) → cs ≢ [] → AllDigits cs → valid_id_pattern cs ≡ true
unfolding valid_id_pattern
digits-pattern [] ne h = absurd (ne refl)
digits-pattern (c ∷ cs) ne h = AllDigits-all_digits (c ∷ cs) h

is_valid_id-IsNumber : (id : String) → is_valid_id id ≡ true → (n : ℕ) × IsNumber id n
unfolding is_valid_id
is_valid_id-IsNumber id h = elim (Bool-cases (valid_id_pattern (codes id))) [
  | inr other ↦ absurd (ground (arith, other, h))
  | inl digits ↦ elim (Option-cases (parse_id id)) [
    | inl none_there ↦ absurd (ground (arith, digits, none_there, h))
    | inr (z, parsed) ↦
        let (ne, all) = pattern-digits (codes id) digits in
        (_, IsNumber-parse_int id z (λ e. ne (rw e refl)) all parsed)
  ]
]

IsNumber-is_valid_id : (id : String) (n : ℕ) → IsNumber id n → is_valid_id id ≡ true
unfolding is_valid_id
IsNumber-is_valid_id id n h =
    ground
      (arith, digits-pattern (codes id) (IsNumber-codes id n h) h.digits, parse_int-IsNumber id n h)

module _ (r : Redis) {Cost : Type 0} (zero_cost : Cost)
    (unmarshal : String → Option (SystemIndexes Cost)) (reads : String → Bool) where
  open r use {Store, get}

  lookup-retrieve :
      (id : String) (ids : List String) (s : Store) (result : Dict (SystemIndexes Cost))
      → lookup id (retrieve r zero_cost unmarshal reads ids s result) ≡ (
          if occurs id ids
          then some (index_of r zero_cost unmarshal reads id s)
          else lookup id result)
  unfolding retrieve
  lookup-retrieve id [] s result = refl
  lookup-retrieve id (x ∷ rest) s result = ground (
    arith,
    lookup-retrieve id rest s (insert x (index_of r zero_cost unmarshal reads x s) result),
    lookup-insert result id x (index_of r zero_cost unmarshal reads x s),
    eq_iff id x,
  )

  answer_ids-answered :
      (ids : List String) (s : Store) (m : Dict (SystemIndexes Cost))
      → answer_ids r zero_cost unmarshal reads ids s ≡ answered m
      → (1 ≤ length ids) × (length ids ≤ 500) × (retrieve r zero_cost unmarshal reads ids s [] ≡ m)
  unfolding answer_ids
  answer_ids-answered [] s m h = absurd (ground (arith, h))
  answer_ids-answered (id ∷ rest) s m h = ground (arith, h)

  handler-lookup :
      (req : IdsRequest) (ids : List String) (s : Store) (m : Dict (SystemIndexes Cost))
      → extract_system_ids req ≡ extracted ids
      → system_indexes_handler r zero_cost unmarshal reads req s ≡ answered m
      → (1 ≤ length (validate_system_ids ids).0)
        × (length (validate_system_ids ids).0 ≤ 500)
        × ((id : String)
            → lookup id m ≡ (
                if is_valid_id id && occurs id ids
                then some (index_of r zero_cost unmarshal reads id s)
                else none))
  unfolding system_indexes_handler lookup
  handler-lookup req ids s m h e =
      let (some_ids, few, same) =
        answer_ids-answered (validate_system_ids ids).0 s m (rw (h, system_indexes_handler) at e) in
      (
        some_ids,
        few,
        (λ id. rw (← same) (
            lookup-retrieve id (validate_system_ids ids).0 s []
            ∙ rw (occurs-validate id ids) (ground arith))),
      )

  abbrev pub key_of : ℕ → String
  key_of n = "esi:industry_systems:" ++ format_int (pos n)

  -- The index that a system's key holds: the key is read, and its text parses.
  pub record IsStored (s : Store) (n : ℕ) (index : SystemIndexes Cost) : Type 0 where
    pub text : String
    pub read : reads (key_of n) ≡ true
    pub found : get (key_of n) s ≡ some text
    pub parsed : unmarshal text ≡ some index

  -- The index of a system of which nothing is known.
  abbrev pub unknown : ℕ → SystemIndexes Cost
  unknown n = record {
    solar_system_id = pos n;
    last_updated = pos 0;
    manufacturing = zero_cost;
    research_time = zero_cost;
    research_material = zero_cost;
    copying = zero_cost;
    invention = zero_cost;
    reaction = zero_cost;
  }

  id_number-IsNumber :
      (id : String) (n : ℕ) → IsNumber id n → id_number r zero_cost unmarshal reads id ≡ pos n
  unfolding id_number
  id_number-IsNumber id n h = rw (parse_int-IsNumber id n h, id_number) refl

  get_json-IsStored :
      (s : Store) (n : ℕ) (index : SystemIndexes Cost)
      → (get_json r zero_cost unmarshal reads (key_of n) s ≡ some index) ↔ IsStored s n index
  unfolding get_json
  get_json-IsStored s n index = (
    (λ e. elim (Bool-cases (reads (key_of n))) [
      | inr fails ↦ absurd (ground (arith, fails, e))
      | inl succeeds ↦ elim (Option-cases (get (key_of n) s)) [
        | inl absent ↦ absurd (ground (arith, succeeds, absent, e))
        | inr (text, there) ↦ record {
          text = text;
          read = succeeds;
          found = there;
          parsed = ground (arith, succeeds, there, e);
        }
      ]
    ]),
    (λ h. ground (arith, h.read, h.found, h.parsed)),
  )

  -- What a key that is read and parses is answered with, and what every other one is.
  index_of-IsNumber :
      (id : String) (n : ℕ) (s : Store)
      → IsNumber id n
      → ((index : SystemIndexes Cost)
          → IsStored s n index
          → index_of r zero_cost unmarshal reads id s ≡ index)
        × (((index : SystemIndexes Cost) → ¬ IsStored s n index)
            → index_of r zero_cost unmarshal reads id s ≡ unknown n)
  unfolding index_of get_industry_system_index blank_index
  index_of-IsNumber id n s h = (
    (λ index stored.
        rw (id_number-IsNumber id n h, index_of)
          (rw ((get_json-IsStored s n index).1 stored) refl)),
    (λ missing.
        rw (id_number-IsNumber id n h, index_of)
          (elim (Option-cases (get_json r zero_cost unmarshal reads (key_of n) s)) [
            | inl nothing ↦
                rw nothing
                  (ap (blank_index r zero_cost unmarshal reads) (id_number-IsNumber id n h))
            | inr (index, there) ↦ absurd (missing index ((get_json-IsStored s n index).0 there))
          ])),
  )

  -- An answer of the endpoint to a request whose ids can be read holds an index for each id of the
  -- request that is a number of decimal digits below 2 ^ 31, and for nothing else: the index that the
  -- system's key holds, if the key is read and its text parses, and otherwise a blank one with the
  -- system's number. There are at least one and at most 500 such ids.
  pub system_indexes_handler-answers :
      (req : IdsRequest) (ids : List String) (s : Store) (m : Dict (SystemIndexes Cost))
      → extract_system_ids req ≡ extracted ids
      → system_indexes_handler r zero_cost unmarshal reads req s ≡ answered m
      → (1 ≤ length (validate_system_ids ids).0)
        × (length (validate_system_ids ids).0 ≤ 500)
        × ((id : String) (n : ℕ) (index : SystemIndexes Cost)
            → IsNumber id n
            → occurs id ids ≡ true
            → IsStored s n index
            → lookup id m ≡ some index)
        × ((id : String) (n : ℕ)
            → IsNumber id n
            → occurs id ids ≡ true
            → ((index : SystemIndexes Cost) → ¬ IsStored s n index)
            → lookup id m ≡ some (unknown n))
        × ((id : String) (index : SystemIndexes Cost)
            → lookup id m ≡ some index
            → (occurs id ids ≡ true) × (n : ℕ) × IsNumber id n)
  system_indexes_handler-answers req ids s m h e =
      let (some_ids, few, found) = handler-lookup req ids s m h e in
      (
        some_ids,
        few,
        (λ id n index number there stored.
            found id
            ∙ rw (IsNumber-is_valid_id id n number, there)
                (ap some ((index_of-IsNumber id n s number).0 index stored))),
        (λ id n number there missing.
            found id
            ∙ rw (IsNumber-is_valid_id id n number, there)
                (ap some ((index_of-IsNumber id n s number).1 missing))),
        (λ id index held.
            let (n, number) = is_valid_id-IsNumber id (ground (arith, found id, held)) in
            (ground (arith, found id, held), n, number)),
      )

  answer_ids-succeeds :
      (ids : List String) (s : Store)
      → 1 ≤ length ids
      → length ids ≤ 500
      → answer_ids r zero_cost unmarshal reads ids s
        ≡ answered (retrieve r zero_cost unmarshal reads ids s [])
  unfolding answer_ids
  answer_ids-succeeds [] s h k = absurd (omega arith)
  answer_ids-succeeds (id ∷ rest) s h k = ground arith

  -- A request with at most 500 ids, one of them a number, is answered.
  pub system_indexes_handler-answered :
      (req : IdsRequest) (ids : List String) (id : String) (n : ℕ) (s : Store)
      → extract_system_ids req ≡ extracted ids
      → length ids ≤ 500
      → IsNumber id n
      → occurs id ids ≡ true
      → (m : Dict (SystemIndexes Cost)) × (system_indexes_handler r zero_cost unmarshal reads req s
          ≡ answered m)
  unfolding system_indexes_handler
  system_indexes_handler-answered req ids id n s h few number there =
      let kept : occurs id (validate_system_ids ids).0 ≡ true =
        occurs-validate id ids ∙ rw (IsNumber-is_valid_id id n number, there) refl in
      (
        retrieve r zero_cost unmarshal reads (validate_system_ids ids).0 s [],
        rw (h, system_indexes_handler)
            (answer_ids-succeeds (validate_system_ids ids).0 s (occurs-some id _ kept)
              (omega (arith, length-validate ids, few))),
      )
