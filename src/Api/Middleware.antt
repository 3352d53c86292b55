-- ===== src/Api/Middleware.antt =====
-- The middleware of the HTTP API (cmd/api/middleware/types.go). A handler acts on a request and on what
-- it writes to.
use eve_industry_planner_sta.Prelude.{
  ℕ, zero, suc, String, Bool, true, false, List, [], ◌∷◌, Option, none, some, length, get_elem?,
  if◌then◌else◌, str_eq, ◌||◌, ◌&&◌, not,
}
use eve_industry_planner_sta.Prelude.Dict.{Dict, lookup, insert}
use eve_industry_planner_sta.Prelude.Text.{has_prefix}

module _ (Request World : Type 0) where
  abbrev pub Handler : Type 0
  Handler = Request → World → World

  abbrev pub MiddlewareConstructor : Type 0
  MiddlewareConstructor = Handler → Handler

  -- The loop from the last constructor to the first: `left` are still to be applied. No index is out of
  -- range.
  unfoldable pub apply_constructors : List MiddlewareConstructor → ℕ → Handler → Handler
  apply_constructors constructors zero handler = handler
  apply_constructors constructors (suc left) handler = elim (get_elem? constructors left) [
    | none ↦ apply_constructors constructors left handler
    | some constructor ↦ apply_constructors constructors left (constructor handler)
  ]

  unfoldable pub chain : List MiddlewareConstructor → Handler → Handler
  unfolding apply_constructors
  chain constructors h = apply_constructors constructors (length constructors) h

  unfoldable pub wrap : Handler → List MiddlewareConstructor → Handler
  unfolding chain
  wrap h constructors = chain constructors h

  -- The mux that the group registers its handlers with is not needed to wrap them.
  pub record Group : Type 0 where
    pub wrap_handler : Handler → Handler

  unfoldable pub new_group : List MiddlewareConstructor → Group
  unfolding chain
  new_group constructors = record { wrap_handler = chain constructors }

  -- What is registered for a pattern; `register` is the mux's own `Handle`.
  unfoldable pub group_handle :
      {Mux : Type 0} → (String → Handler → Mux → Mux) → Group → String → Handler → Mux → Mux
  group_handle register g pattern h mux = register pattern (g.wrap_handler h) mux

  unfoldable pub apply_if : (Request → Bool) → List MiddlewareConstructor → MiddlewareConstructor
  unfolding chain
  apply_if matches constructors next r w =
      let wrapped = chain constructors next in if matches r then wrapped r w else next r w

-- The set of the paths, and the matcher of those in it.
unfoldable pub path_set : List String → Dict Bool → Dict Bool
path_set [] set = set
path_set (p ∷ rest) set = path_set rest (insert p true set)

unfoldable pub in_set : Option Bool → Bool
in_set none = false
in_set (some b) = true

module _ {Request : Type 0} (path : Request → String) where
  unfoldable pub paths : List String → Request → Bool
  unfolding path_set in_set
  paths ps r = in_set (lookup (path r) (path_set ps []))

  unfoldable pub prefixes : List String → Request → Bool
  prefixes [] r = false
  prefixes (pref ∷ rest) r = (not (str_eq pref "") && has_prefix (path r) pref) || prefixes rest r
