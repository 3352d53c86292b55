-- ===== src/Api/Nested.antt =====
-- The order of the middleware, and the requests that it is applied to (cmd/api/middleware/types.go).
use eve_industry_planner_sta.Prelude.{
  ℕ, zero, suc, ◌≡◌, refl, ap, ◌∙◌, arith, String, Bool, true, false, List, [], ◌∷◌, length,
  get_elem?, if◌then◌else◌, Option-cases, inl, inr, str_eq, ◌||◌,
}
use eve_industry_planner_sta.Prelude.Dict.{Dict, lookup, insert, lookup-insert}
use eve_industry_planner_sta.Api.Middleware.{
  Handler, MiddlewareConstructor, apply_constructors, chain, apply_if, path_set, in_set, paths,
}

module _ (Request World : Type 0) where
  -- The constructors around a handler, the first outermost.
  abbrev pub nested :
      List (MiddlewareConstructor Request World) → Handler Request World → Handler Request World
  nested [] h = h
  nested (constructor ∷ rest) h = constructor (nested rest h)

  apply_constructors-cons :
      (c : MiddlewareConstructor Request World) (cs : List (MiddlewareConstructor Request World))
      (left : ℕ) (h : Handler Request World)
      → apply_constructors Request World (c ∷ cs) (suc left) h
        ≡ c (apply_constructors Request World cs left h)
  unfolding apply_constructors
  apply_constructors-cons c cs zero h = refl
  apply_constructors-cons c cs (suc left) h = elim (Option-cases (get_elem? cs left)) [
    | inl missing ↦ rw (missing, apply_constructors) (apply_constructors-cons c cs left h)
    | inr (d, there) ↦ rw (there, apply_constructors) (apply_constructors-cons c cs left (d h))
  ]

  chain-nested :
      (cs : List (MiddlewareConstructor Request World)) (h : Handler Request World)
      → chain Request World cs h ≡ nested cs h
  unfolding chain apply_constructors
  chain-nested [] h = refl
  chain-nested (c ∷ cs) h = apply_constructors-cons c cs (length cs) h ∙ ap c (chain-nested cs h)

abbrev pub occurs : String → List String → Bool
occurs p [] = false
occurs p (x ∷ rest) = str_eq p x || occurs p rest

path_set-lookup :
    (p : String) (ps : List String) (set : Dict Bool)
    → in_set (lookup p (path_set ps set)) ≡ (occurs p ps || in_set (lookup p set))
unfolding path_set in_set
path_set-lookup p [] set = refl
path_set-lookup p (x ∷ rest) set =
    ground (arith, path_set-lookup p rest (insert x true set), lookup-insert set p x true)

module _ (Request World : Type 0) (path : Request → String) where
  -- Middleware that is applied to some paths only: a request for one of them goes through all the
  -- constructors, the first of them outermost, and every other request straight to the next handler.
  pub apply_if-paths :
      (ps : List String) (cs : List (MiddlewareConstructor Request World))
      (next : Handler Request World) (r : Request) (w : World)
      → apply_if Request World (paths path ps) cs next r w
        ≡ (if occurs (path r) ps then nested Request World cs next r w else next r w)
  unfolding apply_if paths in_set lookup
  apply_if-paths ps cs next r w = ground (
    arith,
    path_set-lookup (path r) ps [],
    ap (λ (h : Handler Request World). h r w) (chain-nested Request World cs next),
  )
