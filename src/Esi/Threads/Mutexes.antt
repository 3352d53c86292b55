-- ===== src/Esi/Threads/Mutexes.antt =====
-- The mutexes of unknown paths, and the calls that have locked them
-- (internal/core/esi/rate_limited_client.go).
use eve_industry_planner_sta.Prelude.{
  ℕ, ◌+◌, ◌≤◌, ◌≡◌, refl, ap, sym, ◌∙◌, arith, String, Bool, true, false, List, [], ◌∷◌, ◌++◌,
  Option, none, some, ◌&&◌, if◌then◌else◌, str_eq, eq_iff, Bool-cases, Option-cases, inl, inr,
}
use eve_industry_planner_sta.Prelude.Dict.{Dict, lookup}
use eve_industry_planner_sta.Esi.Threads.{
  Phase, idle, returned, unknown, waiting, checking, in_flight, RunningCall, holding, is_mutex,
  is_locked,
}

-- The mutex that a call waits for or has locked.
unfoldable pub mutex_of : Phase → Option ℕ
mutex_of idle = none
mutex_of returned = none
mutex_of (unknown gl) = none
mutex_of (waiting gl mutex) = some mutex
mutex_of (checking gl held) = held
mutex_of (in_flight gl held) = held

-- How many calls have locked a mutex, and how many have one locked for a path.
unfoldable pub holders : ℕ → List RunningCall → ℕ
holders m [] = 0
holders m (c ∷ rest) = (if is_mutex m (holding c.phase) then 1 else 0) + holders m rest

abbrev pub is_held : Option ℕ → Bool
is_held none = false
is_held (some m) = true

abbrev pub discovering : String → List RunningCall → ℕ
discovering path [] = 0
discovering path (c ∷ rest) =
    (if str_eq c.path path && is_held (holding c.phase) then 1 else 0) + discovering path rest

-- Every mutex in use is the one of its path.
unfoldable pub Mapped : Dict ℕ → List RunningCall → Type 0
Mapped u [] = Unit
Mapped u (c ∷ rest) =
    ((m : ℕ) → mutex_of c.phase ≡ some m → lookup c.path u ≡ some m) × Mapped u rest

abbrev pub Grows : Dict ℕ → Dict ℕ → Type 0
Grows u u' = (path : String) (m : ℕ) → lookup path u ≡ some m → lookup path u' ≡ some m

pub Mapped-Grows : (u u' : Dict ℕ) (cs : List RunningCall) → Grows u u' → Mapped u cs → Mapped u' cs
unfolding Mapped
Mapped-Grows u u' [] grows h = tt
Mapped-Grows u u' (c ∷ rest) grows (first, others) =
    ((λ m e. grows c.path m (first m e)), Mapped-Grows u u' rest grows others)

-- One call in a list is replaced.
pub Mapped-replaced :
    (u : Dict ℕ) (before : List RunningCall) (c c' : RunningCall) (after : List RunningCall)
    → ((m : ℕ) → mutex_of c'.phase ≡ some m → lookup c'.path u ≡ some m)
    → Mapped u (before ++ c ∷ after)
    → Mapped u (before ++ c' ∷ after)
unfolding Mapped
Mapped-replaced u [] c c' after h (first, others) = (h, others)
Mapped-replaced u (b ∷ before) c c' after h (first, others) =
    (first, Mapped-replaced u before c c' after h others)

pub Mapped-at :
    (u : Dict ℕ) (before : List RunningCall) (c : RunningCall) (after : List RunningCall)
    → Mapped u (before ++ c ∷ after)
    → (m : ℕ) → mutex_of c.phase ≡ some m
    → lookup c.path u ≡ some m
unfolding Mapped
Mapped-at u [] c after (first, others) = first
Mapped-at u (b ∷ before) c after (first, others) = Mapped-at u before c after others

pub holders-replaced :
    (m : ℕ) (before : List RunningCall) (c c' : RunningCall) (after : List RunningCall)
    → holders m (before ++ c' ∷ after) + (if is_mutex m (holding c.phase) then 1 else 0)
      ≡ holders m (before ++ c ∷ after) + (if is_mutex m (holding c'.phase) then 1 else 0)
unfolding holders
holders-replaced m [] c c' after = omega arith
holders-replaced m (b ∷ before) c c' after = omega (arith, holders-replaced m before c c' after)

pub holders-unlocked : (m : ℕ) (cs : List RunningCall) → is_locked m cs ≡ false → holders m cs ≡ 0
unfolding holders is_locked
holders-unlocked m [] h = refl
holders-unlocked m (c ∷ rest) h = ground (arith, h, holders-unlocked m rest)

pub mutex_of-holding : (phase : Phase) (m : ℕ) → holding phase ≡ some m → mutex_of phase ≡ some m
unfolding holding mutex_of
mutex_of-holding idle m h = absurd (ground (arith, h))
mutex_of-holding returned m h = absurd (ground (arith, h))
mutex_of-holding (unknown gl) m h = absurd (ground (arith, h))
mutex_of-holding (waiting gl mutex) m h = absurd (ground (arith, h))
mutex_of-holding (checking gl held) m h = h
mutex_of-holding (in_flight gl held) m h = h

-- A call that discovers a path has locked the mutex of the path.
discovers-locked :
    (path : String) (u : Dict ℕ) (c : RunningCall) (m : ℕ)
    → ((k : ℕ) → mutex_of c.phase ≡ some k → lookup c.path u ≡ some k)
    → (str_eq c.path path && is_held (holding c.phase)) ≡ true
    → (lookup path u ≡ none → ⊥) × (lookup path u ≡ some m → is_mutex m (holding c.phase) ≡ true)
unfolding is_mutex
discovers-locked path u c m mapped h = elim (Option-cases (holding c.phase)) [
  | inl free ↦ absurd (ground (arith, free, h))
  | inr (k, held) ↦
      let same : c.path ≡ path = ground (arith, h, eq_iff c.path path) in
      let known : lookup path u ≡ some k =
        ap (λ x. lookup x u) (sym same) ∙ mapped k (mutex_of-holding c.phase k held) in
      (
        (λ missing. ground (arith, known, missing)),
        (λ found. rw (held, is_mutex) (ground (arith, known, found))),
      )
]

-- So the calls that discover a path have all locked the same mutex.
pub discovering-holders :
    (path : String) (u : Dict ℕ) (cs : List RunningCall) (m : ℕ)
    → lookup path u ≡ some m
    → Mapped u cs
    → discovering path cs ≤ holders m cs
unfolding Mapped holders
discovering-holders path u [] m found h = omega arith
discovering-holders path u (c ∷ rest) m found (first, others) =
    let later = discovering-holders path u rest m found others in
    elim (Bool-cases (str_eq c.path path && is_held (holding c.phase))) [
      | inr other ↦ ground (arith, other, later)
      | inl discovers ↦
          ground (arith, discovers, later, (discovers-locked path u c m first discovers).1 found)
    ]

pub discovering-unmapped :
    (path : String) (u : Dict ℕ) (cs : List RunningCall)
    → lookup path u ≡ none
    → Mapped u cs
    → discovering path cs ≡ 0
unfolding Mapped
discovering-unmapped path u [] missing h = refl
discovering-unmapped path u (c ∷ rest) missing (first, others) =
    elim (Bool-cases (str_eq c.path path && is_held (holding c.phase))) [
      | inr other ↦ ground (arith, other, discovering-unmapped path u rest missing others)
      | inl discovers ↦ absurd ((discovers-locked path u c 0 first discovers).0 missing)
    ]
