-- ===== src/Esi/Client/WellFormed.antt =====
-- The registry invariant of `ESIClient`: pointers stand in the store, a limiter is registered under
-- its own name, and a mapped path has a limiter (internal/core/esi/rate_limited_client.go).
use eve_industry_planner_sta.Prelude.{
  ℕ, ◌<◌, ◌≡◌, refl, ◌≢◌, ◌⊎◌, inl, inr, String, true, [], ◌∷◌, some, arith, length, length-append,
  length-set, get_elem?-set_self, get_elem?-set_ne, get_elem?-append_last, get_elem?-append_left,
  Option-cases, Bool-cases, ◌==◌, ==_iff, ◌∙◌,
}
use eve_industry_planner_sta.Prelude.Int.{ℤ}
use eve_industry_planner_sta.Prelude.Dict.{lookup, lookup-insert_self, insert_cases, insert-some}
use eve_industry_planner_sta.Esi.Bucket.{GroupLimiter}
use eve_industry_planner_sta.Esi.Client.{
  EsiClient, TestEnv, new_limiter, new_esi_client, limiter_at, write_limiter, register_limiter,
  map_path, add_group_limiter, get_limiter_for_path, update_token_limit,
  get_or_create_group_limiter,
}

pub record IsWellFormed (c : EsiClient) : Type 0 where
  pub def_stored : c.def_lim < length c.store
  pub def_named : (limiter_at c c.def_lim).name ≡ "default"
  pub stored : (g : String) (p : ℕ) → lookup g c.limiters ≡ some p → p < length c.store
  pub named : (g : String) (p : ℕ) → lookup g c.limiters ≡ some p → (limiter_at c p).name ≡ g
  pub apart : (g : String) (p : ℕ) → lookup g c.limiters ≡ some p → p ≢ c.def_lim
  pub mapped :
      (path g : String)
      → lookup path c.path_to_group ≡ some g
      → (p : ℕ) × (lookup g c.limiters ≡ some p)

-- A read after a write through the same pointer, or through another.
pub limiter_at-write_self :
    (c : EsiClient) (p : ℕ) (gl : GroupLimiter)
    → p < length c.store
    → limiter_at (write_limiter p gl c) p ≡ gl
unfolding limiter_at write_limiter
limiter_at-write_self c p gl h = rw (get_elem?-set_self c.store p gl h, limiter_at)

pub limiter_at-write_ne :
    (c : EsiClient) (p q : ℕ) (gl : GroupLimiter)
    → p ≢ q
    → limiter_at (write_limiter p gl c) q ≡ limiter_at c q
unfolding limiter_at write_limiter
limiter_at-write_ne c p q gl h = rw (get_elem?-set_ne c.store gl h, limiter_at)

pub limiter_at-register :
    (c : EsiClient) (g : String) (gl : GroupLimiter) (q : ℕ)
    → q < length c.store
    → limiter_at (register_limiter g gl c) q ≡ limiter_at c q
unfolding limiter_at register_limiter
limiter_at-register c g gl q h = rw (get_elem?-append_left c.store (gl ∷ []) q h, limiter_at)

pub limiter_at-register_new :
    (c : EsiClient) (g : String) (gl : GroupLimiter)
    → limiter_at (register_limiter g gl c) (length c.store) ≡ gl
unfolding limiter_at register_limiter
limiter_at-register_new c g gl = rw (get_elem?-append_last c.store gl, limiter_at)

pub limiter_at-map :
    (c : EsiClient) (path g : String) (q : ℕ) → limiter_at (map_path path g c) q ≡ limiter_at c q
unfolding limiter_at map_path
limiter_at-map c path g q = refl

-- A write that keeps the name changes no name.
name-write :
    (c : EsiClient) (p q : ℕ) (gl : GroupLimiter)
    → p < length c.store
    → gl.name ≡ (limiter_at c p).name
    → (limiter_at (write_limiter p gl c) q).name ≡ (limiter_at c q).name
name-write c p q gl h e = elim (Bool-cases (p == q)) [
  | inl same ↦
      let s : p ≡ q = (==_iff p q).0 same in rw (← s) (rw (limiter_at-write_self c p gl h) e)
  | inr other ↦ rw (limiter_at-write_ne c p q gl (ground arith))
]

pub write_limiter-IsWellFormed :
    (c : EsiClient) (p : ℕ) (gl : GroupLimiter)
    → p < length c.store
    → gl.name ≡ (limiter_at c p).name
    → IsWellFormed c
    → IsWellFormed (write_limiter p gl c)
unfolding write_limiter
write_limiter-IsWellFormed c p gl h e v = record {
  def_stored = rw length-set v.def_stored;
  def_named = name-write c p c.def_lim gl h e ∙ v.def_named;
  stored = λ g q l. rw length-set (v.stored g q l);
  named = λ g q l. name-write c p q gl h e ∙ v.named g q l;
  apart = v.apart;
  mapped = v.mapped;
}

pub map_path-IsWellFormed :
    (c : EsiClient) (path g : String) (p : ℕ)
    → lookup g c.limiters ≡ some p
    → IsWellFormed c
    → IsWellFormed (map_path path g c)
unfolding map_path limiter_at
map_path-IsWellFormed c path g p l v = record {
  def_stored = v.def_stored;
  def_named = v.def_named;
  stored = v.stored;
  named = v.named;
  apart = v.apart;
  mapped = λ path' g' e. elim (insert_cases path path' g g' c.path_to_group e) [
    | inl (_, same) ↦ (p, rw (← same) l)
    | inr old ↦ v.mapped path' g' old
  ];
}

-- A limiter that registers under a group is found under it; other groups keep theirs.
register_cases :
    (c : EsiClient) (g g' : String) (gl : GroupLimiter) (p : ℕ)
    → lookup g' (register_limiter g gl c).limiters ≡ some p
    → (p ≡ length c.store) × (g ≡ g') ⊎ (lookup g' c.limiters ≡ some p)
unfolding register_limiter
register_cases c g g' gl p e = ground (arith, insert_cases g g' (length c.store) p c.limiters)

pub register_limiter-IsWellFormed :
    (c : EsiClient) (g : String) (gl : GroupLimiter)
    → gl.name ≡ g
    → IsWellFormed c
    → IsWellFormed (register_limiter g gl c)
unfolding register_limiter
register_limiter-IsWellFormed c g gl n v = record {
  def_stored = omega (arith, length-append c.store (gl ∷ []), v.def_stored);
  def_named = rw (limiter_at-register c g gl c.def_lim v.def_stored) v.def_named;
  stored = λ g' p e. elim (register_cases c g g' gl p e) [
    | inl (at, _) ↦ omega (arith, length-append c.store (gl ∷ []))
    | inr old ↦ omega (arith, length-append c.store (gl ∷ []), v.stored g' p old)
  ];
  named = λ g' p e. elim (register_cases c g g' gl p e) [
    | inl (at, same) ↦ rw at (rw (limiter_at-register_new c g gl) (n ∙ same))
    | inr old ↦ rw (limiter_at-register c g gl p (v.stored g' p old)) (v.named g' p old)
  ];
  apart = λ g' p e. elim (register_cases c g g' gl p e) [
    | inl (at, _) ↦ omega (arith, v.def_stored)
    | inr old ↦ v.apart g' p old
  ];
  mapped = λ path g' e. let (p, l) = v.mapped path g' e in insert-some g g' _ p c.limiters l;
}

pub name-update_token_limit :
    (limit : ℤ) (gl : GroupLimiter) → (update_token_limit limit gl).name ≡ gl.name
unfolding update_token_limit
name-update_token_limit limit gl = ground arith

pub get_or_create-IsWellFormed :
    (group path : String) (limit now : ℤ) (c : EsiClient)
    → IsWellFormed c
    → IsWellFormed (get_or_create_group_limiter group path limit now c).1
unfolding get_or_create_group_limiter
get_or_create-IsWellFormed group path limit now c v =
    elim (Option-cases (lookup group c.limiters)) [
      | inl e ↦
          rw (e, get_or_create_group_limiter)
            (map_path-IsWellFormed _ path group (length c.store)
              (unfold register_limiter in lookup-insert_self group _ _)
              (register_limiter-IsWellFormed c group _ refl v))
      | inr (p, e) ↦
          rw (e, get_or_create_group_limiter)
            (map_path-IsWellFormed _ path group p (unfold write_limiter in e) (
              write_limiter-IsWellFormed c p _ (v.stored group p e)
                (name-update_token_limit limit _) v))
    ]

-- The limiter that comes back is the one that the path finds from then on.
pub get_or_create_maps :
    (group path : String) (limit now : ℤ) (c : EsiClient)
    → get_limiter_for_path path (get_or_create_group_limiter group path limit now c).1
      ≡ ((get_or_create_group_limiter group path limit now c).0, true)
unfolding get_or_create_group_limiter get_limiter_for_path map_path write_limiter register_limiter
get_or_create_maps group path limit now c = ground (
  arith,
  lookup-insert_self path group c.path_to_group,
  lookup-insert_self group (length c.store) c.limiters,
)

pub new_esi_client-IsWellFormed :
    (base_url : String) (env : TestEnv) (now : ℤ) → IsWellFormed (new_esi_client base_url env now)
unfolding new_esi_client limiter_at lookup
new_esi_client-IsWellFormed base_url env now = record {
  def_stored = omega arith;
  def_named = refl;
  stored = λ g p e. cc;
  named = λ g p e. cc;
  apart = λ g p e. cc;
  mapped = λ path g e. absurd (cc);
}

pub add_group_limiter-IsWellFormed :
    (group : String) (now : ℤ) (c : EsiClient)
    → IsWellFormed c
    → IsWellFormed (add_group_limiter group now c)
unfolding add_group_limiter
add_group_limiter-IsWellFormed group now c v = register_limiter-IsWellFormed c group _ refl v

-- The limiter of a path stands in the store, and bears the name of its group.
pub get_limiter_for_path-stored :
    (path : String) (c : EsiClient)
    → IsWellFormed c
    → (get_limiter_for_path path c).0 < length c.store
unfolding get_limiter_for_path
get_limiter_for_path-stored path c v = elim (Option-cases (lookup path c.path_to_group)) [
  | inl e ↦ rw (e, get_limiter_for_path) v.def_stored
  | inr (g, e) ↦ let (p, l) = v.mapped path g e in rw (e, l, get_limiter_for_path) (v.stored g p l)
]

pub get_or_create-stored :
    (group path : String) (limit now : ℤ) (c : EsiClient)
    → IsWellFormed c
    → (get_or_create_group_limiter group path limit now c).0
      < length (get_or_create_group_limiter group path limit now c).1.store
unfolding get_or_create_group_limiter map_path write_limiter register_limiter
get_or_create-stored group path limit now c v = elim (Option-cases (lookup group c.limiters)) [
  | inl e ↦
      rw (e, get_or_create_group_limiter)
        (omega (arith, length-append c.store (new_limiter group _ now ∷ [])))
  | inr (p, e) ↦ rw (e, get_or_create_group_limiter) (rw length-set (v.stored group p e))
]
