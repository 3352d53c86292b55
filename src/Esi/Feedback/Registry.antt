-- ===== src/Esi/Feedback/Registry.antt =====
-- What `updateFromHeaders` does to the registry of limiters
-- (internal/core/esi/rate_limited_client.go).
use eve_industry_planner_sta.Prelude.{
  ℕ, ◌<◌, ◌≡◌, refl, ◌≢◌, ◌∙◌, ◌⊎◌, sym, ap, inl, inr, String, Bool, true, Option, none, some,
  arith, length, length-set, Option-cases, Bool-cases, str_eq, eq_iff,
}
use eve_industry_planner_sta.Prelude.Int.{ℤ}
use eve_industry_planner_sta.Prelude.Dict.{lookup}
use eve_industry_planner_sta.Esi.Bucket.{GroupLimiter, cleanup_old_consumptions}
use eve_industry_planner_sta.Esi.Client.{
  EsiClient, limiter_at, write_limiter, get_or_create_group_limiter, get_limiter_for_path,
}
use eve_industry_planner_sta.Esi.Client.WellFormed.{
  IsWellFormed, name-update_token_limit, write_limiter-IsWellFormed, get_or_create-IsWellFormed,
  get_or_create_maps, get_or_create-stored, limiter_at-map, limiter_at-register,
  limiter_at-write_ne,
}
use eve_industry_planner_sta.Esi.Feedback.{
  Response, FeedbackClock, header_limit, path_in_group, resolve_limiter, update_usage,
  update_retry_after, apply_feedback, update_from_headers,
}

module _ (k : FeedbackClock) (gl : ℕ) (resp : Response) (path : String) (c : EsiClient) where
  abbrev header_group : String
  header_group = resp.header "X-Ratelimit-Group"

  -- The three ways in which a response finds its limiter.
  data Resolved : Type 0 where
    keeps :
        (header_group ≡ "") ⊎ (header_group ≡ (limiter_at c gl).name)
        → resolve_limiter k gl resp path c ≡ (gl, c)
        → Resolved
    knows :
        (p : ℕ)
        → lookup header_group c.limiters ≡ some p
        → lookup path c.path_to_group ≡ some header_group
        → resolve_limiter k gl resp path c ≡ (p, c)
        → Resolved
    creates :
        resolve_limiter k gl resp path c
          ≡ get_or_create_group_limiter header_group path (header_limit resp) k.create_at c
        → Resolved

  in_group : (o : Option String) → path_in_group header_group o ≡ true → o ≡ some header_group
  unfolding path_in_group
  in_group none h = cc
  in_group (some g) h = ap some ((eq_iff g header_group).0 h)

  resolve_cases : Resolved
  unfolding resolve_limiter
  resolve_cases = elim (Bool-cases (str_eq header_group "")) [
    | inl e ↦ keeps (inl ((eq_iff _ _).0 e)) (rw (e, resolve_limiter))
    | inr some_group ↦ elim (Option-cases (lookup header_group c.limiters)) [
      | inl u ↦ creates (rw (some_group, u, resolve_limiter))
      | inr (p, u) ↦ elim (Bool-cases (path_in_group header_group (lookup path c.path_to_group))) [
        | inl w ↦ knows p u (in_group _ w) (rw (some_group, u, w, resolve_limiter))
        | inr w ↦ elim (Bool-cases (str_eq header_group (limiter_at c gl).name)) [
          | inl n ↦ keeps (inr ((eq_iff _ _).0 n)) (rw (some_group, u, w, n, resolve_limiter))
          | inr n ↦ creates (rw (some_group, u, w, n, resolve_limiter))
        ]
      ]
    ]
  ]

name-update_retry_after :
    (resp : Response) (now : ℤ) (gl : GroupLimiter)
    → (update_retry_after resp now gl).name ≡ gl.name
unfolding update_retry_after
name-update_retry_after resp now gl = ground arith

name-update_usage :
    (resp : Response) (tokens now : ℤ) (gl : GroupLimiter)
    → (update_usage resp tokens now gl).name ≡ gl.name
unfolding update_usage
name-update_usage resp tokens now gl = ground arith

name-cleanup : (now : ℤ) (gl : GroupLimiter) → (cleanup_old_consumptions now gl).name ≡ gl.name
unfolding cleanup_old_consumptions
name-cleanup now gl = refl

pub name-apply_feedback :
    (k : FeedbackClock) (resp : Response) (tokens : ℤ) (gl : GroupLimiter)
    → (apply_feedback k resp tokens gl).name ≡ gl.name
unfolding apply_feedback
name-apply_feedback k resp tokens gl =
    name-update_retry_after resp k.now _
    ∙ name-update_usage resp tokens k.now _
    ∙ name-update_token_limit (header_limit resp) _
    ∙ name-cleanup k.cleanup_at gl

pub resolve_limiter-IsWellFormed :
    (k : FeedbackClock) (gl : ℕ) (resp : Response) (path : String) (c : EsiClient)
    → gl < length c.store
    → IsWellFormed c
    → IsWellFormed (resolve_limiter k gl resp path c).1
      × ((resolve_limiter k gl resp path c).0 < length (resolve_limiter k gl resp path c).1.store)
resolve_limiter-IsWellFormed k gl resp path c h v = elim (resolve_cases k gl resp path c) [
  | keeps _ e ↦ rw e (v, h)
  | knows p l _ e ↦ rw e (v, v.stored _ p l)
  | creates e ↦
      rw e (get_or_create-IsWellFormed _ path _ _ c v, get_or_create-stored _ path _ _ c v)
]

-- A response keeps the registry well formed, and its limiter is one of the store.
pub update_from_headers-IsWellFormed :
    (k : FeedbackClock) (gl : ℕ) (resp : Response) (tokens : ℤ) (path : String) (c : EsiClient)
    → gl < length c.store
    → IsWellFormed c
    → IsWellFormed (update_from_headers k gl resp tokens path c).1
      × ((update_from_headers k gl resp tokens path c).0
          < length (update_from_headers k gl resp tokens path c).1.store)
unfolding update_from_headers write_limiter
update_from_headers-IsWellFormed k gl resp tokens path c h v =
    let (w, b) = resolve_limiter-IsWellFormed k gl resp path c h v in
    (write_limiter-IsWellFormed _ _ _ b (name-apply_feedback k resp tokens _) w, rw length-set b)

pub get_limiter-write :
    (path : String) (p : ℕ) (gl : GroupLimiter) (c : EsiClient)
    → get_limiter_for_path path (write_limiter p gl c) ≡ get_limiter_for_path path c
unfolding get_limiter_for_path write_limiter
get_limiter-write path p gl c = refl

known_path :
    (path : String) (c : EsiClient) {group : String} {p : ℕ}
    → lookup path c.path_to_group ≡ some group
    → lookup group c.limiters ≡ some p
    → get_limiter_for_path path c ≡ (p, true)
unfolding get_limiter_for_path
known_path path c m l = rw (m, l, get_limiter_for_path)

-- The limiter that the code picked for a path bears the header's group only if the path is mapped to
-- that group, unless the group is called "default".
picked_name :
    (path group : String) (c : EsiClient)
    → IsWellFormed c
    → group ≢ "default"
    → group ≡ (limiter_at c (get_limiter_for_path path c).0).name
    → get_limiter_for_path path c ≡ ((get_limiter_for_path path c).0, true)
unfolding get_limiter_for_path
picked_name path group c v d n = elim (Option-cases (lookup path c.path_to_group)) [
  | inl e ↦ absurd (d (n ∙ rw (e, get_limiter_for_path) v.def_named))
  | inr (g, e) ↦ let (p, l) = v.mapped path g e in rw (e, l, get_limiter_for_path)
]

-- Once a response has named a group, other than "default", the path of the request is known: the
-- next request for it uses the limiter that the response was counted on.
pub update_from_headers-discovers :
    (k : FeedbackClock) (resp : Response) (tokens : ℤ) (path : String) (c : EsiClient)
    → IsWellFormed c
    → resp.header "X-Ratelimit-Group" ≢ ""
    → resp.header "X-Ratelimit-Group" ≢ "default"
    → get_limiter_for_path path
        (update_from_headers k (get_limiter_for_path path c).0 resp tokens path c).1
      ≡ ((update_from_headers k (get_limiter_for_path path c).0 resp tokens path c).0, true)
unfolding update_from_headers
update_from_headers-discovers k resp tokens path c v g d =
    get_limiter-write path _ _ _
    ∙ elim (resolve_cases k (get_limiter_for_path path c).0 resp path c) [
      | keeps (inl e) _ ↦ absurd (g e)
      | keeps (inr n) e ↦ rw e (picked_name path _ c v d n)
      | knows p l m e ↦ rw e (known_path path c m l)
      | creates e ↦ rw e (get_or_create_maps _ path _ _ c)
    ]

-- A response that names no group leaves the path where it was.
pub update_from_headers_unnamed :
    (k : FeedbackClock) (resp : Response) (tokens : ℤ) (path : String) (c : EsiClient)
    → resp.header "X-Ratelimit-Group" ≡ ""
    → (get_limiter_for_path path
        (update_from_headers k (get_limiter_for_path path c).0 resp tokens path c).1).0
      ≡ (update_from_headers k (get_limiter_for_path path c).0 resp tokens path c).0
unfolding update_from_headers
update_from_headers_unnamed k resp tokens path c e =
    let same : resolve_limiter k (get_limiter_for_path path c).0 resp path c
        ≡ ((get_limiter_for_path path c).0, c) =
      unfold resolve_limiter in rw e in
    ap (λ (r : ℕ × Bool). r.0) (get_limiter-write path _ _ _) ∙ rw same

get_or_create_frame :
    (group path : String) (limit now : ℤ) (c : EsiClient) (q : ℕ)
    → q < length c.store
    → q ≢ (get_or_create_group_limiter group path limit now c).0
    → limiter_at (get_or_create_group_limiter group path limit now c).1 q ≡ limiter_at c q
unfolding get_or_create_group_limiter
get_or_create_frame group path limit now c q h ne = elim (Option-cases (lookup group c.limiters)) [
  | inl e ↦
      rw (e, get_or_create_group_limiter)
        (limiter_at-map _ path group q ∙ limiter_at-register c group _ q h)
  | inr (p, e) ↦
      let ne' = rw (e, get_or_create_group_limiter) at ne in
      rw (e, get_or_create_group_limiter)
        (limiter_at-map _ path group q ∙ limiter_at-write_ne c p q _ (λ s. ne' (sym s)))
]

-- A response changes no limiter but its own.
pub update_from_headers_frame :
    (k : FeedbackClock) (gl : ℕ) (resp : Response) (tokens : ℤ) (path : String) (c : EsiClient)
    (q : ℕ)
    → q < length c.store
    → q ≢ (update_from_headers k gl resp tokens path c).0
    → limiter_at (update_from_headers k gl resp tokens path c).1 q ≡ limiter_at c q
unfolding update_from_headers
update_from_headers_frame k gl resp tokens path c q h ne =
    limiter_at-write_ne _ _ q _ (λ s. ne (sym s)) ∙ elim (resolve_cases k gl resp path c) [
      | keeps _ e ↦ rw e refl
      | knows p _ _ e ↦ rw e refl
      | creates e ↦ rw e (get_or_create_frame _ path _ _ c q h (rw e at ne))
    ]
