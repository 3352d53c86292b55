-- ===== src/Esi/Threads/Exclusion.antt =====
-- At most one call at a time discovers a path (internal/core/esi/rate_limited_client.go).
use eve_industry_planner_sta.Prelude.{
  ℕ, ◌≤◌, ◌≡◌, ◌≢◌, refl, ap, sym, ◌∙◌, arith, String, Bool, true, false, List, [], ◌∷◌, ◌++◌,
  Option, none, some, eq_iff, Bool-cases, Option-cases, inl, inr, ◌⊎◌,
}
use mathlib.Core.Path.{subst}
use eve_industry_planner_sta.Prelude.Int.{pos}
use eve_industry_planner_sta.Prelude.Dict.{Dict, lookup, lookup-insert, lookup-insert_self}
use eve_industry_planner_sta.Esi.Client.{
  EsiClient, map_path, register_limiter, get_or_create_group_limiter, limiter_at, write_limiter,
  get_limiter_for_path, get_mutex_for_unknown_path,
}
use eve_industry_planner_sta.Esi.Bucket.{RateLimitError, can_make_request}
use eve_industry_planner_sta.Esi.Feedback.{
  FeedbackClock, Response, resolve_limiter, update_from_headers,
}
use eve_industry_planner_sta.Esi.Request.{
  Events, Finish, Reply, failed, responded, test_error, send, receive,
}
use eve_industry_planner_sta.Esi.Threads.{
  Phase, idle, returned, unknown, waiting, checking, in_flight, RunningCall, Callers, holding,
  is_mutex, looked_up, check, at, Turn, look_up, get_mutex, lock, check_call, reply, Reach, here,
  later,
}
use eve_industry_planner_sta.Esi.Threads.Mutexes.{
  mutex_of, holders, discovering, Mapped, Grows, Mapped-Grows, Mapped-replaced, Mapped-at,
  holders-replaced, holders-unlocked, mutex_of-holding, discovering-holders, discovering-unmapped,
}

-- Neither the token check nor the exchange touches the mutexes.
unknown_groups-resolve_limiter :
    (k : FeedbackClock) (gl : ℕ) (resp : Response) (path : String) (c : EsiClient)
    → (resolve_limiter k gl resp path c).1.unknown_groups ≡ c.unknown_groups
unfolding resolve_limiter get_or_create_group_limiter map_path register_limiter write_limiter
unknown_groups-resolve_limiter k gl resp path c = ground arith

unknown_groups-send :
    {A : Type 0} (finish : Finish A) (ev : Events) (gl : ℕ) (path : String)
    (wait_error build_error : Option String) (result : Reply) (c : EsiClient)
    → (send finish ev gl path wait_error build_error result c).client.unknown_groups
      ≡ c.unknown_groups
unfolding send receive update_from_headers write_limiter
unknown_groups-send finish ev gl path (some text) build_error result c = refl
unknown_groups-send finish ev gl path none (some text) result c = refl
unknown_groups-send finish ev gl path none none (failed text) c = refl
unknown_groups-send finish ev gl path none none (responded resp) c =
    unknown_groups-resolve_limiter ev.feedback gl resp path c

unknown_groups-check :
    (ev : Events) (gl : ℕ) (held : Option ℕ) (error : Option RateLimitError) (c : EsiClient)
    → (check ev gl held error c).0.unknown_groups ≡ c.unknown_groups
unfolding check write_limiter
unknown_groups-check ev gl held none c = refl
unknown_groups-check ev gl held (some e) c = refl

-- What a call has locked after the token check is what it had, or nothing.
held-check :
    (ev : Events) (gl : ℕ) (held : Option ℕ) (error : Option RateLimitError) (c : EsiClient)
    → ((check ev gl held error c).1 ≡ returned) ⊎ ((check ev gl held error c).1 ≡ in_flight gl held)
unfolding check
held-check ev gl held (some e) c = inl refl
held-check ev gl held none c =
    elim (Option-cases (can_make_request ev.check (limiter_at c gl) (pos 2)).1) [
      | inl admitted ↦ inr (rw (admitted, check) refl)
      | inr (e, refused) ↦ inl (rw (refused, check) refl)
    ]

get_mutex-Grows :
    (path : String) (c : EsiClient)
    → Grows c.unknown_groups (get_mutex_for_unknown_path path c).1.unknown_groups
unfolding get_mutex_for_unknown_path
get_mutex-Grows path c q m found = elim (Option-cases (lookup path c.unknown_groups)) [
  | inr (k, there) ↦ rw (there, get_mutex_for_unknown_path) found
  | inl missing ↦
      rw (missing, get_mutex_for_unknown_path)
        (ground
          (arith, lookup-insert c.unknown_groups q path c.mutexes, eq_iff q path, found, missing))
]

get_mutex-found :
    (path : String) (c : EsiClient)
    → lookup path (get_mutex_for_unknown_path path c).1.unknown_groups
      ≡ some (get_mutex_for_unknown_path path c).0
unfolding get_mutex_for_unknown_path
get_mutex-found path c = elim (Option-cases (lookup path c.unknown_groups)) [
  | inr (k, there) ↦ rw (there, get_mutex_for_unknown_path) there
  | inl missing ↦
      rw (missing, get_mutex_for_unknown_path) (lookup-insert_self path c.mutexes c.unknown_groups)
]

record Exclusive (w : Callers) : Type 0 where
  mapped : Mapped w.client.unknown_groups w.calls
  single : (m : ℕ) → holders m w.calls ≤ 1

-- A call is replaced by one that locks no mutex that the other has not, and keeps to its path's.
replaced-Exclusive :
    (before : List RunningCall) (c c' : RunningCall) (after : List RunningCall) (client : EsiClient)
    (w : Callers)
    → w.calls ≡ before ++ c ∷ after
    → Grows w.client.unknown_groups client.unknown_groups
    → ((m : ℕ) → mutex_of c'.phase ≡ some m → lookup c'.path client.unknown_groups ≡ some m)
    → ((m : ℕ)
        → is_mutex m (holding c'.phase) ≡ true
        → (is_mutex m (holding c.phase) ≡ true) ⊎ (holders m w.calls ≡ 0))
    → Exclusive w
    → Exclusive (record { client = client; calls = before ++ c' ∷ after })
replaced-Exclusive before c c' after client w e grows own free x = record {
  mapped = Mapped-replaced client.unknown_groups before c c' after own (
      Mapped-Grows w.client.unknown_groups client.unknown_groups (before ++ c ∷ after) grows
        (subst (λ cs. Mapped w.client.unknown_groups cs) e x.mapped));
  single = λ m.
      let same = ap (holders m) e in
      let count = holders-replaced m before c c' after in
      elim (Bool-cases (is_mutex m (holding c'.phase))) [
        | inr not_locked ↦ ground (arith, not_locked, same, count, x.single m)
        | inl locked ↦ elim (free m locked) [
          | inl had ↦ ground (arith, locked, had, same, count, x.single m)
          | inr nobody ↦ ground (arith, locked, nobody, same, count)
        ]
      ];
}

-- Nothing is locked or waited for.
no_mutex : (phase : Phase) (m : ℕ) → mutex_of phase ≡ none → mutex_of phase ≢ some m
no_mutex phase m h e = ground (arith, h, e)

not_holding : (phase : Phase) (m : ℕ) → mutex_of phase ≡ none → is_mutex m (holding phase) ≡ false
unfolding is_mutex
not_holding phase m h = elim (Option-cases (holding phase)) [
  | inl free ↦ rw (free) refl
  | inr (k, held) ↦ absurd (no_mutex phase k h (mutex_of-holding phase k held))
]

-- A call that lets go of its mutex, or that has none yet.
released-Exclusive :
    (before : List RunningCall) (c c' : RunningCall) (after : List RunningCall) (client : EsiClient)
    (w : Callers)
    → w.calls ≡ before ++ c ∷ after
    → Grows w.client.unknown_groups client.unknown_groups
    → mutex_of c'.phase ≡ none
    → Exclusive w
    → Exclusive (record { client = client; calls = before ++ c' ∷ after })
released-Exclusive before c c' after client w e grows free x =
    replaced-Exclusive before c c' after client w e grows
      (λ m h. absurd (no_mutex c'.phase m free h))
      (λ m h. ground (arith, h, not_holding c'.phase m free)) x

same-Grows :
    (c c' : EsiClient)
    → c'.unknown_groups ≡ c.unknown_groups
    → Grows c.unknown_groups c'.unknown_groups
same-Grows c c' e path m found = ap (λ u. lookup path u) e ∙ found

mutex_of-looked_up : (x : ℕ × Bool) → mutex_of (looked_up x) ≡ none
unfolding mutex_of looked_up
mutex_of-looked_up (gl, true) = refl
mutex_of-looked_up (gl, false) = refl

Turn-Exclusive : {w w' : Callers} → Turn w w' → Exclusive w → Exclusive w'
unfolding mutex_of holding is_mutex
Turn-Exclusive {w} (look_up before path after e) x =
    released-Exclusive before (at path idle) _ after w.client w e
      (same-Grows w.client w.client refl) (mutex_of-looked_up (get_limiter_for_path path w.client))
      x
Turn-Exclusive {w} (get_mutex before path gl after e) x =
    replaced-Exclusive before (at path (unknown gl)) _ after _ w e (get_mutex-Grows path w.client)
      (λ m h. get_mutex-found path w.client ∙ h) (λ m h. absurd (ground (arith, h))) x
Turn-Exclusive {w} (lock before path gl mutex after e open_still) x =
    replaced-Exclusive before (at path (waiting gl mutex)) _ after w.client w e
      (same-Grows w.client w.client refl)
      (λ m h.
        Mapped-at w.client.unknown_groups before (at path (waiting gl mutex)) after
          (subst (λ cs. Mapped w.client.unknown_groups cs) e x.mapped) m h)
      (λ m h. inr (ground (arith, h, holders-unlocked mutex w.calls open_still))) x
Turn-Exclusive {w} (check_call before path gl held after ev e) x =
    let error = test_error ev gl path w.client in
    let grows : Grows w.client.unknown_groups (check ev gl held error w.client).0.unknown_groups =
      same-Grows w.client (check ev gl held error w.client).0
        (unknown_groups-check ev gl held error w.client) in
    elim (held-check ev gl held error w.client) [
      | inl refused ↦
          released-Exclusive before (at path (checking gl held)) _ after _ w e grows
            (ap mutex_of refused) x
      | inr admitted ↦
          replaced-Exclusive before (at path (checking gl held)) _ after _ w e grows
            (λ m h. grows path m (
              Mapped-at w.client.unknown_groups before (at path (checking gl held)) after
                (subst (λ cs. Mapped w.client.unknown_groups cs) e x.mapped) m
                (sym (ap mutex_of admitted) ∙ h)))
            (λ m h. inl (sym (ap (λ phase. is_mutex m (holding phase)) admitted) ∙ h)) x
    ]
Turn-Exclusive {w} (reply finish before path gl held after ev e) x =
    released-Exclusive before (at path (in_flight gl held)) _ after _ w e
      (same-Grows w.client
        (send finish ev gl path ev.wait_error ev.build_error ev.reply w.client).client
        (unknown_groups-send finish ev gl path ev.wait_error ev.build_error ev.reply w.client))
      refl x

-- Calls that have not begun.
abbrev pub starting : List String → List RunningCall
starting [] = []
starting (path ∷ rest) = at path idle ∷ starting rest

starting-Mapped : (u : Dict ℕ) (paths : List String) → Mapped u (starting paths)
unfolding Mapped mutex_of
starting-Mapped u [] = tt
starting-Mapped u (path ∷ rest) = ((λ m h. absurd (ground (arith, h))), starting-Mapped u rest)

holders-starting : (m : ℕ) (paths : List String) → holders m (starting paths) ≡ 0
unfolding holders holding is_mutex
holders-starting m [] = refl
holders-starting m (path ∷ rest) = ground (arith, holders-starting m rest)

Reach-Exclusive :
    (c : EsiClient) (paths : List String) {w : Callers}
    → Reach (record { client = c; calls = starting paths }) w
    → Exclusive w
Reach-Exclusive c paths here = record {
  mapped = starting-Mapped c.unknown_groups paths;
  single = λ m. ground (arith, holders-starting m paths);
}
Reach-Exclusive c paths (later before turn) = Turn-Exclusive turn (Reach-Exclusive c paths before)

-- However the calls of a client take turns, whatever their paths: of the calls for one path whose limiter
-- was unknown when they looked it up, at most one at a time is past the wait for the mutex and has not
-- returned, so no two of them have a request in flight at the same time.
pub discovering-once :
    (c : EsiClient) (paths : List String) (path : String) {w : Callers}
    → Reach (record { client = c; calls = starting paths }) w
    → discovering path w.calls ≤ 1
discovering-once c paths path {w} reached =
    let x = Reach-Exclusive c paths reached in
    elim (Option-cases (lookup path w.client.unknown_groups)) [
      | inl missing ↦
          ground (arith, discovering-unmapped path w.client.unknown_groups w.calls missing x.mapped)
      | inr (m, found) ↦ ground (
        arith,
        discovering-holders path w.client.unknown_groups w.calls m found x.mapped,
        x.single m,
      )
    ]
