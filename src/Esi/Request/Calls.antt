-- ===== src/Esi/Request/Calls.antt =====
-- What one call of `Do` or `DoRequest` promises (internal/core/esi/rate_limited_client.go).
use eve_industry_planner_sta.Prelude.{
  ℕ, ◌+◌, ◌<◌, ◌≤◌, ◌≡◌, refl, inl, inr, ap, String, Bool, true, false, Option, none, some, arith,
  length, length-set, Option-cases,
}
use eve_industry_planner_sta.Prelude.Int.{pos}
use eve_industry_planner_sta.Prelude.Dict.{Dict, lookup, insert}
use eve_industry_planner_sta.Esi.Bucket.{
  GroupLimiter, RateLimitError, can_make_request, cleanup_old_consumptions,
}
use eve_industry_planner_sta.Esi.Client.{
  EsiClient, limiter_at, write_limiter, get_limiter_for_path, get_mutex_for_unknown_path,
}
use eve_industry_planner_sta.Esi.Client.WellFormed.{
  IsWellFormed, write_limiter-IsWellFormed, get_limiter_for_path-stored,
}
use eve_industry_planner_sta.Esi.Feedback.{Response}
use eve_industry_planner_sta.Esi.Feedback.Registry.{update_from_headers-IsWellFormed}
use eve_industry_planner_sta.Esi.Request.{
  Events, Reply, failed, responded, Finish, with_mutex, receive, send, admit, attempt, perform,
}

pub name-can_make_request :
    (ev : Events) (gl : GroupLimiter) → (can_make_request ev.check gl (pos 2)).0.name ≡ gl.name
unfolding can_make_request cleanup_old_consumptions
name-can_make_request ev gl = refl

module _ {A : Type 0} (finish : Finish A) (ev : Events) (gl : ℕ) (path : String) where
  receive-IsWellFormed :
      (resp : Response) (c : EsiClient)
      → gl < length c.store
      → IsWellFormed c
      → IsWellFormed (receive finish ev gl path resp c).client
  unfolding receive
  receive-IsWellFormed resp c h v =
      (update_from_headers-IsWellFormed ev.feedback gl resp _ path c h v).0

  send-IsWellFormed :
      (w b : Option String) (r : Reply) (c : EsiClient)
      → gl < length c.store
      → IsWellFormed c
      → IsWellFormed (send finish ev gl path w b r c).client
  unfolding send
  send-IsWellFormed (some text) b r c h v = v
  send-IsWellFormed none (some text) r c h v = v
  send-IsWellFormed none none (failed text) c h v = v
  send-IsWellFormed none none (responded resp) c h v = receive-IsWellFormed resp c h v

  admit-IsWellFormed :
      (refusal : Option RateLimitError) (c : EsiClient)
      → gl < length c.store
      → IsWellFormed c
      → IsWellFormed (admit finish ev gl path refusal c).client
  unfolding admit
  admit-IsWellFormed (some e) c h v = v
  admit-IsWellFormed none c h v = send-IsWellFormed ev.wait_error ev.build_error ev.reply c h v

  attempt-IsWellFormed :
      (t : Option RateLimitError) (c : EsiClient)
      → gl < length c.store
      → IsWellFormed c
      → IsWellFormed (attempt finish ev gl path t c).client
  unfolding attempt
  attempt-IsWellFormed (some e) c h v = v
  attempt-IsWellFormed none c h v =
      admit-IsWellFormed (can_make_request ev.check (limiter_at c gl) (pos 2)).1 _
        (unfold write_limiter in rw length-set h)
        (write_limiter-IsWellFormed c gl _ h (name-can_make_request ev (limiter_at c gl)) v)

  -- A request leaves only past the test mode, the token check and the general limiter.
  pub attempt_sent :
      (t : Option RateLimitError) (c : EsiClient)
      → (attempt finish ev gl path t c).sent ≡ 1
      → (t ≡ none)
        × ((can_make_request ev.check (limiter_at c gl) (pos 2)).1 ≡ none)
        × (ev.wait_error ≡ none)
        × (ev.build_error ≡ none)
  unfolding attempt admit send
  attempt_sent t c e = ground arith

-- The mutex of a path is no part of the registry.
get_mutex_only :
    (path : String) (c : EsiClient)
    → (u : Dict ℕ) × (m : ℕ) × ((get_mutex_for_unknown_path path c).1
        ≡ record c { unknown_groups = u; mutexes = m })
unfolding get_mutex_for_unknown_path
get_mutex_only path c = elim (Option-cases (lookup path c.unknown_groups)) [
  | inl e ↦
      (insert path c.mutexes c.unknown_groups, c.mutexes + 1, rw (e, get_mutex_for_unknown_path))
  | inr (m, e) ↦ (c.unknown_groups, c.mutexes, rw (e, get_mutex_for_unknown_path))
]

pub with_mutex_only :
    (known : Bool) (path : String) (c : EsiClient)
    → (u : Dict ℕ) × (m : ℕ) × (with_mutex known path c
        ≡ record c { unknown_groups = u; mutexes = m })
unfolding with_mutex
with_mutex_only true path c = (c.unknown_groups, c.mutexes, refl)
with_mutex_only false path c = get_mutex_only path c

pub with_mutex-IsWellFormed :
    (known : Bool) (path : String) (c : EsiClient)
    → IsWellFormed c
    → IsWellFormed (with_mutex known path c)
unfolding limiter_at
with_mutex-IsWellFormed known path c v =
    let (u, m, e) = with_mutex_only known path c in
    rw e (record {
      def_stored = v.def_stored;
      def_named = v.def_named;
      stored = v.stored;
      named = v.named;
      apart = v.apart;
      mapped = v.mapped;
    })

pub store-with_mutex :
    (known : Bool) (path : String) (c : EsiClient) → (with_mutex known path c).store ≡ c.store
store-with_mutex known path c =
    let (u, m, e) = with_mutex_only known path c in ap (λ (d : EsiClient). d.store) e

pub get_limiter-with_mutex :
    (known : Bool) (path : String) (c : EsiClient)
    → get_limiter_for_path path (with_mutex known path c) ≡ get_limiter_for_path path c
unfolding get_limiter_for_path
get_limiter-with_mutex known path c = let (u, m, e) = with_mutex_only known path c in rw e

-- Any call, whatever it meets, keeps the registry well formed.
pub perform-IsWellFormed :
    {A : Type 0} (finish : Finish A) (ev : Events) (path : String) (c : EsiClient)
    → IsWellFormed c
    → IsWellFormed (perform finish ev path c).client
unfolding perform
perform-IsWellFormed finish ev path c v =
    let known = (get_limiter_for_path path c).1 in
    attempt-IsWellFormed finish ev (get_limiter_for_path path c).0 path _ (with_mutex known path c)
      (rw (store-with_mutex known path c) (get_limiter_for_path-stored path c v))
      (with_mutex-IsWellFormed known path c v)

-- A call sends one request at most.
module _ {A : Type 0} (finish : Finish A) (ev : Events) (gl : ℕ) (path : String) where
  send-sent_le :
      (w b : Option String) (r : Reply) (c : EsiClient) → (send finish ev gl path w b r c).sent ≤ 1
  unfolding send receive
  send-sent_le (some text) b r c = omega arith
  send-sent_le none (some text) r c = omega arith
  send-sent_le none none (failed text) c = omega arith
  send-sent_le none none (responded resp) c = omega arith

  admit-sent_le :
      (refusal : Option RateLimitError) (c : EsiClient)
      → (admit finish ev gl path refusal c).sent ≤ 1
  unfolding admit
  admit-sent_le (some e) c = omega arith
  admit-sent_le none c = send-sent_le ev.wait_error ev.build_error ev.reply c

  attempt-sent_le :
      (t : Option RateLimitError) (c : EsiClient) → (attempt finish ev gl path t c).sent ≤ 1
  unfolding attempt
  attempt-sent_le (some e) c = omega arith
  attempt-sent_le none c = admit-sent_le _ _

pub perform-sent_le :
    {A : Type 0} (finish : Finish A) (ev : Events) (path : String) (c : EsiClient)
    → (perform finish ev path c).sent ≤ 1
unfolding perform
perform-sent_le finish ev path c = attempt-sent_le finish ev _ path _ _
