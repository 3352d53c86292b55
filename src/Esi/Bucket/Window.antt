-- ===== src/Esi/Bucket/Window.antt =====
-- What `cleanupOldConsumptions` and the search for the oldest entry compute
-- (internal/core/esi/rate_limited_client.go).
use eve_industry_planner_sta.Prelude.{
  ℕ, suc, ◌+◌, ◌*◌, ◌^◌, ◌≤◌, ◌<◌, ◌≡◌, refl, ap, ◌∙◌, ◌⊎◌, inl, inr, ◌≢◌, List, [], ◌∷◌, ◌++◌,
  arith, length, length-keep, keep, Bool-cases,
}
use eve_industry_planner_sta.Prelude.Int.{
  ℤ, pos, pos_part, neg_part, ◌-ℤ◌, ◌≤ℤ◌, ◌<ℤ◌, ltb_ℤ, int_laws,
}
use eve_industry_planner_sta.Prelude.Word.{add64}
use eve_industry_planner_sta.Esi.Bucket.{
  TokenConsumption, GroupLimiter, sweep, oldest, oldest_expiry, cleanup_old_consumptions,
}
use mathlib.Core.List.{append-nil, append_assoc}

-- The entries younger than a cutoff, in order.
abbrev pub live : ℤ → List TokenConsumption → List TokenConsumption
live cutoff = keep (λ c. ltb_ℤ cutoff c.consumed)

-- Tokens are costs of responses: at least 0 and at most 5.
abbrev pub IsHistory : List TokenConsumption → Type 0
IsHistory [] = Unit
IsHistory (c ∷ cs) = ((neg_part c.tokens ≡ 0) × (pos_part c.tokens ≤ 5)) × IsHistory cs

-- The tokens of a history, as a number.
abbrev pub weight : List TokenConsumption → ℕ
weight [] = 0
weight (c ∷ cs) = pos_part c.tokens + weight cs

pub weight-append : (xs ys : List TokenConsumption) → weight (xs ++ ys) ≡ weight xs + weight ys
weight-append [] ys = omega arith
weight-append (x ∷ xs) ys = omega (arith, weight-append xs ys)

pub IsHistory-append :
    (xs ys : List TokenConsumption) → IsHistory xs → IsHistory ys → IsHistory (xs ++ ys)
IsHistory-append [] ys hx hy = hy
IsHistory-append (x ∷ xs) ys hx hy = (hx.0, IsHistory-append xs ys hx.1 hy)

pub live-IsHistory :
    (cutoff : ℤ) (cs : List TokenConsumption) → IsHistory cs → IsHistory (live cutoff cs)
live-IsHistory cutoff [] h = h
live-IsHistory cutoff (c ∷ cs) h = elim (Bool-cases (ltb_ℤ cutoff c.consumed)) [
  | inl e ↦ rw e (h.0, live-IsHistory cutoff cs h.1)
  | inr e ↦ rw e (live-IsHistory cutoff cs h.1)
]

pub weight-le : (cs : List TokenConsumption) → IsHistory cs → weight cs ≤ 5 * length cs
weight-le [] h = omega arith
weight-le (c ∷ cs) h = omega (arith, weight-le cs h.1)

pub add64_small :
    (t : ℕ) (z : ℤ)
    → neg_part z ≡ 0
    → t + pos_part z < 2 ^ 63
    → add64 (pos t) z ≡ pos (t + pos_part z)
unfolding add64
add64_small t z h k = ground arith

pub sweep-live :
    (cutoff : ℤ) (valid : List TokenConsumption) (total : ℤ) (cs : List TokenConsumption)
    → (sweep cutoff valid total cs).0 ≡ valid ++ live cutoff cs
unfolding sweep
sweep-live cutoff valid total [] = rw append-nil
sweep-live cutoff valid total (c ∷ cs) = ground (
  arith,
  sweep-live cutoff (valid ++ c ∷ []) (add64 total c.tokens) cs,
  append_assoc valid (c ∷ []) (live cutoff cs),
  sweep-live cutoff valid total cs,
)

pub sweep-weight :
    (cutoff : ℤ) (valid : List TokenConsumption) (t : ℕ) (cs : List TokenConsumption)
    → IsHistory cs
    → t + weight (live cutoff cs) < 2 ^ 63
    → (sweep cutoff valid (pos t) cs).1 ≡ pos (t + weight (live cutoff cs))
unfolding sweep
sweep-weight cutoff valid t [] h b = ground arith
sweep-weight cutoff valid t (c ∷ cs) h b = elim (Bool-cases (ltb_ℤ cutoff c.consumed)) [
  | inl e ↦
      let b' = rw e at b in
      rw (e, sweep, add64_small t c.tokens h.0.0 (omega arith))
        (sweep-weight cutoff (valid ++ c ∷ []) (t + pos_part c.tokens) cs h.1 (omega arith)
          ∙ ap pos (omega arith))
  | inr e ↦ rw (e, sweep) (sweep-weight cutoff valid t cs h.1 (rw e at b))
]

-- The cutoff of a cleanup.
abbrev pub cutoff_at : ℤ → GroupLimiter → ℤ
cutoff_at now gl = now -ℤ gl.window_duration

-- After a cleanup the history is what is younger than the window, in order, and the count is the
-- sum of its tokens, whatever the count was.
pub cleanup_old_consumptions_lem :
    (now : ℤ) (gl : GroupLimiter)
    → IsHistory gl.consumptions
    → weight (live (cutoff_at now gl) gl.consumptions) < 2 ^ 63
    → cleanup_old_consumptions now gl ≡ record gl {
      consumptions = live (cutoff_at now gl) gl.consumptions;
      token_used = pos (weight (live (cutoff_at now gl) gl.consumptions));
      last_update = now;
    }
unfolding cleanup_old_consumptions
cleanup_old_consumptions_lem now gl h b = ground (
  arith,
  sweep-live (cutoff_at now gl) [] (pos 0) gl.consumptions,
  sweep-weight (cutoff_at now gl) [] 0 gl.consumptions,
)

abbrev NoneBefore : ℤ → List TokenConsumption → Type 0
NoneBefore t [] = Unit
NoneBefore t (c ∷ cs) = (t ≤ℤ c.consumed) × NoneBefore t cs

NoneBefore-le : (s t : ℤ) (cs : List TokenConsumption) → s ≤ℤ t → NoneBefore t cs → NoneBefore s cs
NoneBefore-le s t [] h k = tt
NoneBefore-le s t (c ∷ cs) h k = (omega arith, NoneBefore-le s t cs h k.1)

oldest-le :
    (o : TokenConsumption) (cs : List TokenConsumption)
    → ((oldest o cs).consumed ≤ℤ o.consumed) × NoneBefore (oldest o cs).consumed cs
unfolding oldest
oldest-le o [] = (omega arith, tt)
oldest-le o (c ∷ cs) = ground (arith, oldest-le c cs, oldest-le o cs)

live_all :
    (cutoff : ℤ) (t : ℤ) (cs : List TokenConsumption)
    → cutoff <ℤ t
    → NoneBefore t cs
    → live cutoff cs ≡ cs
live_all cutoff t [] h k = refl
live_all cutoff t (c ∷ cs) h k = ground (arith, live_all cutoff t cs h k.1)

oldest_dropped :
    (o : TokenConsumption) (cs : List TokenConsumption) (cutoff : ℤ)
    → (oldest o cs).consumed ≤ℤ cutoff
    → (oldest o cs ≡ o) ⊎ (length (live cutoff cs) < length cs)
unfolding oldest
oldest_dropped o [] cutoff h = inl refl
oldest_dropped o (c ∷ cs) cutoff h = ground (
  arith,
  oldest_dropped c cs cutoff,
  oldest_dropped o cs cutoff,
  oldest-le c cs,
  length-keep (λ x. ltb_ℤ cutoff x.consumed) cs,
)

pub weight-live : (cutoff : ℤ) (cs : List TokenConsumption) → weight (live cutoff cs) ≤ weight cs
weight-live cutoff [] = omega arith
weight-live cutoff (c ∷ cs) = ground (arith, weight-live cutoff cs)

oldest_drops :
    (c : TokenConsumption) (cs : List TokenConsumption) (cutoff : ℤ)
    → (oldest c (c ∷ cs)).consumed ≤ℤ cutoff
    → length (live cutoff (c ∷ cs)) < suc (length cs)
unfolding oldest
oldest_drops c cs cutoff h =
    ground (arith, oldest_dropped c cs cutoff, length-keep (λ x. ltb_ℤ cutoff x.consumed) cs)

-- For a history that is not empty, the expiry of its oldest entry is the first instant at which a
-- cleanup drops something: earlier ones leave the history as it is, and from then on each drops.
pub oldest_expiry_first :
    (now : ℤ) (gl : GroupLimiter)
    → gl.consumptions ≢ []
    → ((t : ℤ)
        → t <ℤ oldest_expiry now gl.window_duration gl.consumptions
        → live (cutoff_at t gl) gl.consumptions ≡ gl.consumptions)
      × ((t : ℤ)
          → oldest_expiry now gl.window_duration gl.consumptions ≤ℤ t
          → length (live (cutoff_at t gl) gl.consumptions) < length gl.consumptions)
unfolding oldest_expiry
oldest_expiry_first now gl h = go gl.consumptions h
  where
    go :
        (cs : List TokenConsumption)
        → cs ≢ []
        → ((t : ℤ) → t <ℤ oldest_expiry now gl.window_duration cs → live (cutoff_at t gl) cs ≡ cs)
          × ((t : ℤ)
              → oldest_expiry now gl.window_duration cs ≤ℤ t
              → length (live (cutoff_at t gl) cs) < length cs)
    go [] h = absurd (h refl)
    go (c ∷ cs) h = (
      (λ t k.
          live_all (cutoff_at t gl) (oldest c (c ∷ cs)).consumed (c ∷ cs) (omega int_laws)
            (oldest-le c (c ∷ cs)).1),
      (λ t k. oldest_drops c cs (cutoff_at t gl) (omega int_laws)),
    )
