-- ===== src/Tasks/Settled.antt =====
-- Which calls settle the message of a refresh (internal/tasks/esi/refreshSystemIndexes.go,
-- internal/tasks/esi/refreshAdjustedPrices.go).
use eve_industry_planner_sta.Prelude.{
  ℕ, ◌≡◌, ◌≢◌, refl, ap, sym, ◌∙◌, arith, Bool, true, false, List, [], ◌∷◌, none, some, keep,
  keep-append, ◌||◌, ◌&&◌, if◌then◌else◌, Bool-cases, inl, inr,
}
use eve_industry_planner_sta.Prelude.Int.{ℤ, pos, ◌-ℤ◌, -ℤ_parts, ltb_ℤ}
use eve_industry_planner_sta.Esi.Client.{EsiClient}
use eve_industry_planner_sta.Esi.Request.{EsiError, rate_limited, other}
use eve_industry_planner_sta.Nats.{Call, ack, nak_with_delay, nack_with_backoff}
use eve_industry_planner_sta.Redis.{Redis, save_etag, save_last_updated, acquire_refresh_lock}
use eve_industry_planner_sta.Tasks.Stream.{Streamed}
use eve_industry_planner_sta.Tasks.Refresh.{
  Task, Run, nack, delay_message, on_stream_error, save_results, conclude, say, run_stream,
  refresh_locked, release_lock, refresh,
}
use eve_industry_planner_sta.Tasks.Excluded.{locked, streamed_by}
use eve_industry_planner_sta.Tasks.Settlement.{is_settling, settlings, run_stream-settlings}

-- The calls that settle a message, in order.
abbrev pub settling : List Call → List Call
settling calls = keep is_settling calls

-- The error is a retryable rate limit whose retry time lies ahead by this much.
abbrev pub Delays : ℤ → EsiError → ℤ → Type 0
Delays now (other text) wait = false ≡ true
Delays now (rate_limited e) wait =
    (e.retryable ≡ true) × (ltb_ℤ now e.retry_after ≡ true) × (wait ≡ e.retry_after -ℤ now)

-- What a message is given that is delayed, by whether that succeeds.
abbrev pub delayed_calls : ℕ → Bool → ℤ → List Call
delayed_calls n true wait = nak_with_delay wait ∷ []
delayed_calls n false wait = nak_with_delay wait ∷ nack_with_backoff n ∷ []

settling-nack : (n : ℕ) → settling (nack (some n)) ≡ nack_with_backoff n ∷ []
unfolding nack nack_with_backoff
settling-nack n = ground arith

ahead : (now t : ℤ) → ltb_ℤ (pos 0) (t -ℤ now) ≡ ltb_ℤ now t
ahead now t = ground (arith, -ℤ_parts t now)

settling-delay_message :
    (n : ℕ) (delayed : Bool) (wait : ℤ)
    → settling (delay_message (some n) delayed wait)
      ≡ (if ltb_ℤ (pos 0) wait then delayed_calls n delayed wait else nack_with_backoff n ∷ [])
unfolding delay_message nack_with_backoff
settling-delay_message n true wait = ground arith
settling-delay_message n false wait = ground arith

-- What is said after a stream that ended with an error.
on_stream_error-settling :
    (n : ℕ) (delayed : Bool) (now : ℤ) (e : EsiError)
    → ((wait : ℤ)
        → Delays now e wait
        → settling (on_stream_error (some n) delayed now e) ≡ delayed_calls n delayed wait)
      × (((wait : ℤ) → ¬ Delays now e wait)
          → settling (on_stream_error (some n) delayed now e) ≡ nack_with_backoff n ∷ [])
unfolding on_stream_error
on_stream_error-settling n delayed now (other text) =
    ((λ wait h. absurd (ground (arith, h))), (λ h. settling-nack n))
on_stream_error-settling n delayed now (rate_limited e) =
    let wait : ℤ = e.retry_after -ℤ now in
    let said = settling-delay_message n delayed wait in
    elim (Bool-cases e.retryable) [
      | inr refused ↦ (
        (λ w h. absurd (ground (arith, refused, h.0))),
        (λ h. rw (refused, on_stream_error) (settling-nack n)),
      )
      | inl retried ↦ elim (Bool-cases (ltb_ℤ now e.retry_after)) [
        | inl later ↦ (
          (λ w h.
              rw (retried, on_stream_error)
                (said
                  ∙ rw (ahead now e.retry_after, later) (ap (delayed_calls n delayed) (sym h.2)))),
          (λ h. absurd (h wait (retried, later, refl))),
        )
        | inr past ↦ (
          (λ w h. absurd (ground (arith, past, h.1))),
          (λ h. rw (retried, on_stream_error) (said ∙ rw (ahead now e.retry_after, past) refl)),
        )
      ]
    ]

none_settling : (calls : List Call) → settlings calls ≡ 0 → settling calls ≡ []
none_settling [] h = refl
none_settling (call ∷ rest) h = ground (arith, h, none_settling rest)

module _ (r : Redis) {A B : Type 0} (t : Task A B) (run : Run A) where
  open r use {Store}

  -- Whether the ETag and then the time can be saved after a stream.
  abbrev pub both_saved : Streamed → Store → Bool
  both_saved streamed s =
      let (s1, etag_saved) = save_etag r t.etag_key streamed.etag s in
      etag_saved && (save_last_updated r t.last_updated_key run.updated_millis s1).1

  conclude-settling :
      (n : ℕ) (streamed : Streamed) (s : Store)
      → (streamed.error ≡ none
          → settling (conclude r t run (some n) streamed s).1 ≡ (
              if streamed.not_modified || both_saved streamed s
              then ack ∷ []
              else nack_with_backoff n ∷ []))
        × ((e : EsiError)
            → streamed.error ≡ some e
            → (conclude r t run (some n) streamed s).1
              ≡ on_stream_error (some n) run.delayed run.error_at e)
  unfolding conclude save_results say
  conclude-settling n streamed s = (
    (λ fine. rw (fine, conclude) (ground (arith, settling-nack n))),
    (λ e failed. rw (failed, conclude) refl),
  )

  settling-refresh_locked :
      (n : ℕ) (c : EsiClient) (s : Store)
      → settling (refresh_locked r t run (some n) c s).calls
        ≡ settling
            (conclude r t run
              (some n)
              (run_stream r t run (some n) c s).2
              (run_stream r t run (some n) c s).1.store).1
  unfolding refresh_locked
  settling-refresh_locked n c s =
      let p = (run_stream r t run (some n) c s).1 in
      keep-append is_settling p.calls _
      ∙ rw (none_settling p.calls (run_stream-settlings r t run n c s)) refl

  settling-refresh :
      (n : ℕ) (c : EsiClient) (s : Store)
      → ((acquire_refresh_lock r t.lock_key run.lock_millis s).1 ≢ some true
          → settling (refresh r t run (some n) c s).calls ≡ ack ∷ [])
        × ((acquire_refresh_lock r t.lock_key run.lock_millis s).1 ≡ some true
            → (refresh r t run (some n) c s).calls
              ≡ (refresh_locked r t run (some n) c (locked r t run (some n) s)).calls)
  unfolding refresh release_lock say
  settling-refresh n c s = ((λ h. ground (arith, h)), (λ h. ground (arith, h)))

  -- Which calls settle the message of a refresh, beside progress reports. A refresh that does not get
  -- the lock acknowledges it. After a stream without error it is acknowledged if nothing was modified
  -- or the ETag and the time could be saved, and else given back with the backoff. After a stream that
  -- ended with a retryable rate limit whose retry time lies ahead, it is delayed until then, and given
  -- back with the backoff as well if the delay fails; after every other error it is given back with
  -- the backoff.
  pub refresh-settles :
      (n : ℕ) (c : EsiClient) (s : Store)
      → let got = (acquire_refresh_lock r t.lock_key run.lock_millis s).1 in
        let streamed = streamed_by r t run (some n) c s in
        let after = (run_stream r t run (some n) c (locked r t run (some n) s)).1.store in
        let settled = settling (refresh r t run (some n) c s).calls in
        (got ≢ some true → settled ≡ ack ∷ [])
        × (got ≡ some true
            → streamed.error ≡ none
            → settled ≡ (
                if streamed.not_modified || both_saved streamed after
                then ack ∷ []
                else nack_with_backoff n ∷ []))
        × ((e : EsiError) (wait : ℤ)
            → got ≡ some true
            → streamed.error ≡ some e
            → Delays run.error_at e wait
            → settled ≡ delayed_calls n run.delayed wait)
        × ((e : EsiError)
            → got ≡ some true
            → streamed.error ≡ some e
            → ((wait : ℤ) → ¬ Delays run.error_at e wait)
            → settled ≡ nack_with_backoff n ∷ [])
  refresh-settles n c s =
      let s' = locked r t run (some n) s in
      let streamed = streamed_by r t run (some n) c s in
      let after = (run_stream r t run (some n) c s').1.store in
      let (unlocked, held) = settling-refresh n c s in
      let (fine, failing) = conclude-settling n streamed after in
      let by_end = settling-refresh_locked n c s' in
      (
        unlocked,
        (λ got no_error. ap settling (held got) ∙ by_end ∙ fine no_error),
        (λ e wait got failed delays.
            ap settling (held got)
            ∙ by_end
            ∙ ap settling (failing e failed)
            ∙ (on_stream_error-settling n run.delayed run.error_at e).0 wait delays),
        (λ e got failed delays.
            ap settling (held got)
            ∙ by_end
            ∙ ap settling (failing e failed)
            ∙ (on_stream_error-settling n run.delayed run.error_at e).1 delays),
      )
