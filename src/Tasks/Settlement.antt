-- ===== src/Tasks/Settlement.antt =====
-- What a refresh says of its message (internal/tasks/esi/refreshSystemIndexes.go,
-- internal/tasks/esi/refreshAdjustedPrices.go).
use eve_industry_planner_sta.Prelude.{
  ℕ, ◌+◌, ◌≤◌, ◌≡◌, refl, ◌∙◌, ap, arith, Bool, true, false, List, [], ◌∷◌, ◌++◌, none, some,
  length, length-append, keep, keep-append, Option-cases, inl, inr,
}
use eve_industry_planner_sta.Prelude.Int.{ℤ}
use eve_industry_planner_sta.Esi.Client.{EsiClient}
use eve_industry_planner_sta.Esi.Request.{EsiError, rate_limited, other}
use eve_industry_planner_sta.Nats.{
  Call, ack, nak, term, in_progress, nak_with_delay, nack_with_backoff,
}
use eve_industry_planner_sta.Redis.{Redis, save_item, acquire_refresh_lock}
use eve_industry_planner_sta.Tasks.Stream.{Streamed}
use eve_industry_planner_sta.Tasks.Callback.{stream_result-preserves}
use eve_industry_planner_sta.Tasks.Refresh.{
  Task, Run, Message, Progress, say, nack, delay_message, on_stream_error, report_progress, on_item,
  save_results, conclude, first_progress, run_stream, refresh_locked, release_lock, refresh,
}

-- A call that settles a message: any but a progress report.
abbrev pub is_settling : Call → Bool
is_settling ack = true
is_settling nak = true
is_settling term = true
is_settling in_progress = false
is_settling (nak_with_delay d) = true

abbrev pub settlings : List Call → ℕ
settlings calls = length (keep is_settling calls)

settlings-append : (xs ys : List Call) → settlings (xs ++ ys) ≡ settlings xs + settlings ys
settlings-append xs ys =
    ap length (keep-append is_settling xs ys) ∙ length-append (keep is_settling xs) _

-- How many settling calls a refresh of a message may make: one or two, and one if delaying succeeds.
abbrev pub Expected : Bool → ℕ → Type 0
Expected delayed n = (1 ≤ n) × (n ≤ 2) × (delayed ≡ true → n ≡ 1)

settlings-nack : (n : ℕ) → settlings (nack (some n)) ≡ 1
unfolding nack nack_with_backoff
settlings-nack n = ground arith

on_stream_error-Expected :
    (n : ℕ) (delayed : Bool) (now : ℤ) (e : EsiError)
    → Expected delayed (settlings (on_stream_error (some n) delayed now e))
unfolding on_stream_error delay_message nack nack_with_backoff
on_stream_error-Expected n delayed now (other text) = ground arith
on_stream_error-Expected n delayed now (rate_limited e) = ground arith

module _ (r : Redis) {A B : Type 0} (t : Task A B) (run : Run A) where
  open r use {Store}

  report_progress-settlings :
      (msg : Message) (at : ℤ × ℤ) (p : Progress Store)
      → settlings (report_progress msg at p).calls ≡ settlings p.calls
  unfolding report_progress
  report_progress-settlings none at p = refl
  report_progress-settlings (some n) at p =
      ground (arith, settlings-append p.calls (in_progress ∷ []))

  on_item-settlings :
      (msg : Message) (b : B) (p : Progress Store)
      → settlings p.calls ≡ 0
      → settlings (on_item r t run msg b p).0.calls ≡ 0
  unfolding on_item
  on_item-settlings msg b p h =
      let saved : Progress Store = record p {
        store = (save_item r t.item_prefix (t.id b) (t.marshal b) p.store).0;
        count = p.count + 1;
      } in
      ground (arith, report_progress-settlings msg (run.item_at (p.count + 1)) saved)

  pub run_stream-settlings :
      (n : ℕ) (c : EsiClient) (s : Store) → settlings (run_stream r t run (some n) c s).1.calls ≡ 0
  unfolding run_stream first_progress say
  run_stream-settlings n c s =
      stream_result-preserves t.normalize (on_item r t run (some n)) (λ p. settlings p.calls ≡ 0)
        (on_item-settlings (some n)) run.decode_millis _ run.decoded _ refl

  conclude-Expected :
      (n : ℕ) (streamed : Streamed) (s : Store)
      → Expected run.delayed (settlings (conclude r t run (some n) streamed s).1)
  unfolding conclude save_results say
  conclude-Expected n streamed s = elim (Option-cases streamed.error) [
    | inl no_error ↦ ground (arith, settlings-nack n, no_error)
    | inr (e, failed) ↦
        rw (failed, conclude) (on_stream_error-Expected n run.delayed run.error_at e)
  ]

  refresh_locked-Expected :
      (n : ℕ) (c : EsiClient) (s : Store)
      → Expected run.delayed (settlings (refresh_locked r t run (some n) c s).calls)
  unfolding refresh_locked
  refresh_locked-Expected n c s =
      let (_, p, streamed) = run_stream r t run (some n) c s in
      ground (
        arith,
        run_stream-settlings n c s,
        conclude-Expected n streamed p.store,
        settlings-append p.calls (conclude r t run (some n) streamed p.store).1,
      )

  -- A refresh makes one or two calls that settle its message, and one if delaying it succeeds.
  pub refresh-settlings :
      (n : ℕ) (c : EsiClient) (s : Store)
      → Expected run.delayed (settlings (refresh r t run (some n) c s).calls)
  unfolding refresh release_lock say
  refresh-settlings n c s =
      let (locked, got) = acquire_refresh_lock r t.lock_key run.lock_millis s in
      ground (arith, refresh_locked-Expected n c locked)
