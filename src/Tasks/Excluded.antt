-- ===== src/Tasks/Excluded.antt =====
-- The lock of a refresh, and what a refresh leaves alone that holds no new data
-- (internal/tasks/esi/refreshSystemIndexes.go, internal/tasks/esi/refreshAdjustedPrices.go).
use eve_industry_planner_sta.Prelude.{
  ◌≡◌, ◌≢◌, refl, sym, ◌∙◌, arith, String, true, none, some, Bool-cases, Option-cases, inl, inr,
  ◌⊎◌, str_eq, eq_iff,
}
use eve_industry_planner_sta.Esi.Client.{EsiClient}
use eve_industry_planner_sta.Nats.{ack}
use eve_industry_planner_sta.Prelude.Decimal.{format_int}
use eve_industry_planner_sta.Redis.{Redis, acquire_refresh_lock}
use eve_industry_planner_sta.Tasks.Stream.{Streamed}
use eve_industry_planner_sta.Tasks.Refresh.{
  Task, Run, Message, say, conclude, run_stream, refresh_locked, refresh,
}
use eve_industry_planner_sta.Tasks.Stored.{NoItem, get-run_stream, get-acquire, get-release_lock}

module _ (r : Redis) {A B : Type 0} (t : Task A B) (run : Run A) (msg : Message) where
  open r use {Store, get}

  -- The store once the lock was tried for.
  abbrev pub locked : Store → Store
  locked s = (acquire_refresh_lock r t.lock_key run.lock_millis s).0

  -- What the stream of a refresh that got the lock returns.
  abbrev pub streamed_by : EsiClient → Store → Streamed
  streamed_by c s = (run_stream r t run msg c (locked s)).2

  get-acquire_held :
      (key w : String) (s : Store) → get t.lock_key s ≡ some w → get key (locked s) ≡ get key s
  unfolding acquire_refresh_lock
  get-acquire_held key w s h = elim (Bool-cases (str_eq t.lock_key key)) [
    | inl same ↦
        let e = (eq_iff t.lock_key key).0 same in
        rw (← e) (r.get-set_nx_held t.lock_key _ w s h ∙ sym h)
    | inr differs ↦ get-acquire r t run msg key s (λ e. ground (arith, eq_iff t.lock_key key))
  ]

  -- While the lock is held, a refresh sends nothing to the server, acknowledges its message, and
  -- leaves every key as it is.
  pub refresh-excluded :
      (w : String) (c : EsiClient) (s : Store)
      → get t.lock_key s ≡ some w
      → ((refresh r t run msg c s).client ≡ c)
        × ((refresh r t run msg c s).calls ≡ say msg ack)
        × ((key : String) → get key (refresh r t run msg c s).store ≡ get key s)
  unfolding refresh acquire_refresh_lock
  refresh-excluded w c s h =
      let held = r.set_nx-held t.lock_key (format_int run.lock_millis) w s h in
      (
        ground (arith, held),
        ground (arith, held),
        (λ key. ground (arith, held, get-acquire_held key w s h)),
      )

  get-conclude_fruitless :
      (key : String) (streamed : Streamed) (s : Store)
      → (streamed.error ≢ none) ⊎ (streamed.not_modified ≡ true)
      → get key (conclude r t run msg streamed s).0 ≡ get key s
  unfolding conclude
  get-conclude_fruitless key streamed s h = elim (Option-cases streamed.error) [
    | inr (e, failed) ↦ rw (failed, conclude) refl
    | inl no_error ↦ elim h [
      | inl failed ↦ absurd (failed no_error)
      | inr same ↦ rw (no_error, conclude) (rw same refl)
    ]
  ]

  get-refresh_locked_fruitless :
      (key : String) (c : EsiClient) (s : Store)
      → NoItem t key
      → ((run_stream r t run msg c s).2.error ≢ none)
        ⊎ ((run_stream r t run msg c s).2.not_modified ≡ true)
      → get key (refresh_locked r t run msg c s).store ≡ get key s
  unfolding refresh_locked
  get-refresh_locked_fruitless key c s apart h =
      get-conclude_fruitless key _ _ h ∙ get-run_stream r t run msg key c s apart

  -- A refresh whose stream fails, or is told that nothing was modified, writes the keys of its lock
  -- and of items only: the ETag and the time of the last refresh stay as they were.
  pub refresh-fruitless :
      (key : String) (c : EsiClient) (s : Store)
      → t.lock_key ≢ key
      → NoItem t key
      → ((streamed_by c s).error ≢ none) ⊎ ((streamed_by c s).not_modified ≡ true)
      → get key (refresh r t run msg c s).store ≡ get key s
  unfolding refresh
  refresh-fruitless key c s differs apart h =
      let o = refresh_locked r t run msg c (locked s) in
      ground (
        arith,
        get-acquire r t run msg key s differs,
        get-release_lock r t run msg key o differs,
        get-refresh_locked_fruitless key c (locked s) apart h,
      )
