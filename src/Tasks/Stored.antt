-- ===== src/Tasks/Stored.antt =====
-- What a refresh writes (internal/tasks/esi/refreshSystemIndexes.go,
-- internal/tasks/esi/refreshAdjustedPrices.go).
use eve_industry_planner_sta.Prelude.{◌+◌, ◌≡◌, ◌≢◌, refl, ◌∙◌, arith, String, Option, none, some}
use eve_industry_planner_sta.Prelude.Int.{ℤ}
use eve_industry_planner_sta.Prelude.Decimal.{format_int}
use Prim.Native.String.{◌++◌ as append}
use eve_industry_planner_sta.Esi.Client.{EsiClient}
use eve_industry_planner_sta.Redis.{Redis, save_json, save_item, acquire_refresh_lock}
use eve_industry_planner_sta.Tasks.Callback.{stream_result-preserves}
use eve_industry_planner_sta.Tasks.Refresh.{
  Task, Run, Message, Progress, Outcome, report_progress, on_item, first_progress, run_stream,
  release_lock,
}

-- The key of an item.
abbrev pub item_key : {A B : Type 0} → Task A B → B → String
item_key t b = append t.item_prefix (format_int (t.id b))

-- A key that no item has.
abbrev pub NoItem : {A B : Type 0} → Task A B → String → Type 0
NoItem {B = B} t key = (b : B) → item_key t b ≢ key

module _ (r : Redis) {A B : Type 0} (t : Task A B) (run : Run A) (msg : Message) where
  open r use {Store, get, set, set_nx, del}

  store-report_progress :
      (at : ℤ × ℤ) (p : Progress Store) → (report_progress msg at p).store ≡ p.store
  unfolding report_progress
  store-report_progress at p = ground arith

  pub store-on_item :
      (b : B) (p : Progress Store)
      → (on_item r t run msg b p).0.store
        ≡ (save_item r t.item_prefix (t.id b) (t.marshal b) p.store).0
  unfolding on_item
  store-on_item b p =
      let s' = (save_item r t.item_prefix (t.id b) (t.marshal b) p.store).0 in
      let saved : Progress Store = record p { store = s'; count = p.count + 1 } in
      ground (arith, store-report_progress (run.item_at (p.count + 1)) saved)

  pub get-save_json_ne :
      (key other : String) (value : Option String) (s : Store)
      → key ≢ other
      → get other (save_json r key value s).0 ≡ get other s
  unfolding save_json
  get-save_json_ne key other none s h = refl
  get-save_json_ne key other (some v) s h = r.get-set_ne key other v s h

  -- The callback writes no key but its item's.
  pub get-on_item_ne :
      (key : String) (b : B) (p : Progress Store)
      → item_key t b ≢ key
      → get key (on_item r t run msg b p).0.store ≡ get key p.store
  unfolding save_item
  get-on_item_ne key b p h =
      rw (store-on_item b p) (get-save_json_ne (item_key t b) key (t.marshal b) p.store h)

  pub get-run_stream :
      (key : String) (c : EsiClient) (s : Store)
      → NoItem t key
      → get key (run_stream r t run msg c s).1.store ≡ get key s
  unfolding run_stream first_progress
  get-run_stream key c s h =
      stream_result-preserves t.normalize (on_item r t run msg) (λ p. get key p.store ≡ get key s)
        (λ b p e. get-on_item_ne key b p (h b) ∙ e) run.decode_millis _ run.decoded _ refl

  pub get-acquire :
      (key : String) (s : Store)
      → t.lock_key ≢ key
      → get key (acquire_refresh_lock r t.lock_key run.lock_millis s).0 ≡ get key s
  unfolding acquire_refresh_lock
  get-acquire key s h = r.get-set_nx_ne t.lock_key key _ s h

  pub get-release_lock :
      (key : String) (o : Outcome Store)
      → t.lock_key ≢ key
      → get key (release_lock r t run msg o).store ≡ get key o.store
  unfolding release_lock
  get-release_lock key o h = r.get-del_ne t.lock_key key o.store h
