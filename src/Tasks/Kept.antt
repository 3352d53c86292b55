-- ===== src/Tasks/Kept.antt =====
-- Each item of a complete stream is in the store afterwards
-- (internal/tasks/esi/refreshSystemIndexes.go, internal/tasks/esi/refreshAdjustedPrices.go).
use eve_industry_planner_sta.Prelude.{
  ◌≡◌, ◌≢◌, refl, ◌∙◌, arith, String, true, List, [], ◌∷◌, ◌++◌, Option, none, some, Option-cases,
  inl, inr,
}
use eve_industry_planner_sta.Redis.{Redis, save_json, save_item}
use eve_industry_planner_sta.Tasks.Stream.{Ending, array_end, bad_end, stream_items}
use eve_industry_planner_sta.Tasks.Refresh.{Task, Run, Message, Progress, on_item}
use eve_industry_planner_sta.Tasks.Stored.{item_key, store-on_item, get-on_item_ne}

module _ (r : Redis) {A B : Type 0} (t : Task A B) (run : Run A) (msg : Message) where
  open r use {Store, get}

  get-save_json :
      (key : String) (value : Option String) (s : Store)
      → (save_json r key value s).1 ≡ true
      → get key (save_json r key value s).0 ≡ value
  unfolding save_json
  get-save_json key none s h = ground arith
  get-save_json key (some v) s h = r.get-set key v s h

  -- The normalized item.
  abbrev pub made : A → B
  made a = t.normalize run.decode_millis a

  abbrev pub streamed_items : List A → Ending → Progress Store → Progress Store × Option String
  streamed_items items ending p =
      stream_items t.normalize (on_item r t run msg) run.decode_millis items ending p

  -- No item of a list has this key.
  abbrev pub Absent : String → List A → Type 0
  Absent key [] = Unit
  Absent key (a ∷ rest) = (item_key t (made a) ≢ key) × Absent key rest

  saved-on_item :
      (b : B) (p : Progress Store)
      → (on_item r t run msg b p).1 ≡ none
      → (save_item r t.item_prefix (t.id b) (t.marshal b) p.store).1 ≡ true
  unfolding on_item
  saved-on_item b p h = ground arith

  get-on_item :
      (b : B) (p : Progress Store)
      → (on_item r t run msg b p).1 ≡ none
      → get (item_key t b) (on_item r t run msg b p).0.store ≡ t.marshal b
  unfolding save_item
  get-on_item b p h =
      rw (store-on_item r t run msg b p)
        (get-save_json (item_key t b) (t.marshal b) p.store (saved-on_item b p h))

  -- A complete step saves its item and goes on.
  streamed_items-step :
      (a : A) (rest : List A) (ending : Ending) (p : Progress Store)
      → (streamed_items (a ∷ rest) ending p).1 ≡ none
      → ((on_item r t run msg (made a) p).1 ≡ none)
        × (streamed_items (a ∷ rest) ending p
            ≡ streamed_items rest ending (on_item r t run msg (made a) p).0)
  unfolding stream_items
  streamed_items-step a rest ending p h = elim (Option-cases (on_item r t run msg (made a) p).1) [
    | inl e ↦ (e, rw (e, stream_items))
    | inr (text, e) ↦ absurd (ground (arith, h, e))
  ]

  get-streamed_items-Absent :
      (key : String) (items : List A) (ending : Ending) (p : Progress Store)
      → Absent key items
      → (streamed_items items ending p).1 ≡ none
      → get key (streamed_items items ending p).0.store ≡ get key p.store
  unfolding stream_items
  get-streamed_items-Absent key [] array_end p absent h = refl
  get-streamed_items-Absent key [] (bad_end text) p absent h = refl
  get-streamed_items-Absent key (a ∷ rest) ending p (differs, absent) h =
      let (saved, e) = streamed_items-step a rest ending p h in
      rw e (
        get-streamed_items-Absent key rest ending _ absent (rw e at h)
        ∙ get-on_item_ne r t run msg key (made a) p differs)

  -- The last item with a key is what the key holds.
  pub get-streamed_items :
      (before : List A) (a : A) (after : List A) (ending : Ending) (p : Progress Store)
      → Absent (item_key t (made a)) after
      → (streamed_items (before ++ a ∷ after) ending p).1 ≡ none
      → get (item_key t (made a)) (streamed_items (before ++ a ∷ after) ending p).0.store
        ≡ t.marshal (made a)
  get-streamed_items [] a after ending p absent h =
      let (saved, e) = streamed_items-step a after ending p h in
      rw e (
        get-streamed_items-Absent _ after ending _ absent (rw e at h)
        ∙ get-on_item (made a) p saved)
  get-streamed_items (b ∷ before) a after ending p absent h =
      let (saved, e) = streamed_items-step b (before ++ a ∷ after) ending p h in
      rw e (get-streamed_items before a after ending _ absent (rw e at h))
