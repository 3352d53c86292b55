-- ===== src/Tasks/RoundTrip.antt =====
-- What a refresh with new data leaves in the store
-- (internal/tasks/esi/refreshSystemIndexes.go, internal/tasks/esi/refreshAdjustedPrices.go).
use eve_industry_planner_sta.Prelude.{
  ◌≡◌, ◌≢◌, refl, sym, ◌∙◌, arith, String, true, List, ◌∷◌, ◌++◌, Option, none, some, ap,
  Option-cases, inl, inr,
}
use eve_industry_planner_sta.Prelude.Int.{pos}
use eve_industry_planner_sta.Prelude.Decimal.{format_int}
use eve_industry_planner_sta.Esi.Client.{EsiClient}
use eve_industry_planner_sta.Esi.Feedback.{Response}
use eve_industry_planner_sta.Esi.Request.{EsiError, Result, ok, err}
use eve_industry_planner_sta.Redis.{Redis, save_etag, save_last_updated, acquire_refresh_lock}
use eve_industry_planner_sta.Tasks.Stream.{
  Start, array_start, another_token, bad_start, Decoded, stream_array, open_body, decode_body,
  stream_response, stream_result, request_attempts, Streamed,
}
use eve_industry_planner_sta.Tasks.Refresh.{
  Task, Run, Message, Progress, on_item, save_results, conclude, first_progress, previous_etag,
  run_stream, refresh_locked, refresh,
}
use eve_industry_planner_sta.Tasks.Stored.{item_key, get-release_lock}
use eve_industry_planner_sta.Tasks.Excluded.{locked, streamed_by}
use eve_industry_planner_sta.Tasks.Kept.{made, streamed_items, Absent, get-streamed_items}

module _ (r : Redis) {A B : Type 0} (t : Task A B) (run : Run A) (msg : Message) where
  open r use {Store, get}

  abbrev streamed_array : Start → Decoded A → Progress Store → Progress Store × Option String
  streamed_array start d p =
      stream_array t.normalize (on_item r t run msg) run.decode_millis start d.items d.ending p

  abbrev decoded_body : Response → Progress Store → Progress Store × Option String
  decoded_body resp p =
      decode_body t.normalize (on_item r t run msg) run.decode_millis resp (run.decoded resp) p

  abbrev pub response_stream : Response → Progress Store → Progress Store × Streamed
  response_stream resp p =
      stream_response t.normalize (on_item r t run msg) run.decode_millis resp (run.decoded resp) p

  -- A body that was read without error is its items.
  complete_array :
      (start : Start) (d : Decoded A) (p : Progress Store)
      → (streamed_array start d p).1 ≡ none
      → streamed_array start d p ≡ streamed_items r t run msg d.items d.ending p
  unfolding stream_array
  complete_array (bad_start text) d p h = ground arith
  complete_array another_token d p h = ground arith
  complete_array array_start d p h = refl

  complete_body :
      (resp : Response) (p : Progress Store)
      → (decoded_body resp p).1 ≡ none
      → decoded_body resp p
        ≡ streamed_items r t run msg (run.decoded resp).items (run.decoded resp).ending p
  unfolding decode_body
  complete_body resp p h =
      elim (Option-cases (open_body t.normalize (on_item r t run msg) resp (run.decoded resp))) [
        | inl e ↦
            rw (e, decode_body) (complete_array _ (run.decoded resp) p (rw (e, decode_body) at h))
        | inr (text, e) ↦ absurd (ground (arith, h, e))
      ]

  -- The keys of the ETag and of the time are written after the stream, and no other.
  get-save_results_ne :
      (key etag : String) (s : Store)
      → t.etag_key ≢ key
      → t.last_updated_key ≢ key
      → get key (save_results r t run msg etag s).0 ≡ get key s
  unfolding save_results save_etag save_last_updated
  get-save_results_ne key etag s h k =
      let s1 = (save_etag r t.etag_key etag s).0 in
      ground (
        arith,
        r.get-set_ne t.etag_key key etag s h,
        r.get-set_ne t.last_updated_key key (format_int run.updated_millis) s1 k,
      )

  get-conclude_ne :
      (key : String) (streamed : Streamed) (s : Store)
      → t.etag_key ≢ key
      → t.last_updated_key ≢ key
      → get key (conclude r t run msg streamed s).0 ≡ get key s
  unfolding conclude
  get-conclude_ne key streamed s h k = elim (Option-cases streamed.error) [
    | inr (e, failed) ↦ rw (failed, conclude) refl
    | inl no_error ↦ ground (arith, no_error, get-save_results_ne key streamed.etag s h k)
  ]

  -- A response of status 200 whose stream ends without error was read to its end.
  complete_response :
      (resp : Response) (p : Progress Store)
      → resp.status_code ≡ pos 200
      → (response_stream resp p).1.error ≡ none
      → ((streamed_items r t run msg (run.decoded resp).items (run.decoded resp).ending p).1 ≡ none)
        × ((response_stream resp p).0
            ≡ (streamed_items r t run msg (run.decoded resp).items (run.decoded resp).ending p).0)
  unfolding stream_response
  complete_response resp p status h = elim (Option-cases (decoded_body resp p).1) [
    | inl e ↦
        let same = complete_body resp p e in
        (rw (← same) e, ground (arith, status) ∙ ap (λ x. x.0) same)
    | inr (text, e) ↦ absurd (ground (arith, h, e, status))
  ]

  -- The response that the attempts of a refresh end with.
  abbrev pub replied : EsiClient → Store → Result Response
  replied c s =
      (request_attempts (run.request (previous_etag r t run msg s)) run.jitter t.path c).result

  pub run_stream-ok :
      (c : EsiClient) (s : Store) (resp : Response)
      → replied c s ≡ ok resp
      → ((run_stream r t run msg c s).1 ≡ (response_stream resp (first_progress r t run msg s)).0)
        × ((run_stream r t run msg c s).2 ≡ (response_stream resp (first_progress r t run msg s)).1)
  unfolding run_stream stream_result
  run_stream-ok c s resp h = (rw h, rw h)

  -- The error that the attempts end with is the stream's.
  pub run_stream-err :
      (c : EsiClient) (s : Store) (e : EsiError)
      → replied c s ≡ err e
      → (run_stream r t run msg c s).2.error ≡ some e
  unfolding run_stream stream_result
  run_stream-err c s e h = rw h refl

  get-refresh_locked_item :
      (c : EsiClient) (s : Store) (resp : Response) (before : List A) (a : A) (after : List A)
      → replied c s ≡ ok resp
      → resp.status_code ≡ pos 200
      → (run_stream r t run msg c s).2.error ≡ none
      → (run.decoded resp).items ≡ before ++ a ∷ after
      → Absent r t run msg (item_key t (made r t run msg a)) after
      → t.etag_key ≢ item_key t (made r t run msg a)
      → t.last_updated_key ≢ item_key t (made r t run msg a)
      → get (item_key t (made r t run msg a)) (refresh_locked r t run msg c s).store
        ≡ t.marshal (made r t run msg a)
  unfolding refresh_locked
  get-refresh_locked_item c s resp before a after h status no_error items absent ek uk =
      let p = first_progress r t run msg s in
      let same = run_stream-ok c s resp h in
      let (complete, stored) =
        complete_response resp p status (sym (ap (λ x. x.error) same.1) ∙ no_error) in
      get-conclude_ne (item_key t (made r t run msg a)) _ _ ek uk
      ∙ ap (λ x. get (item_key t (made r t run msg a)) x.store) (same.0 ∙ stored)
      ∙ rw items (get-streamed_items r t run msg before a after _ p absent (rw items at complete))

  -- A refresh that holds the lock, meets a response of status 200 and ends its stream without error
  -- leaves under the key of each item what the last item with that key is stored as, if the key is
  -- none of the task's own.
  pub refresh-keeps :
      (c : EsiClient) (s : Store) (resp : Response) (before : List A) (a : A) (after : List A)
      → (acquire_refresh_lock r t.lock_key run.lock_millis s).1 ≡ some true
      → replied c (locked r t run msg s) ≡ ok resp
      → resp.status_code ≡ pos 200
      → (streamed_by r t run msg c s).error ≡ none
      → (run.decoded resp).items ≡ before ++ a ∷ after
      → Absent r t run msg (item_key t (made r t run msg a)) after
      → t.lock_key ≢ item_key t (made r t run msg a)
      → t.etag_key ≢ item_key t (made r t run msg a)
      → t.last_updated_key ≢ item_key t (made r t run msg a)
      → get (item_key t (made r t run msg a)) (refresh r t run msg c s).store
        ≡ t.marshal (made r t run msg a)
  unfolding refresh
  refresh-keeps c s resp before a after got h status no_error items absent lk ek uk =
      let key = item_key t (made r t run msg a) in
      let s' = locked r t run msg s in
      let o = refresh_locked r t run msg c s' in
      ground (
        arith,
        got,
        get-release_lock r t run msg key o lk,
        get-refresh_locked_item c s' resp before a after h status no_error items absent ek uk,
      )
