-- ===== src/Tasks/Refresh.antt =====
-- `RefreshSystemIndexes` and `RefreshAdjustedPrices` (internal/tasks/esi/refreshSystemIndexes.go,
-- internal/tasks/esi/refreshAdjustedPrices.go): one handler with the keys, the path and the item
-- as parameters. An event of a run holds its readings of the clock and what the server answers.
use eve_industry_planner_sta.Prelude.{
  ℕ, ◌+◌, String, Bool, true, false, List, [], ◌∷◌, ◌++◌, Option, none, some, if◌then◌else◌,
}
use eve_industry_planner_sta.Prelude.Int.{ℤ, pos, ◌-ℤ◌, ltb_ℤ, leb_ℤ}
use eve_industry_planner_sta.Esi.Client.{EsiClient}
use eve_industry_planner_sta.Esi.Feedback.{Response}
use eve_industry_planner_sta.Esi.Request.{EsiError, rate_limited, other, Events}
use eve_industry_planner_sta.Nats.{Call, ack, in_progress, nak_with_delay, nack_with_backoff}
use eve_industry_planner_sta.Redis.{
  Redis, save_item, save_etag, save_last_updated, acquire_refresh_lock,
}
use eve_industry_planner_sta.Tasks.Stream.{
  Attempts, Decoded, Streamed, request_attempts, stream_result,
}

-- What the two handlers differ in. `marshal` is `json.Marshal`, `none` where it fails.
pub record Task (A B : Type 0) : Type 0 where
  pub lock_key : String
  pub etag_key : String
  pub last_updated_key : String
  pub item_prefix : String
  pub path : String
  pub normalize : ℤ → A → B
  pub id : B → ℤ
  pub marshal : B → Option String

-- `request` is what one attempt meets, by the ETag sent and the attempt. The clock is read after
-- each item, by the number of items saved: for the test of the heartbeat and for the new start.
-- `delayed` tells whether `NakWithDelay` succeeds, `save_error` is the text of a failed save.
pub record Run (A : Type 0) : Type 0 where
  pub lock_millis : ℤ
  pub started : ℤ
  pub request : String → ℕ → Events
  pub jitter : ℕ → ℕ
  pub decoded : Response → Decoded A
  pub decode_millis : ℤ
  pub item_at : ℕ → ℤ × ℤ
  pub error_at : ℤ
  pub delayed : Bool
  pub save_error : String
  pub updated_millis : ℤ

-- A message is its number of deliveries; the handlers also run without one.
abbrev pub Message : Type 0
Message = Option ℕ

-- What a handler says of the message, if there is one.
unfoldable pub say : Message → Call → List Call
say none call = []
say (some n) call = call ∷ []

unfoldable pub nack : Message → List Call
nack none = []
nack (some n) = nack_with_backoff n ∷ []

-- A retryable rate limit error delays the message until then, if that lies ahead.
unfoldable pub delay_message : Message → Bool → ℤ → List Call
delay_message none delayed wait = []
delay_message (some n) delayed wait =
    if ltb_ℤ (pos 0) wait
    then nak_with_delay wait ∷ (if delayed then [] else nack_with_backoff n ∷ [])
    else nack_with_backoff n ∷ []

unfoldable pub on_stream_error : Message → Bool → ℤ → EsiError → List Call
on_stream_error msg delayed now (other text) = nack msg
on_stream_error msg delayed now (rate_limited e) =
    if e.retryable then delay_message msg delayed (e.retry_after -ℤ now) else nack msg

-- What the stream's callback keeps.
pub record Progress (S : Type 0) : Type 0 where
  pub store : S
  pub count : ℕ
  pub last_progress : ℤ
  pub calls : List Call

-- What a refresh leaves, with all that it said of its message, in order.
pub record Outcome (S : Type 0) : Type 0 where
  pub client : EsiClient
  pub store : S
  pub calls : List Call

-- A progress report, at most every five seconds.
unfoldable pub report_progress : {S : Type 0} → Message → ℤ × ℤ → Progress S → Progress S
report_progress none at p = p
report_progress (some n) (now, again) p =
    if leb_ℤ (pos 5_000_000_000) (now -ℤ p.last_progress)
    then record p { calls = p.calls ++ in_progress ∷ []; last_progress = again }
    else p

module _ (r : Redis) {A B : Type 0} (t : Task A B) (run : Run A) (msg : Message) where
  open r use {Store, get, del}

  -- The callback of the stream: an item that cannot be saved ends the stream.
  unfoldable pub on_item : B → Progress Store → Progress Store × Option String
  unfolding report_progress
  on_item b p =
      let (store, saved) = save_item r t.item_prefix (t.id b) (t.marshal b) p.store in
      if saved
      then (
        report_progress msg (run.item_at (p.count + 1))
            (record p { store = store; count = p.count + 1 }),
        none,
      )
      else (record p { store = store }, some run.save_error)

  -- After a stream without error that was not ended by a 304: the ETag, then the time.
  unfoldable pub save_results : String → Store → Store × List Call
  save_results etag s =
      let (s1, etag_saved) = save_etag r t.etag_key etag s in
      let (s2, time_saved) = save_last_updated r t.last_updated_key run.updated_millis s1 in
      if etag_saved then (s2, if time_saved then say msg ack else nack msg) else (s1, nack msg)

  unfoldable pub conclude : Streamed → Store → Store × List Call
  unfolding save_results
  conclude streamed s = elim streamed.error [
    | some e ↦ (s, on_stream_error msg run.delayed run.error_at e)
    | none ↦ if streamed.not_modified then (s, say msg ack) else save_results streamed.etag s
  ]

  -- The stored ETag; a failed read counts as none.
  unfoldable pub previous_etag : Store → String
  previous_etag s = elim (get t.etag_key s) [ none ↦ "" | some etag ↦ etag ]

  unfoldable pub first_progress : Store → Progress Store
  first_progress s = record {
    store = s;
    count = 0;
    last_progress = run.started;
    calls = say msg in_progress;
  }

  -- The stream with its callback.
  unfoldable pub run_stream : EsiClient → Store → Attempts × Progress Store × Streamed
  unfolding first_progress
  run_stream c s =
      let tried = request_attempts (run.request (previous_etag s)) run.jitter t.path c in
      let (p, streamed) =
        stream_result t.normalize on_item run.decode_millis tried.result run.decoded
          (first_progress s) in
      (tried, p, streamed)

  -- The handler while it holds the lock.
  unfoldable pub refresh_locked : EsiClient → Store → Outcome Store
  unfolding run_stream conclude
  refresh_locked c s =
      let (tried, p, streamed) = run_stream c s in
      let (s', said) = conclude streamed p.store in
      record { client = tried.client; store = s'; calls = p.calls ++ said }

  -- The deferred release of the lock. That it fails is not noticed.
  unfoldable pub release_lock : Outcome Store → Outcome Store
  release_lock o = record o { store = (del t.lock_key o.store).0 }

  unfoldable pub refresh : EsiClient → Store → Outcome Store
  unfolding refresh_locked
  refresh c s =
      let (s', lock) = acquire_refresh_lock r t.lock_key run.lock_millis s in
      elim lock [
        | none ↦ record { client = c; store = s'; calls = say msg ack }
        | some false ↦ record { client = c; store = s'; calls = say msg ack }
        | some true ↦ release_lock (refresh_locked c s')
      ]
