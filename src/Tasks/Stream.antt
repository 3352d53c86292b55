-- ===== src/Tasks/Stream.antt =====
-- `StreamIndustrySystems` and `StreamAdjustedPrices`: the request with its retries, and the loop
-- over the decoded items (internal/tasks/esi/refreshSystemIndexes.go,
-- internal/tasks/esi/refreshAdjustedPrices.go). The two functions differ in the path and in the
-- item, which are parameters here. What `gzip.NewReader` and the JSON decoder give is an event.
use eve_industry_planner_sta.Prelude.{
  ℕ, zero, suc, ◌+◌, ◌-◌, ◌*◌, ◌^◌, String, Bool, true, false, List, [], ◌∷◌, Option, none, some,
  if◌then◌else◌, str_eq,
}
use eve_industry_planner_sta.Prelude.Int.{ℤ, pos, eqb_ℤ}
use eve_industry_planner_sta.Esi.Client.{EsiClient}
use eve_industry_planner_sta.Esi.Feedback.{Response}
use eve_industry_planner_sta.Esi.Request.{
  EsiError, other, Events, Exchange, Result, ok, err, is_rate_limit_error, do_request,
}

-- What the attempts of one request leave: the client, the calls of `DoRequest`, the HTTP requests
-- sent, the waits between the calls in milliseconds, and the last result.
pub record Attempts : Type 0 where
  pub client : EsiClient
  pub calls : ℕ
  pub sent : ℕ
  pub waits : List ℕ
  pub result : Result Response

-- A result that no further attempt follows: a response, or a rate limit error.
unfoldable pub is_final : Result Response → Bool
is_final (ok resp) = true
is_final (err e) = is_rate_limit_error e

abbrev pub last_attempt : Exchange Response → Attempts
last_attempt x = record {
  client = x.client;
  calls = 1;
  sent = x.sent;
  waits = [];
  result = x.result;
}

abbrev pub earlier_attempt : Exchange Response → ℕ → Attempts → Attempts
earlier_attempt x wait rest = record {
  client = rest.client;
  calls = rest.calls + 1;
  sent = x.sent + rest.sent;
  waits = wait ∷ rest.waits;
  result = rest.result;
}

-- The wait after a failed attempt, with the random part `jitter`.
unfoldable pub retry_wait : ℕ → ℕ → ℕ
retry_wait attempt jitter = 500 * 2 ^ (attempt - 1) + jitter

module _ (events : ℕ → Events) (jitter : ℕ → ℕ) (path : String) where
  -- The loop from an attempt on; `left` is maxAttempts - attempt.
  unfoldable pub request_loop : ℕ → ℕ → EsiClient → Attempts
  request_loop zero attempt c = last_attempt (do_request (events attempt) path c)
  request_loop (suc left) attempt c =
      let x = do_request (events attempt) path c in
      let rest = request_loop left (attempt + 1) x.client in
      if is_final x.result
      then last_attempt x
      else earlier_attempt x (retry_wait attempt (jitter attempt)) rest

  -- maxAttempts is 4.
  unfoldable pub request_attempts : EsiClient → Attempts
  unfolding request_loop
  request_attempts c = request_loop 3 1 c

-- The first token of a body.
pub data Start : Type 0 where
  array_start another_token : Start
  bad_start : String → Start

-- What follows the items: the end of the array, or an error of `Decode` or of `Token`.
pub data Ending : Type 0 where
  array_end : Ending
  bad_end : String → Ending

pub record Decoded (A : Type 0) : Type 0 where
  pub body_text : String
  pub gzip_error : Option String
  pub start : Start
  pub items : List A
  pub ending : Ending

-- The results of the stream functions, less the number of bytes, which only a metric reads.
pub record Streamed : Type 0 where
  pub etag : String
  pub not_modified : Bool
  pub error : Option EsiError

module _ {A B S : Type 0} (normalize : ℤ → A → B) (on_item : B → S → S × Option String) where
  unfoldable pub stream_items : ℤ → List A → Ending → S → S × Option String
  stream_items now_ms [] array_end s = (s, none)
  stream_items now_ms [] (bad_end text) s = (s, some text)
  stream_items now_ms (item ∷ rest) ending s =
      let (s', e) = on_item (normalize now_ms item) s in
      let later = stream_items now_ms rest ending s' in
      elim e [ some text ↦ (s', some text) | none ↦ later ]

  -- From the first token on.
  unfoldable pub stream_array : ℤ → Start → List A → Ending → S → S × Option String
  stream_array now_ms (bad_start text) items ending s = (s, some text)
  stream_array now_ms another_token items ending s = (s, some "invalid JSON: expected array start")
  stream_array now_ms array_start items ending s = stream_items now_ms items ending s

  -- The error of the gzip reader, which is made only for a compressed body.
  unfoldable pub open_body : Response → Decoded A → Option String
  open_body resp d = if str_eq (resp.header "Content-Encoding") "gzip" then d.gzip_error else none

  unfoldable pub decode_body : ℤ → Response → Decoded A → S → S × Option String
  unfolding open_body
  decode_body now_ms resp d s = elim (open_body resp d) [
    | some text ↦ (s, some text)
    | none ↦ stream_array now_ms d.start d.items d.ending s
  ]

abbrev pub failed_with : Option String → Option EsiError
failed_with none = none
failed_with (some text) = some (other text)

module _ {A B S : Type 0} (normalize : ℤ → A → B) (on_item : B → S → S × Option String) where
  -- What is made of a response: 304 ends it, any status but 200 is an error with the body's text.
  unfoldable pub stream_response : ℤ → Response → Decoded A → S → S × Streamed
  unfolding decode_body
  stream_response now_ms resp d s =
      let etag = resp.header "ETag" in
      if eqb_ℤ resp.status_code (pos 304)
      then (s, record { etag = etag; not_modified = true; error = none })
      else if eqb_ℤ resp.status_code (pos 200)
      then (let (s', e) = decode_body normalize on_item now_ms resp d s in
          (s', record { etag = etag; not_modified = false; error = failed_with e }))
      else (s, record { etag = etag; not_modified = false; error = some (other d.body_text) })

  -- The stream function after its request loop.
  unfoldable pub stream_result : ℤ → Result Response → (Response → Decoded A) → S → S × Streamed
  unfolding stream_response
  stream_result now_ms (err e) decoded s =
      (s, record { etag = ""; not_modified = false; error = some e })
  stream_result now_ms (ok resp) decoded s = stream_response now_ms resp (decoded resp) s
