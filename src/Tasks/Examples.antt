-- ===== src/Tasks/Examples.antt =====
-- The refresh of the adjusted prices on a store in memory, and the theorems about it there
-- (internal/tasks/esi/refreshAdjustedPrices.go, internal/core/redis/redis.go).
mod Runs
mod Items
use eve_industry_planner_sta.Prelude.{
  ℕ, zero, suc, ◌+◌, ◌≤◌, ◌<◌, ◌≡◌, ◌≢◌, refl, sym, ◌∙◌, inl, inr, arith, String, Bool, true, false,
  List, [], ◌∷◌, Option, none, some, str_eq, eq_iff, Option-cases, if◌then◌else◌, ltb, ◌||◌,
}
use text.Mathlib.TextPositions.{eq_refl}
use eve_industry_planner_sta.Prelude.Int.{ℤ, pos, ◌-ℤ◌}
use eve_industry_planner_sta.Prelude.Dict.{
  Dict, lookup, insert, delete, lookup-insert, lookup-insert_self, lookup-delete,
}
use eve_industry_planner_sta.Redis.{Redis, acquire_refresh_lock}
use eve_industry_planner_sta.Esi.Feedback.{Response}
use eve_industry_planner_sta.Esi.Request.{
  EsiError, Reply, failed, responded, Events, is_rate_limit_error, do_request, ok,
}
use eve_industry_planner_sta.Esi.Examples.Calls.{start, events}
use eve_industry_planner_sta.Nats.{ack, nack_with_backoff}
use eve_industry_planner_sta.Tasks.Stream.{
  Decoded, array_start, array_end, request_attempts, is_final,
}
use eve_industry_planner_sta.Tasks.Items.{EsiAdjustedPrice, AdjustedPrice, adjusted_prices_task}
use eve_industry_planner_sta.Tasks.Refresh.{Task, Run, run_stream, refresh, say}
use eve_industry_planner_sta.Tasks.Attempts.{total, request_attempts-bounds, request_attempts-ends}
use eve_industry_planner_sta.Tasks.Settled.{
  settling, both_saved, Delays, delayed_calls, refresh-settles,
}
use eve_industry_planner_sta.Tasks.Excluded.{
  locked, streamed_by, refresh-excluded, refresh-fruitless,
}
use eve_industry_planner_sta.Tasks.RoundTrip.{refresh-keeps}

-- A store in memory, whose writes all succeed.
unfoldable pub set_if_absent :
    String → String → Option String → Dict String → Dict String × Option Bool
set_if_absent key value none m = (insert key value m, some true)
set_if_absent key value (some held) m = (m, some false)

unfoldable pub set_nx_dict : String → String → Dict String → Dict String × Option Bool
unfolding set_if_absent
set_nx_dict key value m = set_if_absent key value (lookup key m) m

set_nx_dict_refuses :
    (k v w : String) (m : Dict String) → lookup k m ≡ some w → set_nx_dict k v m ≡ (m, some false)
unfolding set_nx_dict
set_nx_dict_refuses k v w m h = rw h

-- A write leaves the other keys as they are.
pub lookup-insert_ne :
    (k j v : String) (m : Dict String) → k ≢ j → lookup j (insert k v m) ≡ lookup j m
lookup-insert_ne k j v m h = ground (arith, lookup-insert m j k v, eq_iff j k)

pub lookup-set_nx_dict :
    (k v : String) (m : Dict String)
    → (set_nx_dict k v m).1 ≡ some true
    → lookup k (set_nx_dict k v m).0 ≡ some v
unfolding set_nx_dict
lookup-set_nx_dict k v m h = ground (arith, lookup-insert_self k v m)

pub lookup-set_nx_dict_ne :
    (k j v : String) (m : Dict String) → k ≢ j → lookup j (set_nx_dict k v m).0 ≡ lookup j m
unfolding set_nx_dict
lookup-set_nx_dict_ne k j v m h = ground (arith, lookup-insert_ne k j v m h)

pub set_nx_dict-held :
    (k v w : String) (m : Dict String) → lookup k m ≡ some w → (set_nx_dict k v m).1 ≢ some true
set_nx_dict-held k v w m h e = ground (arith, set_nx_dict_refuses k v w m h)

pub lookup-set_nx_dict_held :
    (k v w : String) (m : Dict String)
    → lookup k m ≡ some w
    → lookup k (set_nx_dict k v m).0 ≡ some w
lookup-set_nx_dict_held k v w m h = rw (set_nx_dict_refuses k v w m h) h

pub lookup-delete_ne : (k j : String) (m : Dict String) → k ≢ j → lookup j (delete k m) ≡ lookup j m
lookup-delete_ne k j m h = ground (arith, lookup-delete m j k, eq_iff j k)

abbrev pub dict_store : Redis
dict_store = record {
  Store = Dict String;
  get = lookup;
  set = λ k v m. (insert k v m, true);
  set_nx = set_nx_dict;
  del = λ k m. (delete k m, true);
  get-set = λ k v m h. lookup-insert_self k v m;
  get-set_ne = lookup-insert_ne;
  get-set_nx = lookup-set_nx_dict;
  get-set_nx_ne = lookup-set_nx_dict_ne;
  set_nx-held = set_nx_dict-held;
  get-set_nx_held = lookup-set_nx_dict_held;
  get-del = λ k m h. rw (lookup-delete m k k, eq_refl);
  get-del_ne = lookup-delete_ne;
}

abbrev pub prices_task : Task (EsiAdjustedPrice ℕ) (AdjustedPrice ℕ)
prices_task = adjusted_prices_task (λ p. some (if ltb p.adjusted_price 100 then "low" else "high"))

abbrev pub price : ℕ → ℕ → EsiAdjustedPrice ℕ
price id cost = record { type_id = pos id; adjusted_price = cost; average_price = 0 }

-- Type 34 comes twice.
abbrev pub prices : Decoded (EsiAdjustedPrice ℕ)
prices = record {
  body_text = "";
  gzip_error = none;
  start = array_start;
  items = price 34 500 ∷ price 34 6 ∷ price 35 12 ∷ [];
  ending = array_end;
}

abbrev pub ok_response : Response
ok_response = record { status_code = pos 200; header = λ k. if str_eq k "ETag" then "v2" else "" }

-- A run in which each request meets this reply.
abbrev pub run : Reply → Run (EsiAdjustedPrice ℕ)
run reply = record {
  lock_millis = pos 1000;
  started = pos 0;
  request = λ etag attempt. events reply;
  jitter = λ attempt. 50;
  decoded = λ resp. prices;
  decode_millis = pos 1001;
  item_at = λ count. (pos 6_000_000_000, pos 6_000_000_001);
  error_at = pos 0;
  delayed = true;
  save_error = "lost";
  updated_millis = pos 2000;
}

request_attempts-bounds_example :
    ((request_attempts (λ k. events (failed "timeout")) (λ k. 99) "/v1/markets/prices/" start).sent
      ≤ (request_attempts
          (λ k. events (failed "timeout"))
          (λ k. 99)
          "/v1/markets/prices/"
          start).calls)
    × ((request_attempts
          (λ k. events (failed "timeout"))
          (λ k. 99)
          "/v1/markets/prices/"
          start).calls
        ≤ 4)
    × (total
          (request_attempts
            (λ k. events (failed "timeout"))
            (λ k. 99)
            "/v1/markets/prices/"
            start).waits
        ≤ 3800)
request_attempts-bounds_example =
    request_attempts-bounds (λ k. events (failed "timeout")) (λ k. 99) "/v1/markets/prices/"
      (λ k. omega arith) start

-- A refresh whose message cannot be delayed.
refresh-settles_example :
    let t = prices_task in
    let unlucky = record (run (responded ok_response)) { delayed = false } in
    let got = (acquire_refresh_lock dict_store t.lock_key unlucky.lock_millis []).1 in
    let streamed = streamed_by dict_store t unlucky (some 1) start [] in
    let before = locked dict_store t unlucky (some 1) [] in
    let after = (run_stream dict_store t unlucky (some 1) start before).1.store in
    let settled = settling (refresh dict_store t unlucky (some 1) start []).calls in
    (got ≢ some true → settled ≡ ack ∷ [])
    × (got ≡ some true
        → streamed.error ≡ none
        → settled ≡ (
            if streamed.not_modified || both_saved dict_store t unlucky streamed after
            then ack ∷ []
            else nack_with_backoff 1 ∷ []))
    × ((e : EsiError) (wait : ℤ)
        → got ≡ some true
        → streamed.error ≡ some e
        → Delays unlucky.error_at e wait
        → settled ≡ delayed_calls 1 false wait)
    × ((e : EsiError)
        → got ≡ some true
        → streamed.error ≡ some e
        → ((wait : ℤ) → ¬ Delays unlucky.error_at e wait)
        → settled ≡ nack_with_backoff 1 ∷ [])
refresh-settles_example =
    refresh-settles dict_store prices_task
      (record (run (responded ok_response)) { delayed = false }) 1 start []

abbrev pub held_store : Dict String
held_store = ("esi:market_prices:refresh_lock", "900") ∷ []

held_store_held : lookup "esi:market_prices:refresh_lock" held_store ≡ some "900"
unfolding lookup
held_store_held = refl

refresh-excluded_example :
    ((refresh dict_store prices_task (run (responded ok_response)) (some 1) start held_store).client
      ≡ start)
    × ((refresh dict_store prices_task
          (run (responded ok_response))
          (some 1)
          start
          held_store).calls
        ≡ say (some 1) ack)
    × ((key : String)
        → lookup key
            (refresh dict_store prices_task
              (run (responded ok_response))
              (some 1)
              start
              held_store).store
          ≡ lookup key held_store)
refresh-excluded_example =
    refresh-excluded dict_store prices_task (run (responded ok_response)) (some 1) "900" start
      held_store held_store_held
