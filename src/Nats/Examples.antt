-- ===== src/Nats/Examples.antt =====
-- The NATS helpers at concrete inputs (internal/core/nats).
use eve_industry_planner_sta.Prelude.{
  ℕ, ◌*◌, ◌<◌, ◌≤◌, ◌≡◌, ◌≢◌, refl, arith, Bool, true, false, leb, List, [], ◌∷◌, Option, none,
  some, String, str_eq, eq_iff, ◌||◌, if◌then◌else◌,
}
use eve_industry_planner_sta.Prelude.Int.{pos}
use eve_industry_planner_sta.Nats.Streams.{JetStream, ConsumerConfig, Consumers}
use eve_industry_planner_sta.Nats.{term, nak_with_delay, nack_with_backoff, connect}
use eve_industry_planner_sta.Nats.Settling.{backoff_seconds, nack_with_backoff_lem}
use eve_industry_planner_sta.Nats.Retry.{connect_attempts}

nack_with_backoff_lem_example :
    (5 ≤ 3 → nack_with_backoff 3 ≡ term)
    × (0 < 3
        → 3 < 5
        → (nack_with_backoff 3 ≡ nak_with_delay (pos (backoff_seconds 3 * 1_000_000_000)))
          × (backoff_seconds 3 ≤ 8))
    × (nack_with_backoff 0 ≡ nak_with_delay (pos 0))
nack_with_backoff_lem_example = nack_with_backoff_lem 3

-- The server is there at the fourth attempt.
abbrev late : ℕ → Bool
late n = leb 3 n

connect_attempts_example : connect late ≡ (
    if late 0
    then (true, 1)
    else if late 1
    then (true, 2)
    else if late 2
    then (true, 3)
    else (false, 3))
connect_attempts_example = connect_attempts late

-- A server that has streams by name.
unfoldable pub has_stream : String → List String → Bool
has_stream name [] = false
has_stream name (n ∷ rest) = str_eq n name || has_stream name rest

pub has_stream-made : (name : String) (s : List String) → has_stream name (name ∷ s) ≡ true
unfolding has_stream
has_stream-made name s = ground (arith, eq_iff name name)

pub has_stream-kept :
    (made name : String) (s : List String)
    → has_stream name s ≡ true
    → has_stream name (made ∷ s) ≡ true
unfolding has_stream
has_stream-kept made name s h = ground (arith, h)

abbrev pub named_streams : JetStream
named_streams = record {
  Server = List String;
  stream = has_stream;
  create_stream = λ c s. (c.name ∷ s, true);
  stream-create_stream = λ c s h. has_stream-made c.name s;
  stream-create_stream_kept = λ c name s h. has_stream-kept c.name name s h;
}

-- A stream with the configurations of its consumers.
unfoldable pub find_consumer : String → List ConsumerConfig → Option (Option ConsumerConfig)
find_consumer name [] = none
find_consumer name (c ∷ rest) =
    if str_eq c.durable name then some (some c) else find_consumer name rest

pub find_consumer-made :
    (c : ConsumerConfig) (s : List ConsumerConfig) → find_consumer c.durable (c ∷ s) ≡ some (some c)
unfolding find_consumer
find_consumer-made c s = ground (arith, eq_iff c.durable c.durable)

pub without : String → List ConsumerConfig → List ConsumerConfig
without name [] = []
without name (c ∷ rest) =
    let others = without name rest in if str_eq c.durable name then others else c ∷ others

pub find_consumer-made_ne :
    (c : ConsumerConfig) (name : String) (s : List ConsumerConfig)
    → c.durable ≢ name
    → find_consumer name (c ∷ s) ≡ find_consumer name s
unfolding find_consumer
find_consumer-made_ne c name s differs = ground (arith, eq_iff c.durable name, differs)

pub find_consumer-without_ne :
    (deleted name : String) (s : List ConsumerConfig)
    → deleted ≢ name
    → find_consumer name (without deleted s) ≡ find_consumer name s
unfolding find_consumer without
find_consumer-without_ne deleted name [] differs = refl
find_consumer-without_ne deleted name (c ∷ rest) differs = ground (
  arith,
  find_consumer-without_ne deleted name rest differs,
  eq_iff c.durable name,
  eq_iff c.durable deleted,
  differs,
)

abbrev pub listed_consumers : Consumers
listed_consumers = record {
  Stream = List ConsumerConfig;
  consumer = find_consumer;
  delete_consumer = λ name s. (without name s, true);
  create_consumer = λ c s. (c ∷ s, true);
  consumer-create_consumer = λ c s h. find_consumer-made c s;
  consumer-create_consumer_ne = find_consumer-made_ne;
  consumer-delete_consumer_ne = find_consumer-without_ne;
}
