-- ===== src/Nats/Streams.antt =====
-- The streams and the consumers (internal/core/nats/jetstream.go), over the server, of which a
-- record holds the calls in use and what its documentation says of them.
use eve_industry_planner_sta.Prelude.{
  ◌≡◌, ◌≢◌, String, Bool, true, false, List, [], ◌∷◌, Option, none, some, not, ◌||◌, if◌then◌else◌,
  str_eq,
}
use eve_industry_planner_sta.Prelude.Int.{ℤ}

pub record StreamConfig : Type 0 where
  pub name : String
  pub subjects : List String
  pub max_age : ℤ

-- `Stream` finds a stream, or fails. `CreateStream` makes one: a stream that was made is found, and
-- no other is lost.
pub record JetStream : Type 1 where
  pub Server : Type 0
  pub stream : String → Server → Bool
  pub create_stream : StreamConfig → Server → Server × Bool
  pub stream-create_stream :
      (c : StreamConfig) (s : Server)
      → (create_stream c s).1 ≡ true
      → stream c.name (create_stream c s).0 ≡ true
  pub stream-create_stream_kept :
      (c : StreamConfig) (name : String) (s : Server)
      → stream name s ≡ true
      → stream name (create_stream c s).0 ≡ true

module _ (js : JetStream) where
  open js use {Server, stream, create_stream}

  -- The name of the stream that could not be made, if any; the ones after it are left alone.
  unfoldable pub ensure_streams : List StreamConfig → Server → Server × Option String
  ensure_streams [] s = (s, none)
  ensure_streams (c ∷ rest) s =
      let skipped = ensure_streams rest s in
      let (s', made) = create_stream c s in
      let later = ensure_streams rest s' in
      if stream c.name s then skipped else if made then later else (s', some c.name)

-- The policies in use.
pub data DeliverPolicy : Type 0 where
  deliver_all deliver_last : DeliverPolicy

unfoldable pub same_policy : DeliverPolicy → DeliverPolicy → Bool
same_policy deliver_all deliver_all = true
same_policy deliver_all deliver_last = false
same_policy deliver_last deliver_all = false
same_policy deliver_last deliver_last = true

pub record ConsumerConfig : Type 0 where
  pub durable : String
  pub filter_subject : String
  pub deliver_policy : DeliverPolicy

-- A stream's consumers. `consumer` is `none` where it is not found, or the read fails, and
-- `some none` where the configuration is not cached. A consumer that was made has the configuration
-- that was asked for, and no operation touches another.
pub record Consumers : Type 1 where
  pub Stream : Type 0
  pub consumer : String → Stream → Option (Option ConsumerConfig)
  pub delete_consumer : String → Stream → Stream × Bool
  pub create_consumer : ConsumerConfig → Stream → Stream × Bool
  pub consumer-create_consumer :
      (c : ConsumerConfig) (s : Stream)
      → (create_consumer c s).1 ≡ true
      → consumer c.durable (create_consumer c s).0 ≡ some (some c)
  pub consumer-create_consumer_ne :
      (c : ConsumerConfig) (name : String) (s : Stream)
      → c.durable ≢ name
      → consumer name (create_consumer c s).0 ≡ consumer name s
  pub consumer-delete_consumer_ne :
      (deleted name : String) (s : Stream)
      → deleted ≢ name
      → consumer name (delete_consumer deleted s).0 ≡ consumer name s

unfoldable pub needs_recreate : ConsumerConfig → ConsumerConfig → Bool
unfolding same_policy
needs_recreate info wanted =
    not (same_policy info.deliver_policy wanted.deliver_policy)
    || not (str_eq info.filter_subject wanted.filter_subject)

module _ (cs : Consumers) where
  open cs use {Stream, consumer, delete_consumer, create_consumer}

  -- The stream for the new consumer: an old one that cannot be used is deleted, and that the
  -- deletion fails is not noticed. `none` keeps the old consumer.
  unfoldable pub make_room :
      ConsumerConfig → Option (Option ConsumerConfig) → Stream → Option Stream
  make_room wanted none s = some s
  make_room wanted (some none) s = some (delete_consumer wanted.durable s).0
  make_room wanted (some (some info)) s =
      if needs_recreate info wanted then some (delete_consumer wanted.durable s).0 else none

  unfoldable pub create_in : ConsumerConfig → Option Stream → Stream → Stream × Bool
  create_in wanted none s = (s, true)
  create_in wanted (some room) s = create_consumer wanted room

  -- Whether there is a consumer afterwards.
  unfoldable pub get_or_create_consumer : ConsumerConfig → Stream → Stream × Bool
  unfolding make_room create_in
  get_or_create_consumer wanted s =
      create_in wanted (make_room wanted (consumer wanted.durable s) s) s
