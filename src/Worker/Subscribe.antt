-- ===== src/Worker/Subscribe.antt =====
-- The consumers of the worker service (cmd/worker/subscriber.go, cmd/worker/esiSubscribers.go).
use eve_industry_planner_sta.Prelude.{
  ◌≡◌, ◌≢◌, ◌∙◌, arith, String, Option, none, some, Bool-cases, inl, inr, eq_iff, if◌then◌else◌,
}
use eve_industry_planner_sta.Nats.Streams.{
  ConsumerConfig, deliver_last, Consumers, get_or_create_consumer,
}
use eve_industry_planner_sta.Nats.Ensured.{
  Serves, get_or_create_consumer-Serves, get_or_create_consumer-others,
}

pub record SubscriberConfig : Type 0 where
  pub subject : String
  pub consumer_name : String
  pub stream_name : String

unfoldable pub consumer_config : SubscriberConfig → ConsumerConfig
consumer_config config = record {
  durable = config.consumer_name;
  filter_subject = config.subject;
  deliver_policy = deliver_last;
}

abbrev pub system_indexes_subscriber : SubscriberConfig
system_indexes_subscriber = record {
  subject = "refreshSystemIndexes";
  consumer_name = "worker-system-indexes";
  stream_name = "ESI_REFRESH";
}

abbrev pub adjusted_prices_subscriber : SubscriberConfig
adjusted_prices_subscriber = record {
  subject = "refreshAdjustedPrices";
  consumer_name = "worker-adjusted-prices";
  stream_name = "ESI_REFRESH";
}

module _ (cs : Consumers) where
  open cs use {Stream, consumer}

  -- `SubscribeToSubject` on the stream that is found, if it is: the stream with the consumer that the
  -- loop fetches from, unless it fails.
  unfoldable pub subscribe_to_subject : SubscriberConfig → Option Stream → Option Stream
  unfolding consumer_config
  subscribe_to_subject config none = none
  subscribe_to_subject config (some stream) =
      let (stream', got) = get_or_create_consumer cs (consumer_config config) stream in
      if got then some stream' else none

  unfoldable pub subscribe_system_indexes : Option Stream → Option Stream
  subscribe_system_indexes stream = subscribe_to_subject system_indexes_subscriber stream

  unfoldable pub subscribe_adjusted_prices : Option Stream → Option Stream
  subscribe_adjusted_prices stream = subscribe_to_subject adjusted_prices_subscriber stream

  subscribe_to_subject-Serves :
      (config : SubscriberConfig) (stream after : Stream)
      → subscribe_to_subject config (some stream) ≡ some after
      → Serves cs (consumer_config config) after
        × ((name : String)
            → config.consumer_name ≢ name
            → consumer name after ≡ consumer name stream)
  unfolding subscribe_to_subject consumer_config
  subscribe_to_subject-Serves config stream after h =
      let got = (get_or_create_consumer cs (consumer_config config) stream) in
      elim (Bool-cases got.1) [
        | inr failed ↦ absurd (ground (arith, failed, h))
        | inl ok ↦
            let same : got.0 ≡ after = ground (arith, ok, h) in
            rw (← same) (
              get_or_create_consumer-Serves cs (consumer_config config) stream ok,
              (λ name differs.
                  get_or_create_consumer-others cs (consumer_config config) name stream differs),
            )
      ]

  -- When both refreshes are subscribed to without error, one after the other on the same stream, each
  -- has its own durable consumer, which delivers the last message and what follows, of the subject of
  -- its refresh alone.
  pub both-Serve :
      (stream middle after : Stream)
      → subscribe_system_indexes (some stream) ≡ some middle
      → subscribe_adjusted_prices (some middle) ≡ some after
      → Serves cs (consumer_config system_indexes_subscriber) after
        × Serves cs (consumer_config adjusted_prices_subscriber) after
  unfolding subscribe_system_indexes subscribe_adjusted_prices consumer_config
  both-Serve stream middle after first second =
      let one = (subscribe_to_subject-Serves system_indexes_subscriber stream middle first).0 in
      let (two, others) =
        subscribe_to_subject-Serves adjusted_prices_subscriber middle after second in
      (
        record {
          info = one.info;
          there =
              others "worker-system-indexes"
                (λ e. ground (arith, eq_iff "worker-adjusted-prices" "worker-system-indexes", e))
              ∙ one.there;
          policy = one.policy;
          subject = one.subject;
        },
        two,
      )
