-- ===== src/Nats/Ensured.antt =====
-- What holds once the streams and the consumers are ensured (internal/core/nats/jetstream.go).
use eve_industry_planner_sta.Prelude.{
  ◌≡◌, ◌≢◌, refl, arith, inl, inr, String, true, false, List, [], ◌∷◌, Option, none, some,
  Bool-cases, eq_iff,
}
use eve_industry_planner_sta.Nats.Streams.{
  StreamConfig, JetStream, ensure_streams, ConsumerConfig, DeliverPolicy, deliver_all, deliver_last,
  same_policy, Consumers, needs_recreate, make_room, create_in, get_or_create_consumer,
}

module _ (js : JetStream) where
  open js use {Server, stream, create_stream}

  abbrev pub AllFound : List StreamConfig → Server → Type 0
  AllFound [] s = Unit
  AllFound (c ∷ rest) s = (stream c.name s ≡ true) × AllFound rest s

  -- No stream is lost.
  stream-ensure_streams :
      (name : String) (cs : List StreamConfig) (s : Server)
      → stream name s ≡ true
      → stream name (ensure_streams js cs s).0 ≡ true
  unfolding ensure_streams
  stream-ensure_streams name [] s h = h
  stream-ensure_streams name (c ∷ rest) s h =
      let kept = js.stream-create_stream_kept c name s h in
      ground (
        arith,
        kept,
        stream-ensure_streams name rest s h,
        stream-ensure_streams name rest (create_stream c s).0 kept,
      )

  ensure_streams-found :
      (cs : List StreamConfig) (s : Server) → AllFound cs s → ensure_streams js cs s ≡ (s, none)
  unfolding ensure_streams
  ensure_streams-found [] s h = refl
  ensure_streams-found (c ∷ rest) s (here, later) =
      ground (arith, ensure_streams-found rest s later)

  ensure_streams-AllFound :
      (cs : List StreamConfig) (s : Server)
      → (ensure_streams js cs s).1 ≡ none
      → AllFound cs (ensure_streams js cs s).0
  unfolding ensure_streams
  ensure_streams-AllFound [] s h = tt
  ensure_streams-AllFound (c ∷ rest) s h = elim (Bool-cases (stream c.name s)) [
    | inl there ↦
        rw (there, ensure_streams)
          (
            stream-ensure_streams c.name rest s there,
            ensure_streams-AllFound rest s (rw (there, ensure_streams) at h),
          )
    | inr missing ↦ elim (Bool-cases (create_stream c s).1) [
      | inr failed ↦ absurd (ground (arith, missing, failed, h))
      | inl made ↦
          rw (missing, made, ensure_streams)
            (
              stream-ensure_streams c.name rest (create_stream c s).0
                  (js.stream-create_stream c s made),
              ensure_streams-AllFound rest (create_stream c s).0
                  (rw (missing, made, ensure_streams) at h),
            )
    ]
  ]

  -- Once the streams are ensured without error, each of them is found, and to ensure them again
  -- changes nothing.
  pub ensure_streams-again :
      (cs : List StreamConfig) (s : Server)
      → (ensure_streams js cs s).1 ≡ none
      → AllFound cs (ensure_streams js cs s).0
        × (ensure_streams js cs (ensure_streams js cs s).0 ≡ ((ensure_streams js cs s).0, none))
  ensure_streams-again cs s h =
      let found = ensure_streams-AllFound cs s h in
      (found, ensure_streams-found cs (ensure_streams js cs s).0 found)

same_policy-eq : (p q : DeliverPolicy) → same_policy p q ≡ true → p ≡ q
unfolding same_policy
same_policy-eq deliver_all deliver_all h = refl
same_policy-eq deliver_all deliver_last h = absurd (ground arith)
same_policy-eq deliver_last deliver_all h = absurd (ground arith)
same_policy-eq deliver_last deliver_last h = refl

module _ (cs : Consumers) where
  open cs use {Stream, consumer, create_consumer}

  -- A consumer whose immutable settings are those asked for.
  pub record Serves (wanted : ConsumerConfig) (s : Stream) : Type 0 where
    pub info : ConsumerConfig
    pub there : consumer wanted.durable s ≡ some (some info)
    pub policy : info.deliver_policy ≡ wanted.deliver_policy
    pub subject : info.filter_subject ≡ wanted.filter_subject

  created-Serves :
      (wanted : ConsumerConfig) (s : Stream)
      → (create_consumer wanted s).1 ≡ true
      → Serves wanted (create_consumer wanted s).0
  created-Serves wanted s made = record {
    info = wanted;
    there = cs.consumer-create_consumer wanted s made;
    policy = refl;
    subject = refl;
  }

  kept-Serves :
      (wanted info : ConsumerConfig) (s : Stream)
      → consumer wanted.durable s ≡ some (some info)
      → needs_recreate info wanted ≡ false
      → Serves wanted s
  unfolding needs_recreate
  kept-Serves wanted info s there same = record {
    info = info;
    there = there;
    policy = same_policy-eq info.deliver_policy wanted.deliver_policy (ground arith);
    subject = ground (arith, eq_iff info.filter_subject wanted.filter_subject);
  }

  create_in-Serves :
      (wanted : ConsumerConfig) (found : Option (Option ConsumerConfig)) (s : Stream)
      → consumer wanted.durable s ≡ found
      → (create_in cs wanted (make_room cs wanted found s) s).1 ≡ true
      → Serves wanted (create_in cs wanted (make_room cs wanted found s) s).0
  unfolding create_in make_room
  create_in-Serves wanted none s there h = created-Serves wanted s h
  create_in-Serves wanted (some none) s there h = created-Serves wanted _ h
  create_in-Serves wanted (some (some info)) s there h =
      elim (Bool-cases (needs_recreate info wanted)) [
        | inl differs ↦
            rw (differs, make_room)
              (created-Serves wanted _ (rw (differs, make_room, create_in) at h))
        | inr same ↦ rw (same, make_room) (kept-Serves wanted info s there same)
      ]

  -- Other consumers stay as they are.
  pub get_or_create_consumer-others :
      (wanted : ConsumerConfig) (name : String) (s : Stream)
      → wanted.durable ≢ name
      → consumer name (get_or_create_consumer cs wanted s).0 ≡ consumer name s
  unfolding get_or_create_consumer make_room create_in
  get_or_create_consumer-others wanted name s differs =
      let deleted = cs.consumer-delete_consumer_ne wanted.durable name s differs in
      ground (
        arith,
        deleted,
        cs.consumer-create_consumer_ne wanted name s differs,
        cs.consumer-create_consumer_ne wanted name (cs.delete_consumer wanted.durable s).0 differs,
      )

  -- A consumer that was got or made without error delivers what was asked for, under the durable
  -- name asked for: by the same policy, and of the same subject.
  pub get_or_create_consumer-Serves :
      (wanted : ConsumerConfig) (s : Stream)
      → (get_or_create_consumer cs wanted s).1 ≡ true
      → Serves wanted (get_or_create_consumer cs wanted s).0
  unfolding get_or_create_consumer
  get_or_create_consumer-Serves wanted s h =
      create_in-Serves wanted (consumer wanted.durable s) s refl h
