-- ===== src/Scheduler/Finished.antt =====
-- The end of a one-time job, and the start of the loop that fetches requests
-- (cmd/scheduler/handler.go).
use eve_industry_planner_sta.Prelude.{
  ℕ, String, ◌≡◌, ◌≢◌, refl, arith, true, false, List, [], ◌∷◌, Option, none, some, Bool-cases,
  Option-cases, inl, inr,
}
use eve_industry_planner_sta.Prelude.Dict.{lookup}
use eve_industry_planner_sta.Nats.{Call, ack, nak, term, in_progress, nak_with_delay}
use eve_industry_planner_sta.Nats.Streams.{
  JetStream, ensure_streams, Consumers, get_or_create_consumer,
}
use eve_industry_planner_sta.Nats.Ensured.{
  Serves, get_or_create_consumer-Serves, ensure_streams-again,
}
use eve_industry_planner_sta.Redis.{Redis}
use eve_industry_planner_sta.Scheduler.{
  JobFunc, OneTimeJob, State, one_time_job_key, answer, accept_request, process_schedule_request,
}
use eve_industry_planner_sta.Scheduler.Library.{Gocron}
use eve_industry_planner_sta.Scheduler.Turns.{FetchedRequest, receive_request, receive_requests}
use eve_industry_planner_sta.Scheduler.Registry.{
  scheduler_stream, scheduler_consumer, get_consumer, start,
}

module _ (js : JetStream) (cs : Consumers)
    (open_stream : String → js.Server → Option cs.Stream) where
  open js use {Server, stream}
  open cs use {Stream}

  get_consumer-Serves :
      (opened : Option Stream) (s : Stream)
      → get_consumer js cs open_stream opened ≡ some s
      → Serves cs scheduler_consumer s
  unfolding get_consumer
  get_consumer-Serves none s h = absurd (ground (arith, h))
  get_consumer-Serves (some opened) s h =
      elim (Bool-cases (get_or_create_consumer cs scheduler_consumer opened).1) [
        | inr failed ↦ absurd (ground (arith, failed, h))
        | inl got ↦
            let same : (get_or_create_consumer cs scheduler_consumer opened).0 ≡ s =
              ground (arith, got, h) in
            rw (← same) (get_or_create_consumer-Serves cs scheduler_consumer opened got)
      ]

  -- When the scheduler has started without error, its stream is found, and the consumer that it
  -- fetches from is the durable one of the scheduler, which delivers every message of the stream.
  pub start-Serves :
      (server : Server) (s : Stream)
      → (start js cs open_stream server).1 ≡ some s
      → (stream "SCHEDULER" (start js cs open_stream server).0 ≡ true)
        × Serves cs scheduler_consumer s
  unfolding start
  start-Serves server s h =
      elim (Option-cases (ensure_streams js (scheduler_stream ∷ []) server).1) [
        | inr (name, failed) ↦ absurd (ground (arith, failed, h))
        | inl ensured ↦ (
          (ensure_streams-again js (scheduler_stream ∷ []) server ensured).0.0,
          get_consumer-Serves _ s (rw (ensured, start) at h),
        )
      ]

module _ (r : Redis) (Handler : Type 0) (g : Gocron (JobFunc Handler))
    (marshal : OneTimeJob → Option String) (unmarshal : String → Option OneTimeJob) where
  open r use {Store, get, set, del}
  open g use {Jobs, scheduled, remove_job}

  -- What is left of a job that has ended, whose id led to `handle`.
  pub record Finished (job_id : String) (handle : ℕ) (s s' : State r Handler g marshal unmarshal)
      : Type 0 where
    pub untracked : lookup job_id s'.one_time_jobs ≡ none
    pub unscheduled : scheduled handle s'.jobs ≡ false
    pub forgotten : s.has_redis ≡ true → get (one_time_job_key job_id) s'.store ≡ none
    pub others :
        (other : String) (j : ℕ)
        → other ≢ job_id
        → lookup other s.one_time_jobs ≡ some j
        → (lookup other s'.one_time_jobs ≡ some j) × (scheduled j s'.jobs ≡ true)

  -- What may be said of one message, and of each message of a batch.
  pub data Answer (m : FetchedRequest) : List Call → Type 0 where
    acknowledged : m.request ≢ none → Answer m (in_progress ∷ ack ∷ [])
    given_back : Answer m (in_progress ∷ nak ∷ [])

  pub data Answers : List FetchedRequest → List (List Call) → Type 0 where
    all_answered : Answers [] []
    answered :
        {m : FetchedRequest} {rest : List FetchedRequest} {calls : List Call}
        {later : List (List Call)}
        → Answer m calls
        → Answers rest later
        → Answers (m ∷ rest) (calls ∷ later)

  process_schedule_request-answers :
      (m : FetchedRequest) (s : State r Handler g marshal unmarshal) (call : Call)
      → (process_schedule_request r Handler g marshal unmarshal m.received m.now m.then_now
          m.generated m.request s).1
        ≡ call
      → Answer m (in_progress ∷ call ∷ [])
  unfolding process_schedule_request accept_request answer
  process_schedule_request-answers m s ack h = acknowledged (λ missing. ground (arith, missing, h))
  process_schedule_request-answers m s nak h = given_back
  process_schedule_request-answers m s term h = absurd (ground (arith, h))
  process_schedule_request-answers m s in_progress h = absurd (ground (arith, h))
  process_schedule_request-answers m s (nak_with_delay d) h = absurd (ground (arith, h))

  -- Each message of a fetched batch is answered, in their order: first that it is in progress, then by
  -- one acknowledgement, or by giving it back. A message that does not parse is given back.
  pub receive_requests-Answers :
      (ms : List FetchedRequest) (s : State r Handler g marshal unmarshal)
      → Answers ms (receive_requests r Handler g marshal unmarshal ms s).1
  unfolding receive_requests receive_request
  receive_requests-Answers [] s = all_answered
  receive_requests-Answers (m ∷ rest) s =
      answered (process_schedule_request-answers m s _ refl) (receive_requests-Answers rest _)
