-- ===== src/Simulator/Publisher.antt =====
-- simulator/publisher/grpc_publisher.py. Floats, pybloom's scalable filter and the wait for the channel
-- are parameters, and the answers of the ingestion service are arbitrary. Coroutines take turns at the
-- `await`s: a flush that waits for an answer, or between two attempts, is a `Flight`. Each Prometheus
-- counter that is raised together with a field of the object stands for that field.
pub mod Conserved
use distrosense.Base.{
  select, ◌≡◌, ℕ, zero, suc, ◌+◌, String, Bool, true, false, Option, none, some, List, [], ◌∷◌,
  ◌++◌, length, Result, ok, raised, ◌>>=◌, Field, missing, null, value, leb, if◌then◌else◌,
  string_eq, ◌==◌, require, get_opt, get_or_default, not, ◌&&◌,
}

-- Floats, and pybloom's ScalableBloomFilter.
pub record Ingestion : Type 1 where
  pub Float : Type 0
  pub Bloom : Type 0
  pub empty : Bloom
  pub contains : Bloom → String → Bool
  pub insert : Bloom → String → Bloom

module _ (g : Ingestion) where
  open g use {Float, Bloom, empty, contains, insert}

  -- the dictionary of a span, where a missing flag and a null one are false
  pub record SpanDict : Type 0 where
    pub trace_id : Field String
    pub span_id : Field String
    pub service_id : Field String
    pub timestamp : Field ℕ
    pub metrics : Field (List (String × Float))
    pub anomaly_type : Field String
    pub is_anomaly : Field Bool

  -- telemetry_pb2.Span
  pub record Span : Type 0 where
    pub trace_id : String
    pub span_id : String
    pub service_id : String
    pub timestamp : ℕ
    pub metrics : List (String × Float)
    pub anomaly_type : String
    pub is_anomaly : Bool

  unfoldable pub to_proto_span : SpanDict → Result Span
  to_proto_span span = do
    trace_id ← require span.trace_id
    span_id ← require span.span_id
    service_id ← require span.service_id
    timestamp ← require span.timestamp
    metrics ← require span.metrics
    ok (record {
      trace_id = trace_id;
      span_id = span_id;
      service_id = service_id;
      timestamp = timestamp;
      metrics = metrics;
      anomaly_type = get_or_default span.anomaly_type "";
      is_anomaly = get_or_default span.is_anomaly false;
    })

  -- the state of the world, and the wait for the channel
  pub record Service : Type 1 where
    pub W : Type 0
    pub is_ready : W → W × Bool

  pub record GrpcPublisher : Type 0 where
    pub bloom : Bloom
    pub buffer : List Span
    pub is_started : Bool
    pub sent : ℕ
    pub accepted : ℕ
    pub dropped : ℕ
    pub duplicates : ℕ
    pub batches_sent : ℕ

  unfoldable pub new_publisher : GrpcPublisher
  new_publisher = record {
    bloom = empty;
    buffer = [];
    is_started = false;
    sent = 0;
    accepted = 0;
    dropped = 0;
    duplicates = 0;
    batches_sent = 0;
  }

  abbrev pub send_attempts : ℕ
  send_attempts = 3

  unfoldable pub start :
      (service : Service) → service.W → GrpcPublisher → service.W × Result GrpcPublisher
  start service w p =
      let (w', ready) = service.is_ready w in
      (w', if ready then ok (record p { is_started = true }) else raised)

  -- A coroutine that waits in `_flush`: its batch, the attempts that are left after this one, and
  -- whether it is `_flush_loop`.
  pub record Flight : Type 0 where
    pub batch : List Span
    pub left : ℕ
    pub is_flusher : Bool

  -- the spans that wait in flushes
  abbrev pub in_flight : List Flight → ℕ
  in_flight [] = 0
  in_flight (f ∷ flights) = length f.batch + in_flight flights

  -- the publisher with the coroutines that wait in `_flush`
  pub record Running : Type 0 where
    pub publisher : GrpcPublisher
    pub flights : List Flight

  -- batch, self._buffer = self._buffer, []
  unfoldable pub take_batch : GrpcPublisher → GrpcPublisher × List Span
  take_batch p = (record p { buffer = [] }, p.buffer)

  -- `_flush` from the swap to its first await
  abbrev pub launched : Bool → List Span → List Flight
  launched is_flusher [] = []
  launched is_flusher (s ∷ batch) =
      record { batch = s ∷ batch; left = 2; is_flusher = is_flusher } ∷ []

  unfoldable pub flush : Bool → Running → Running
  unfolding take_batch
  flush is_flusher s =
      let (p, batch) = take_batch s.publisher in
      record { publisher = p; flights = launched is_flusher batch ++ s.flights }

  abbrev pub count_sent : GrpcPublisher → List Span → ℕ → GrpcPublisher
  count_sent p batch spans_accepted = record p {
    sent = p.sent + length batch;
    accepted = p.accepted + spans_accepted;
    batches_sent = suc p.batches_sent;
  }

  abbrev pub retry : GrpcPublisher → Flight → ℕ → GrpcPublisher × List Flight
  retry p f zero = (record p { dropped = p.dropped + length f.batch }, [])
  retry p f (suc left) = (p, record f { left = left } ∷ [])

  -- `_flush` from the answer to its next await, or its end: none is an AioRpcError
  unfoldable pub answer : GrpcPublisher → Flight → Option ℕ → GrpcPublisher × List Flight
  answer p f none = retry p f f.left
  answer p f (some spans_accepted) = (count_sent p f.batch spans_accepted, [])

  -- the coroutine goes on among the others
  unfoldable pub resume : Running → List Flight → Flight → List Flight → Option ℕ → Running
  unfolding answer
  resume s before f after response =
      let (p, more) = answer s.publisher f response in
      record { publisher = p; flights = before ++ (more ++ after) }

  -- `stop`: the flusher is cancelled wherever it waits, then the last flush begins
  unfoldable pub stop : Running → Running
  unfolding flush
  stop s = flush false (record s { flights = select (λ f. not f.is_flusher) s.flights })

  module _ (grpc_batch_max : ℕ) where
    -- the end of `publish`
    unfoldable pub flush_if_full : Running → Running
    unfolding flush
    flush_if_full s = if leb grpc_batch_max (length s.publisher.buffer) then flush false s else s

    -- The span was put into the filter before it is read.
    abbrev pub append : Running → Result Span → Running × Bool
    append s raised = (s, false)
    append s (ok span) =
        let p = s.publisher in
        (flush_if_full (record s { publisher = record p { buffer = p.buffer ++ span ∷ [] } }), true)

    -- `if span_id and span_id in self._bloom`
    abbrev pub is_known : GrpcPublisher → Option String → Bool
    is_known p none = false
    is_known p (some span_id) = not (span_id == "") && contains p.bloom span_id

    abbrev pub learn : GrpcPublisher → Option String → GrpcPublisher
    learn p none = p
    learn p (some span_id) =
        if span_id == "" then p else record p { bloom = insert p.bloom span_id }

    -- `publish` up to its first await. The Boolean tells that it raises nothing before; what it
    -- changed before an exception stays.
    unfoldable pub publish : Running → SpanDict → Running × Bool
    unfolding to_proto_span flush_if_full
    publish s span =
        let p = s.publisher in
        if not p.is_started
        then (s, false)
        else if is_known p (get_opt span.span_id)
        then (record s { publisher = record p { duplicates = suc p.duplicates } }, true)
        else append (record s { publisher = learn p (get_opt span.span_id) }) (to_proto_span span)

    -- What may happen next, with the spans that it takes and those that it abandons: a call of
    -- `publish`; the flusher wakes up; a coroutine gets an answer, or is cancelled where it waits;
    -- `stop`.
    pub data Step (s : Running) : Running → ℕ → ℕ → Type 0 where
      calls : (span : SpanDict) → Step s (publish s span).0 (if (publish s span).1 then 1 else 0) 0
      wakes : Step s (flush true s) 0 0
      answered :
          (before after : List Flight) (f : Flight) (response : Option ℕ)
          → s.flights ≡ before ++ f ∷ after
          → Step s (resume s before f after response) 0 0
      cancelled :
          (before after : List Flight) (f : Flight)
          → s.flights ≡ before ++ f ∷ after
          → Step s (record s { flights = before ++ after }) 0 (length f.batch)
      stops : Step s (stop s) 0 (in_flight (select (λ f. f.is_flusher) s.flights))

    -- any number of steps
    pub data Run (s : Running) : Running → ℕ → ℕ → Type 0 where
      at_start : Run s s 0 0
      then_step :
          (mid last : Running) (taken lost n k : ℕ)
          → Run s mid taken lost
          → Step mid last n k
          → Run s last (taken + n) (lost + k)
