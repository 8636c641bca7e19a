-- ===== src/Ingestion/Producer.antt =====
-- ingestion/producer/kafka_producer.py. The Avro serializer and confluent-kafka's producer are the
-- parameter `Client`: a poll gives the delivery reports that call `_on_delivery`. The poller thread
-- and the callers of `publish` take turns.
pub mod Settled
use distrosense.Base.{
  ℕ, suc, String, Bool, true, false, List, [], ◌∷◌, Result, ok, raised, Option, none, some,
}

-- what produce does: it queues the message, raises BufferError, or raises something else
pub data Produced : Type 0 where
  queued buffer_error other_error : Produced

pub record Client : Type 1 where
  pub Span : Type 0
  pub Payload : Type 0
  pub W : Type 0
  pub serialize : W → Span → W × Option Payload
  -- json.dumps(record).encode(), for the dead-letter queue
  pub as_json : Span → Payload
  pub produce_raw : W → Payload → String → W × Produced
  pub produce_dead_letter : W → Payload → String → W × Produced
  -- reports of the messages to raw-telemetry: whether it was delivered, its value and its key
  pub poll : W → W × List (Bool × Payload × String)

module _ (c : Client) where
  open c use {Span, Payload, W}

  pub record KafkaSpanProducer : Type 0 where
    pub published : ℕ
    pub failed : ℕ
    pub dlq_messages : ℕ
    pub world : W

  -- an exception of produce is caught
  unfoldable pub dead_letter : KafkaSpanProducer → Payload → String → KafkaSpanProducer
  dead_letter s payload key = record s {
    dlq_messages = suc s.dlq_messages;
    world = (c.produce_dead_letter s.world payload key).0;
  }

  unfoldable pub on_delivery : KafkaSpanProducer → Bool × Payload × String → KafkaSpanProducer
  unfolding dead_letter
  on_delivery s (true, payload, key) = record s { published = suc s.published }
  on_delivery s (false, payload, key) = dead_letter (record s { failed = suc s.failed }) payload key

  unfoldable pub deliver : KafkaSpanProducer → List (Bool × Payload × String) → KafkaSpanProducer
  unfolding on_delivery
  deliver s [] = s
  deliver s (report ∷ reports) = deliver (on_delivery s report) reports

  unfoldable pub poll : KafkaSpanProducer → KafkaSpanProducer
  unfolding deliver
  poll s = let (w, reports) = c.poll s.world in deliver (record s { world = w }) reports

  abbrev pub polled : KafkaSpanProducer → W × Produced → KafkaSpanProducer × Produced
  polled s (w, queued) = (poll (record s { world = w }), queued)
  polled s (w, error) = (record s { world = w }, error)

  -- `_produce`: the poll is reached if produce returns
  unfoldable pub produce : KafkaSpanProducer → Payload → String → KafkaSpanProducer × Produced
  unfolding poll
  produce s payload key = polled s (c.produce_raw s.world payload key)

  abbrev pub returned : KafkaSpanProducer × Produced → KafkaSpanProducer × Result Bool
  returned (s, queued) = (s, ok true)
  returned (s, error) = (s, raised)

  -- the handler of BufferError: the second attempt has none
  abbrev pub retry :
      Payload → String → KafkaSpanProducer × Produced → KafkaSpanProducer × Result Bool
  retry payload key (s, buffer_error) = returned (produce (poll s) payload key)
  retry payload key (s, produced) = returned (s, produced)

  abbrev pub publish_payload :
      KafkaSpanProducer → Span → String → Option Payload → KafkaSpanProducer × Result Bool
  publish_payload s span service_id none =
      (dead_letter (record s { failed = suc s.failed }) (c.as_json span) service_id, ok false)
  publish_payload s span service_id (some payload) =
      retry payload service_id (produce s payload service_id)

  unfoldable pub publish : KafkaSpanProducer → Span → String → KafkaSpanProducer × Result Bool
  unfolding produce
  publish s span service_id =
      let (w, payload) = c.serialize s.world span in
      publish_payload (record s { world = w }) span service_id payload
