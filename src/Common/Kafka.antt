-- ===== src/Common/Kafka.antt =====
-- common/kafka_json.py: JsonProducer; and common/kafka_consumer.py: JsonConsumer. confluent-kafka's
-- clients are parameters. A message that is sent has a number, by which its delivery reports name it;
-- `delivered` records the reports without an error. The throttled log lines are left out.
pub mod Acknowledged
use distrosense.Base.{
  ℕ, zero, suc, String, Bool, true, false, not, ◌&&◌, List, [], ◌∷◌, any, Result, ok, raised,
  Option, none, some, if◌then◌else◌, nat_eq, ◌==◌,
}

-- what produce does: it queues the message, raises BufferError, or raises something else
pub data Produced : Type 0 where
  queued buffer_error other_error : Produced

-- a delivery report: the message, and whether it was delivered
abbrev pub Report : Type 0
Report = ℕ × Bool

-- `flush` also tells how many messages are left
pub record ProducerClient : Type 1 where
  pub Message : Type 0
  pub W : Type 0
  pub produce : W → ℕ → Message → W × Produced
  pub poll : W → W × List Report
  pub flush : W → W × List Report × ℕ

module _ (c : ProducerClient) where
  open c use {Message, W}

  pub record JsonProducer : Type 0 where
    pub sent : ℕ
    pub delivered : List ℕ
    pub world : W

  -- `on_delivery` of the message `id`: whether it noted an error, and what was delivered
  abbrev pub note : List ℕ → Report → List ℕ
  note delivered (id, true) = id ∷ delivered
  note delivered (id, false) = delivered

  unfoldable pub note_all : List ℕ → List Report → List ℕ
  note_all delivered [] = delivered
  note_all delivered (report ∷ reports) = note_all (note delivered report) reports

  abbrev pub is_error_of : ℕ → Report → Bool
  is_error_of id (other, is_delivered) = (other == id) && not is_delivered

  -- the state after reports, and the errors of one message among them
  abbrev pub reported : JsonProducer → ℕ → W × List Report → JsonProducer × Bool
  reported s id (w, reports) = (
    record s { world = w; delivered = note_all s.delivered reports },
    any (is_error_of id) reports,
  )

  unfoldable pub poll : JsonProducer → ℕ → JsonProducer × Bool
  unfolding note_all
  poll s id = reported s id (c.poll s.world)

  abbrev pub flushed : Bool → ℕ → JsonProducer × Bool → ℕ → JsonProducer × Bool
  flushed had_error id (s, has_error) zero = (s, not had_error && not has_error)
  flushed had_error id (s, has_error) (suc remaining) = (s, false)

  -- `if wait`: whether send returns
  abbrev pub await : Bool → ℕ → JsonProducer × Bool → JsonProducer × Bool
  await false id (s, had_error) = (s, true)
  await true id (s, had_error) =
      let (w, reports, remaining) = c.flush s.world in
      flushed had_error id (reported s id (w, reports)) remaining

  abbrev pub after_produce : Bool → ℕ → JsonProducer → W × Produced → JsonProducer × Bool
  after_produce wait id s (w, queued) = await wait id (poll (record s { world = w }) id)
  after_produce wait id s (w, error) = (record s { world = w }, false)

  -- the handler of BufferError polls and tries once more
  abbrev pub retry : Bool → ℕ → Message → JsonProducer → W × Produced → JsonProducer × Bool
  retry wait id m s (w, buffer_error) =
      let (polled, _) = poll (record s { world = w }) id in
      after_produce wait id polled (c.produce polled.world id m)
  retry wait id m s (w, produced) = after_produce wait id s (w, produced)

  -- the state, and whether it returns
  unfoldable pub send : JsonProducer → Message → Bool → JsonProducer × Bool
  unfolding poll
  send s m wait =
      let id = s.sent in retry wait id m (record s { sent = suc id }) (c.produce s.world id m)

  -- `close`
  unfoldable pub close : JsonProducer → JsonProducer
  unfolding note_all
  close s =
      let (w, reports, remaining) = c.flush s.world in
      record s { world = w; delivered = note_all s.delivered reports }

-- What confluent-kafka's consumer returns from a poll; `Value` is what json.loads gives.
pub data Polled (Payload : Type 0) : Type 0 where
  nothing : Polled Payload
  error : Bool → Polled Payload
  message : String → Option String → Payload → Polled Payload

module _ {Payload Value : Type 0} (loads : Payload → Option Value) where
  pub record ConsumedRecord : Type 0 where
    pub topic : String
    pub key : Option String
    pub content : Value

  -- an undecodable payload is skipped
  abbrev pub consumed : String → Option String → Option Value → Option ConsumedRecord
  consumed topic key none = none
  consumed topic key (some v) = some (record { topic = topic; key = key; content = v })

  -- the flag of an error tells whether it is fatal
  unfoldable pub poll_record : Polled Payload → Result (Option ConsumedRecord)
  poll_record nothing = ok none
  poll_record (error true) = raised
  poll_record (error false) = ok none
  poll_record (message topic key payload) = ok (consumed topic key (loads payload))
