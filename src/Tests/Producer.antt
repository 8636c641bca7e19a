-- ===== src/Tests/Producer.antt =====
-- A client whose queue has room for one message, and delivers nothing.
use distrosense.Base.{ℕ, zero, suc, ◌+◌, [], raised, some, ◌≡◌, refl, arith}
use distrosense.Ingestion.Producer.{
  Client, Produced, queued, buffer_error, other_error, KafkaSpanProducer, publish,
}
use distrosense.Ingestion.Producer.Settled.{IsClient, settled, one_if_ok, settled-publish}

abbrev room : ℕ → ℕ × Produced
room zero = (1, queued)
room (suc n) = (suc n, buffer_error)

abbrev client : Client
client = record {
  Span = ℕ;
  Payload = ℕ;
  W = ℕ;
  serialize = λ w x. (w, some x);
  as_json = λ x. x;
  produce_raw = λ w p k. room w;
  produce_dead_letter = λ w p k. (w, buffer_error);
  poll = λ w. (w, []);
}

room_queued : (w after : ℕ) → room w ≡ (after, queued) → after ≡ suc w
room_queued zero after e = ground arith
room_queued (suc n) after e = ground arith

room_full : (w after : ℕ) → room w ≡ (after, buffer_error) → after ≡ w
room_full zero after e = ground arith
room_full (suc n) after e = ground arith

room_error : (w after : ℕ) → room w ≡ (after, other_error) → after ≡ w
room_error zero after e = ground arith
room_error (suc n) after e = ground arith

client_law : IsClient client
client_law = record {
  pending = λ w. w;
  serialize_pending = λ w x. refl;
  queued_pending = λ w after p k e. room_queued w after e;
  full_pending = λ w after p k e. room_full w after e;
  error_pending = λ w after p k e. room_error w after e;
  dead_letter_pending = λ w p k. refl;
  poll_pending = λ w. omega arith;
}

abbrev producer : KafkaSpanProducer client
producer = record { published = 0; failed = 0; dlq_messages = 0; world = 0 }

abbrev busy : KafkaSpanProducer client
busy = record producer { world = 1 }

settled-publish_example :
    settled client client_law (publish client producer 5 "cart").0
    ≡ settled client client_law producer
      + one_if_ok client client_law (publish client producer 5 "cart").1
settled-publish_example = settled-publish client client_law producer 5 "cart"

-- the queue is full at both attempts: the call raises, with no dead letter
lost : publish client busy 6 "cart" ≡ (busy, raised)
unfolding publish
lost = refl
