-- ===== src/Ingestion/Producer/Settled.antt =====
-- Every span that KafkaSpanProducer.publish (ingestion/producer/kafka_producer.py) takes is settled.
use distrosense.Base.{
  ℕ, suc, ◌+◌, String, Bool, true, false, List, [], ◌∷◌, length, Result, ok, raised, Option, none,
  some, ◌≡◌, refl, arith,
}
use distrosense.Ingestion.Producer.{
  Client, Produced, queued, buffer_error, other_error, KafkaSpanProducer, dead_letter, on_delivery,
  deliver, poll, polled, produce, returned, retry, publish_payload, publish,
}

-- What confluent-kafka documents of the messages that carry a delivery callback: `pending` is the
-- number of those that are queued and not reported yet. A message is pending once produce returns; each
-- is reported once; the messages to the dead-letter queue carry none.
pub record IsClient (c : Client) : Type 0 where
  pub pending : c.W → ℕ
  pub serialize_pending : (w : c.W) (x : c.Span) → pending (c.serialize w x).0 ≡ pending w
  pub queued_pending :
      (w after : c.W) (p : c.Payload) (k : String)
      → c.produce_raw w p k ≡ (after, queued)
      → pending after ≡ suc (pending w)
  pub full_pending :
      (w after : c.W) (p : c.Payload) (k : String)
      → c.produce_raw w p k ≡ (after, buffer_error)
      → pending after ≡ pending w
  pub error_pending :
      (w after : c.W) (p : c.Payload) (k : String)
      → c.produce_raw w p k ≡ (after, other_error)
      → pending after ≡ pending w
  pub dead_letter_pending :
      (w : c.W) (p : c.Payload) (k : String) → pending (c.produce_dead_letter w p k).0 ≡ pending w
  pub poll_pending : (w : c.W) → pending (c.poll w).0 + length (c.poll w).1 ≡ pending w

module _ (c : Client) (law : IsClient c) where
  open law use {pending}

  -- the spans that are delivered, counted as failed, or still on their way
  abbrev pub settled : KafkaSpanProducer c → ℕ
  settled s = s.published + s.failed + pending s.world

  settled-dead_letter :
      (s : KafkaSpanProducer c) (p : c.Payload) (k : String)
      → settled (dead_letter c s p k) ≡ settled s
  unfolding dead_letter
  settled-dead_letter s p k = omega (arith, law.dead_letter_pending s.world p k)

  settled-on_delivery :
      (s : KafkaSpanProducer c) (r : Bool × c.Payload × String)
      → settled (on_delivery c s r) ≡ suc (settled s)
  unfolding on_delivery
  settled-on_delivery s (true, p, k) = omega arith
  settled-on_delivery s (false, p, k) =
      omega (arith, settled-dead_letter (record s { failed = suc s.failed }) p k)

  settled-deliver :
      (s : KafkaSpanProducer c) (rs : List (Bool × c.Payload × String))
      → settled (deliver c s rs) ≡ settled s + length rs
  unfolding deliver
  settled-deliver s [] = omega arith
  settled-deliver s (r ∷ rs) =
      omega (arith, settled-deliver (on_delivery c s r) rs, settled-on_delivery s r)

  settled-poll : (s : KafkaSpanProducer c) → settled (poll c s) ≡ settled s
  unfolding poll
  settled-poll s =
      let (w, reports) = c.poll s.world in
      omega (arith, settled-deliver (record s { world = w }) reports, law.poll_pending s.world)

  -- one more span if produce returned
  abbrev one_if : Produced → ℕ
  one_if queued = 1
  one_if error = 0

  settled-polled :
      (s : KafkaSpanProducer c) (p : c.Payload) (k : String) (r : c.W × Produced)
      → c.produce_raw s.world p k ≡ r
      → settled (polled c s r).0 ≡ settled s + one_if (polled c s r).1
  settled-polled s p k (w, queued) e =
      omega (arith, settled-poll (record s { world = w }), law.queued_pending s.world w p k e)
  settled-polled s p k (w, buffer_error) e = omega (arith, law.full_pending s.world w p k e)
  settled-polled s p k (w, other_error) e = omega (arith, law.error_pending s.world w p k e)

  settled-produce :
      (s : KafkaSpanProducer c) (p : c.Payload) (k : String)
      → settled (produce c s p k).0 ≡ settled s + one_if (produce c s p k).1
  unfolding produce
  settled-produce s p k = settled-polled s p k (c.produce_raw s.world p k) refl

  -- one more span if publish returned
  abbrev pub one_if_ok : Result Bool → ℕ
  one_if_ok raised = 0
  one_if_ok (ok b) = 1

  settled-returned :
      (base : ℕ) (r : KafkaSpanProducer c × Produced)
      → settled r.0 ≡ base + one_if r.1
      → settled (returned c r).0 ≡ base + one_if_ok (returned c r).1
  settled-returned base (s, queued) h = h
  settled-returned base (s, buffer_error) h = h
  settled-returned base (s, other_error) h = h

  settled-retry :
      (base : ℕ) (p : c.Payload) (k : String) (r : KafkaSpanProducer c × Produced)
      → settled r.0 ≡ base + one_if r.1
      → settled (retry c p k r).0 ≡ base + one_if_ok (retry c p k r).1
  settled-retry base p k (s, queued) h = h
  settled-retry base p k (s, other_error) h = h
  settled-retry base p k (s, buffer_error) h =
      settled-returned base (produce c (poll c s) p k)
        (omega (arith, settled-produce (poll c s) p k, settled-poll s))

  settled-publish_payload :
      (s : KafkaSpanProducer c) (x : c.Span) (k : String) (p : Option c.Payload)
      → settled (publish_payload c s x k p).0 ≡ settled s + one_if_ok (publish_payload c s x k p).1
  settled-publish_payload s x k none =
      omega (arith, settled-dead_letter (record s { failed = suc s.failed }) (c.as_json x) k)
  settled-publish_payload s x k (some p) =
      settled-retry (settled s) p k (produce c s p k) (settled-produce s p k)

  -- A call of `publish` that returns, whatever it answers, makes exactly one more span that is
  -- delivered, counted as failed, or still on its way; a call that raises makes none: that span is
  -- in no counter.
  pub settled-publish :
      (s : KafkaSpanProducer c) (x : c.Span) (k : String)
      → settled (publish c s x k).0 ≡ settled s + one_if_ok (publish c s x k).1
  unfolding publish
  settled-publish s x k =
      let (w, p) = c.serialize s.world x in
      omega (
        arith,
        settled-publish_payload (record s { world = w }) x k p,
        law.serialize_pending s.world x,
      )
