-- ===== src/Tests/Kafka.antt =====
-- A client that delivers at the flush what is queued, and whose queue is full at the first attempt.
use distrosense.Base.{
  ==_refl, subst, ℕ, zero, suc, true, List, [], ◌∷◌, any, elem, ◌≡◌, refl, arith, nat_eq, none, ok,
}
use distrosense.Common.Kafka.{
  ProducerClient, Produced, queued, buffer_error, Report, JsonProducer, send, poll_record, message,
}
use distrosense.Common.Kafka.Acknowledged.{IsProducer, is_report_of, send-delivers}

-- the world is the queue with the number of free places
abbrev produce : List ℕ × ℕ → ℕ → (List ℕ × ℕ) × Produced
produce (queue, zero) id = ((queue, 1), buffer_error)
produce (queue, suc free) id = ((id ∷ queue, free), queued)

abbrev delivered : List ℕ → List Report
delivered [] = []
delivered (id ∷ queue) = (id, true) ∷ delivered queue

abbrev client : ProducerClient
client = record {
  Message = ℕ;
  W = List ℕ × ℕ;
  produce = λ w id m. produce w id;
  poll = λ w. (w, []);
  flush = λ w. (([], 5), delivered w.0, 0);
}

produce_queued :
    (w after : List ℕ × ℕ) (id : ℕ) → produce w id ≡ (after, queued) → elem id after.0 ≡ true
produce_queued (queue, zero) after id e = absurd (ground arith)
produce_queued (queue, suc free) after id e =
    subst (λ r. elem id r.0.0 ≡ true) e (rw (==_refl id) refl)

all_delivered :
    (queue : List ℕ) (id : ℕ)
    → elem id queue ≡ true
    → any (is_report_of id) (delivered queue) ≡ true
all_delivered [] id h = h
all_delivered (other ∷ queue) id h = ground (arith, all_delivered queue id)

client_law : IsProducer client
client_law = record {
  is_pending = λ w id. elem id w.0;
  produce_pending = λ w after id m e. produce_queued w after id e;
  poll_pending = λ w id h. ground arith;
  flush_pending = λ w id h e. all_delivered w.0 id h;
}

abbrev producer : JsonProducer client
producer = record { sent = 3; delivered = []; world = ([], 0) }

acknowledged : (send client producer 7 true).1 ≡ true
unfolding send
acknowledged = refl

send-delivers_example : elem 3 (send client producer 7 true).0.delivered ≡ true
send-delivers_example = send-delivers client client_law producer 7 acknowledged

-- an undecodable record is skipped
skipped :
    poll_record {Payload = ℕ} {Value = ℕ} (λ payload. none) (message "anomaly-events" none 1)
    ≡ ok none
unfolding poll_record
skipped = refl
