-- ===== src/Common/Kafka/Acknowledged.antt =====
-- What `send` with wait=True of common/kafka_json.py promises.
use distrosense.Base.{
  ℕ, zero, suc, Bool, true, false, ◌||◌, List, [], ◌∷◌, any, elem, ◌≡◌, refl, arith, inl, inr, ◌⊎◌,
  nat_eq, ◌==◌, Bool-cases,
}
use distrosense.Common.Kafka.{
  ProducerClient, Produced, queued, buffer_error, other_error, Report, JsonProducer, note_all,
  is_error_of, reported, poll, flushed, await, after_produce, retry, send,
}

-- a report of the message is in the list
abbrev pub is_report_of : ℕ → Report → Bool
is_report_of id (other, is_delivered) = other == id

-- What confluent-kafka documents. A message is pending from the time that produce returns until it is
-- reported; a flush that leaves nothing has reported every message that was pending.
pub record IsProducer (c : ProducerClient) : Type 0 where
  pub is_pending : c.W → ℕ → Bool
  pub produce_pending :
      (w after : c.W) (id : ℕ) (m : c.Message)
      → c.produce w id m ≡ (after, queued)
      → is_pending after id ≡ true
  pub poll_pending :
      (w : c.W) (id : ℕ)
      → is_pending w id ≡ true
      → (is_pending (c.poll w).0 id || any (is_report_of id) (c.poll w).1) ≡ true
  pub flush_pending :
      (w : c.W) (id : ℕ)
      → is_pending w id ≡ true
      → (c.flush w).2 ≡ 0
      → any (is_report_of id) (c.flush w).1 ≡ true

module _ (c : ProducerClient) where
  -- what was delivered stays so
  note_all-keeps :
      (delivered : List ℕ) (reports : List Report) (id : ℕ)
      → elem id delivered ≡ true
      → elem id (note_all c delivered reports) ≡ true
  unfolding note_all
  note_all-keeps delivered [] id h = h
  note_all-keeps delivered ((other, true) ∷ reports) id h =
      note_all-keeps (other ∷ delivered) reports id (ground arith)
  note_all-keeps delivered ((other, false) ∷ reports) id h = note_all-keeps delivered reports id h

  -- a message that is reported, and not with an error, is delivered
  note_all-delivers :
      (delivered : List ℕ) (reports : List Report) (id : ℕ)
      → any (is_report_of id) reports ≡ true
      → any (is_error_of c id) reports ≡ false
      → elem id (note_all c delivered reports) ≡ true
  unfolding note_all
  note_all-delivers delivered [] id h e = absurd (ground arith)
  note_all-delivers delivered ((other, true) ∷ reports) id h e = elim (Bool-cases (other == id)) [
    | inl same ↦
        note_all-keeps (other ∷ delivered) reports id (ground (arith, nat_eq.beq_iff other id))
    | inr different ↦ note_all-delivers (other ∷ delivered) reports id (ground arith) (ground arith)
  ]
  note_all-delivers delivered ((other, false) ∷ reports) id h e =
      note_all-delivers delivered reports id (ground arith) (ground arith)

module _ (c : ProducerClient) (law : IsProducer c) where
  open law use {is_pending, produce_pending, poll_pending, flush_pending}

  -- the message is still pending, or it was reported: then it is delivered or had an error
  abbrev IsKnown : ℕ → JsonProducer c × Bool → Type 0
  IsKnown id r = (is_pending r.0.world id ≡ true) ⊎ ((r.1 ≡ true) ⊎ (elem id r.0.delivered ≡ true))

  poll-IsKnown :
      (s : JsonProducer c) (id : ℕ) → is_pending s.world id ≡ true → IsKnown id (poll c s id)
  unfolding poll
  poll-IsKnown s id h =
      let (w, reports) = c.poll s.world in
      elim (Bool-cases (is_pending w id)) [
        | inl pending ↦ inl pending
        | inr done ↦ elim (Bool-cases (any (is_error_of c id) reports)) [
          | inl failed ↦ inr (inl failed)
          | inr fine ↦
              let there : any (is_report_of id) reports ≡ true =
                ground (arith, poll_pending s.world id h) in
              inr (inr (note_all-delivers c s.delivered reports id there fine))
        ]
      ]

  flushed-delivers :
      (id : ℕ) (s : JsonProducer c) (had_error : Bool) (w : c.W) (reports : List Report)
      (remaining : ℕ)
      → IsKnown id (s, had_error)
      → (is_pending s.world id ≡ true → remaining ≡ 0 → any (is_report_of id) reports ≡ true)
      → (flushed c had_error id (reported c s id (w, reports)) remaining).1 ≡ true
      → elem id (flushed c had_error id (reported c s id (w, reports)) remaining).0.delivered ≡ true
  flushed-delivers id s had_error w reports (suc remaining) known settles h = absurd (ground arith)
  flushed-delivers id s had_error w reports zero (inl pending) settles h =
      note_all-delivers c s.delivered reports id (settles pending refl) (ground arith)
  flushed-delivers id s had_error w reports zero (inr (inl failed)) settles h =
      absurd (ground arith)
  flushed-delivers id s had_error w reports zero (inr (inr there)) settles h =
      note_all-keeps c s.delivered reports id there

  await-delivers :
      (id : ℕ) (r : JsonProducer c × Bool)
      → IsKnown id r
      → (await c true id r).1 ≡ true
      → elem id (await c true id r).0.delivered ≡ true
  await-delivers id (s, had_error) known h =
      let (w, reports, remaining) = c.flush s.world in
      flushed-delivers id s had_error w reports remaining known
        (λ pending none_left. flush_pending s.world id pending none_left) h

  after_produce-delivers :
      (id : ℕ) (m : c.Message) (s : JsonProducer c) (r : c.W × Produced)
      → c.produce s.world id m ≡ r
      → (after_produce c true id s r).1 ≡ true
      → elem id (after_produce c true id s r).0.delivered ≡ true
  after_produce-delivers id m s (w, queued) e h =
      let start : JsonProducer c = record s { world = w } in
      await-delivers id (poll c start id) (poll-IsKnown start id (produce_pending s.world w id m e))
        h
  after_produce-delivers id m s (w, buffer_error) e h = absurd (ground arith)
  after_produce-delivers id m s (w, other_error) e h = absurd (ground arith)

  retry-delivers :
      (id : ℕ) (m : c.Message) (s : JsonProducer c) (r : c.W × Produced)
      → c.produce s.world id m ≡ r
      → (retry c true id m s r).1 ≡ true
      → elem id (retry c true id m s r).0.delivered ≡ true
  retry-delivers id m s (w, queued) e h = after_produce-delivers id m s (w, queued) e h
  retry-delivers id m s (w, other_error) e h = after_produce-delivers id m s (w, other_error) e h
  retry-delivers id m s (w, buffer_error) e h =
      let (polled, _) = poll c (record s { world = w }) id in
      after_produce-delivers id m polled (c.produce polled.world id m) refl h

  -- A call of `send` with wait=True that returns has its message delivered: Kafka reported it without
  -- an error.
  pub send-delivers :
      (s : JsonProducer c) (m : c.Message)
      → (send c s m true).1 ≡ true
      → elem s.sent (send c s m true).0.delivered ≡ true
  unfolding send
  send-delivers s m h =
      retry-delivers s.sent m (record s { sent = suc s.sent }) (c.produce s.world s.sent m) refl h
