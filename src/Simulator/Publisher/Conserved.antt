-- ===== src/Simulator/Publisher/Conserved.antt =====
-- Where the spans of simulator/publisher/grpc_publisher.py are, at every moment of every interleaving.
use distrosense.Base.{
  ℕ, zero, suc, ◌+◌, ◌≡◌, refl, String, Bool, true, false, Option, none, some, List, [], ◌∷◌, ◌++◌,
  length, length-append, Result, ok, raised, arith, inl, inr, if◌then◌else◌, ap, get_opt, select,
  not, Bool-cases,
}
use distrosense.Simulator.Publisher.{
  Ingestion, SpanDict, Span, GrpcPublisher, Flight, Running, in_flight, launched, flush, retry,
  answer, resume, stop, flush_if_full, append, learn, publish, to_proto_span, new_publisher, Step,
  calls, wakes, answered, cancelled, stops, Run, at_start, then_step,
}

module _ (g : Ingestion) (grpc_batch_max : ℕ) where
  abbrev counted : GrpcPublisher g → ℕ
  counted p = p.sent + p.dropped + p.duplicates + length p.buffer

  -- the spans that the publisher accounts for, with those in flight
  abbrev accounted : Running g → ℕ
  accounted s = counted s.publisher + in_flight g s.flights

  in_flight-append : (a b : List (Flight g)) → in_flight g (a ++ b) ≡ in_flight g a + in_flight g b
  in_flight-append [] b = omega arith
  in_flight-append (f ∷ a) b = omega (arith, in_flight-append a b)

  in_flight-launched :
      (b : Bool) (batch : List (Span g)) → in_flight g (launched g b batch) ≡ length batch
  in_flight-launched b [] = refl
  in_flight-launched b (s ∷ batch) = omega arith

  flush-accounted : (b : Bool) (s : Running g) → accounted (flush g b s) ≡ accounted s
  unfolding flush
  flush-accounted b s =
      let batch = s.publisher.buffer in
      omega (arith, in_flight-append (launched g b batch) s.flights, in_flight-launched b batch)

  flush_if_full-accounted :
      (s : Running g) → accounted (flush_if_full g grpc_batch_max s) ≡ accounted s
  unfolding flush_if_full
  flush_if_full-accounted s = ground (arith, flush-accounted false s)

  counted-learn :
      (p : GrpcPublisher g) (id : Option String) → counted (learn g grpc_batch_max p id) ≡ counted p
  counted-learn p none = refl
  counted-learn p (some id) = ground arith

  append-accounted :
      (s : Running g) (r : Result (Span g))
      → accounted (append g grpc_batch_max s r).0
        ≡ accounted s + (if (append g grpc_batch_max s r).1 then 1 else 0)
  append-accounted s raised = omega arith
  append-accounted s (ok span) =
      let p = s.publisher in
      omega (
        arith,
        flush_if_full-accounted
            (record s { publisher = record p { buffer = p.buffer ++ span ∷ [] } }),
        length-append p.buffer (span ∷ []),
      )

  publish-accounted :
      (s : Running g) (span : SpanDict g)
      → accounted (publish g grpc_batch_max s span).0
        ≡ accounted s + (if (publish g grpc_batch_max s span).1 then 1 else 0)
  unfolding publish
  publish-accounted s span =
      let id = get_opt span.span_id in
      ground (
        arith,
        counted-learn s.publisher id,
        append-accounted (record s { publisher = learn g grpc_batch_max s.publisher id })
            (to_proto_span g span),
      )

  retry-counted :
      (p : GrpcPublisher g) (f : Flight g) (left : ℕ)
      → counted (retry g p f left).0 + in_flight g (retry g p f left).1 ≡ counted p + length f.batch
  retry-counted p f zero = omega arith
  retry-counted p f (suc left) = omega arith

  answer-counted :
      (p : GrpcPublisher g) (f : Flight g) (response : Option ℕ)
      → counted (answer g p f response).0 + in_flight g (answer g p f response).1
        ≡ counted p + length f.batch
  unfolding answer
  answer-counted p f none = retry-counted p f f.left
  answer-counted p f (some n) = omega arith

  resume-accounted :
      (s : Running g) (before after : List (Flight g)) (f : Flight g) (response : Option ℕ)
      → s.flights ≡ before ++ f ∷ after
      → accounted (resume g s before f after response) ≡ accounted s
  unfolding resume
  resume-accounted s before after f response e =
      let (p, more) = answer g s.publisher f response in
      omega (
        arith,
        answer-counted s.publisher f response,
        ap (in_flight g) e,
        in_flight-append before (f ∷ after),
        in_flight-append before (more ++ after),
        in_flight-append more after,
      )

  in_flight-select :
      (l : List (Flight g))
      → in_flight g (select (λ f. not f.is_flusher) l) + in_flight g (select (λ f. f.is_flusher) l)
        ≡ in_flight g l
  in_flight-select [] = refl
  in_flight-select (f ∷ l) = elim (Bool-cases f.is_flusher) [
    | inl own ↦ rw own (omega (arith, in_flight-select l))
    | inr other ↦ rw other (omega (arith, in_flight-select l))
  ]

  stop-accounted :
      (s : Running g)
      → accounted (stop g s) + in_flight g (select (λ f. f.is_flusher) s.flights) ≡ accounted s
  unfolding stop
  stop-accounted s =
      let others = select (λ f. not f.is_flusher) s.flights in
      omega
        (arith, flush-accounted false (record s { flights = others }), in_flight-select s.flights)

  Step-accounted :
      (s t : Running g) (n k : ℕ)
      → Step g grpc_batch_max s t n k
      → accounted t + k ≡ accounted s + n
  Step-accounted s t n k (calls span) = omega (arith, publish-accounted s span)
  Step-accounted s t n k wakes = omega (arith, flush-accounted true s)
  Step-accounted s t n k (answered before after f response e) =
      omega (arith, resume-accounted s before after f response e)
  Step-accounted s t n k (cancelled before after f e) = omega (
    arith,
    ap (in_flight g) e,
    in_flight-append before (f ∷ after),
    in_flight-append before after,
  )
  Step-accounted s t n k stops = omega (arith, stop-accounted s)

  Run-accounted :
      (s t : Running g) (taken lost : ℕ)
      → Run g grpc_batch_max s t taken lost
      → accounted t + lost ≡ accounted s + taken
  Run-accounted s t taken lost at_start = omega arith
  Run-accounted s t taken lost (then_step mid last n k i j run step) =
      omega (arith, Run-accounted s mid n k run, Step-accounted mid last i j step)

  -- Over every interleaving from the start, whatever the ingestion service answers: the spans that
  -- `publish` took are those sent, those dropped with a count, the duplicates, those in the buffer,
  -- those in the batches of the coroutines that wait in a flush, and those in the batches of the
  -- coroutines that were cancelled in one, each once. The last flush of `stop` leaves the buffer empty.
  pub Run-conserved :
      (s : Running g) (taken lost : ℕ)
      → Run g grpc_batch_max
          (record { publisher = record (new_publisher g) { is_started = true }; flights = [] })
          s
          taken
          lost
      → let p = s.publisher in
        (p.sent + p.dropped + p.duplicates + length p.buffer + in_flight g s.flights + lost ≡ taken)
        × ((stop g s).publisher.buffer ≡ [])
  unfolding new_publisher stop flush
  Run-conserved s taken lost run = (
    omega (
      arith,
      Run-accounted
          (record { publisher = record (new_publisher g) { is_started = true }; flights = [] }) s
          taken lost run,
    ),
    refl,
  )
