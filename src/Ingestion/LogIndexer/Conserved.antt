-- ===== src/Ingestion/LogIndexer/Conserved.antt =====
-- Where the documents of ingestion/logs/es_log_indexer.py are, at every moment of every interleaving.
use distrosense.Base.{
  Result-cases, subst, true, ◌≤◌, leb→le, String, ℕ, suc, ◌+◌, Bool, List, [], ◌∷◌, length,
  length-append, Result, ok, raised, leb, ltb, arith, ◌≡◌, refl, ap, inl, inr, Bool-cases, select,
}
use distrosense.Ingestion.LogIndexer.{
  ends, finish, at_start, then_step, then_step, bulk_if, Run, LogDoc, span_to_log_doc, Elastic,
  LogSpan, Indexer, Step, adds, stops, takes, flushes, add, stop, take_one, flush, bulk, with_days,
  take_from, count_items, send, is_full, new_indexer,
}

module _ (e : Elastic) where
  -- the documents that the indexer was given
  abbrev pub accounted : Indexer e → ℕ
  accounted s = length s.queue + length s.batch + s.indexed + s.failed + s.dropped

  accounted-take_from :
      (s : Indexer e) (queue : List LogDoc)
      → queue ≡ s.queue
      → accounted (take_from e s queue) ≡ accounted s
  accounted-take_from s [] same = refl
  accounted-take_from s (d ∷ queue) same =
      omega (arith, length-append s.batch (d ∷ []), ap length same)

  pub accounted-take_one : (s : Indexer e) → accounted (take_one e s) ≡ accounted s
  unfolding take_one
  accounted-take_one s = elim (Bool-cases (ltb (length s.batch) s.batch_size)) [
    | inl room ↦ rw room (accounted-take_from s s.queue refl)
    | inr full ↦ rw full refl
  ]

  pub accounted-count_items :
      (s : Indexer e) (sent : ℕ) (items : Result (List Bool))
      → accounted (count_items e s sent items) ≡ accounted s + sent
  accounted-count_items s sent raised = omega arith
  accounted-count_items s sent (ok items) =
      let errors = length (select (λ error. error) items) in
      elim (Bool-cases (leb errors sent)) [
        | inl fewer ↦ rw fewer (omega (arith, leb→le errors sent fewer))
        | inr more ↦ rw more (omega arith)
      ]

  pub accounted-send :
      (s : Indexer e) (lines : List (String × LogDoc))
      → accounted (send e s (ok lines)) ≡ accounted s
  accounted-send s lines =
      let (w, items) = e.post s.world lines in
      omega
        (arith, accounted-count_items (record s { world = w; batch = [] }) (length s.batch) items)

  -- of n documents none is lost while the worker runs, and a batch at most when it does not
  record Inv (s : Indexer e) (n : ℕ) : Type 0 where
    all : s.is_running ≡ true → accounted s ≡ n
    once : accounted s ≤ n
    lost : n ≤ accounted s + s.batch_size
    small : length s.batch ≤ s.batch_size

  small-count_items :
      (s : Indexer e) (sent : ℕ) (items : Result (List Bool))
      → length s.batch ≤ s.batch_size
      → length (count_items e s sent items).batch ≤ (count_items e s sent items).batch_size
  small-count_items s sent raised h = h
  small-count_items s sent (ok items) h =
      elim (Bool-cases (leb (length (select (λ error. error) items)) sent)) [
        | inl fewer ↦ rw fewer h
        | inr more ↦ rw more h
      ]

  Inv-bulk : (s : Indexer e) (n : ℕ) → s.is_running ≡ true → Inv s n → Inv (bulk e s) n
  unfolding bulk
  Inv-bulk s n running v = elim (Result-cases (with_days e s.batch)) [
    | inl no_day ↦
        rw (no_day, bulk)
          (record {
            all = λ h. cc;
            once = omega (arith, v.once);
            lost = omega (arith, v.all running, v.small);
            small = omega arith;
          })
    | inr (lines, made) ↦
        let (w, items) = e.post s.world lines in
        let same = accounted-send s lines in
        rw (made, bulk)
          (record {
            all = λ h. omega (arith, same, v.all running);
            once = omega (arith, same, v.once);
            lost = omega (arith, same, v.all running);
            small =
                small-count_items (record s { world = w; batch = [] }) (length s.batch) items
                  (omega arith);
          })
  ]

  Inv-bulk_if :
      (s : Indexer e) (docs : List LogDoc) (n : ℕ)
      → s.is_running ≡ true
      → Inv s n
      → Inv (bulk_if e s docs) n
  Inv-bulk_if s [] n running v = v
  Inv-bulk_if s (d ∷ docs) n running v = Inv-bulk s n running v

  Inv-add : (s : Indexer e) (span : LogSpan e.Float) (n : ℕ) → Inv s n → Inv (add e s span) (n + 1)
  unfolding add
  Inv-add s span n v =
      let doc = span_to_log_doc e span in
      elim (Bool-cases (is_full e s)) [
        | inl full ↦ rw full (record {
          all = λ h. omega (arith, v.all h);
          once = omega (arith, v.once);
          lost = omega (arith, v.lost);
          small = v.small;
        })
        | inr free ↦ rw free (record {
          all = λ h. omega (arith, v.all h, length-append s.queue (doc ∷ []));
          once = omega (arith, v.once, length-append s.queue (doc ∷ []));
          lost = omega (arith, v.lost, length-append s.queue (doc ∷ []));
          small = v.small;
        })
      ]

  Inv-take_from :
      (s : Indexer e) (queue : List LogDoc) (n : ℕ)
      → queue ≡ s.queue
      → suc (length s.batch) ≤ s.batch_size
      → Inv s n
      → Inv (take_from e s queue) n
  Inv-take_from s [] n same room v = v
  Inv-take_from s (d ∷ queue) n same room v =
      let kept = accounted-take_from s (d ∷ queue) same in
      record {
        all = λ h. omega (arith, kept, v.all h);
        once = omega (arith, kept, v.once);
        lost = omega (arith, kept, v.lost);
        small = omega (arith, length-append s.batch (d ∷ []));
      }

  Inv-take_one : (s : Indexer e) (n : ℕ) → Inv s n → Inv (take_one e s) n
  unfolding take_one
  Inv-take_one s n v = elim (Bool-cases (ltb (length s.batch) s.batch_size)) [
    | inl room ↦ rw room (Inv-take_from s s.queue n refl (ground (arith, room)) v)
    | inr full ↦ rw full v
  ]

  Inv-Step : (s t : Indexer e) (n k : ℕ) → Step e s t k → Inv s n → Inv t (n + k)
  unfolding flush stop finish
  Inv-Step s t n k (adds span) v = Inv-add s span n v
  Inv-Step s t n k stops v =
      subst (Inv t) (omega arith)
        (record { all = v.all; once = v.once; lost = v.lost; small = v.small })
  Inv-Step s t n k (takes h) v = subst (Inv t) (omega arith) (Inv-take_one s n v)
  Inv-Step s t n k (flushes h) v = subst (Inv t) (omega arith) (Inv-bulk_if s s.batch n h v)
  Inv-Step s t n k (ends h over none_left) v =
      subst (Inv t) (omega arith)
        (record { all = λ running. cc; once = v.once; lost = v.lost; small = v.small })

  Inv-Run : (s t : Indexer e) (n m : ℕ) → Run e s t n → Inv s m → Inv t (m + n)
  Inv-Run s t n m at_start v = subst (Inv s) (omega arith) v
  Inv-Run s t n m (then_step mid last i k run step) v =
      subst (Inv t) (omega arith) (Inv-Step mid last (m + i) k step (Inv-Run s mid i m run v))

  -- However the threads interleave: while the worker runs, no span is lost or counted twice: of the
  -- spans that were added since the start, each is in the queue, in the worker's batch, or in exactly
  -- one of the counters of indexed, failed and dropped documents. Whatever ended the worker, no more
  -- spans than a batch holds are missing there, and none is counted twice.
  pub Run-accounted :
      (batch_size max_queue : ℕ) (w : e.W) (s : Indexer e) (n : ℕ)
      → Run e (new_indexer e batch_size max_queue w) s n
      → let found = length s.queue + length s.batch + s.indexed + s.failed + s.dropped in
        (s.is_running ≡ true → found ≡ n) × (found ≤ n) × (n ≤ found + s.batch_size)
  unfolding new_indexer
  Run-accounted batch_size max_queue w s n run =
      let start : Inv (new_indexer e batch_size max_queue w) 0 = record {
        all = λ h. refl;
        once = omega arith;
        lost = omega arith;
        small = omega arith;
      } in
      let v = Inv-Run (new_indexer e batch_size max_queue w) s n 0 run start in
      (λ h. omega (arith, v.all h), omega (arith, v.once), omega (arith, v.lost))
