-- ===== src/Ingestion/LogIndexer/Drained.antt =====
-- The end of the worker's thread in ingestion/logs/es_log_indexer.py by a timestamp that has no day.
use distrosense.Base.{
  length-append, ℕ, ◌≤◌, false, [], ◌∷◌, length, raised, arith, ◌≡◌, refl, ap, inl, inr, Bool-cases,
  ◌∙◌,
}
use distrosense.Ingestion.LogIndexer.{
  ends, span_to_log_doc, Elastic, Indexer, Step, Run, adds, stops, takes, flushes, add, stop, bulk,
  with_days, is_full, at_start, then_step,
}

module _ (e : Elastic) where
  -- Once the worker has ended, whatever happens, nothing more is indexed and nothing leaves the queue.
  ended-Step :
      (s t : Indexer e) (k : ℕ)
      → Step e s t k
      → s.is_running ≡ false
      → (t.is_running ≡ false) × (t.indexed ≡ s.indexed) × (length s.queue ≤ length t.queue)
  unfolding add stop
  ended-Step s t k (adds span) h =
      let doc = span_to_log_doc e span in
      elim (Bool-cases (is_full e s)) [
        | inl full ↦ rw full (h, refl, omega arith)
        | inr free ↦ rw free (h, refl, omega (arith, length-append s.queue (doc ∷ [])))
      ]
  ended-Step s t k stops h = (h, refl, omega arith)
  ended-Step s t k (takes running) h = absurd (ground arith)
  ended-Step s t k (flushes running) h = absurd (ground arith)
  ended-Step s t k (ends running over none_left) h = absurd (ground arith)

  ended-Run :
      (s t : Indexer e) (n : ℕ)
      → Run e s t n
      → s.is_running ≡ false
      → (t.is_running ≡ false) × (t.indexed ≡ s.indexed) × (length s.queue ≤ length t.queue)
  ended-Run s t n at_start h = (h, refl, omega arith)
  ended-Run s t n (then_step mid last i k run step) h =
      let before = ended-Run s mid i run h in
      let after = ended-Step mid last k step before.0 in
      (after.0, after.1 ∙ before.1, omega (arith, before.2, after.2))

  -- A batch with a timestamp that has no day ends the worker: from then on, through every run of steps,
  -- nothing is indexed and nothing leaves the queue.
  pub bulk-ends :
      (s t : Indexer e) (n : ℕ)
      → with_days e s.batch ≡ raised
      → Run e (bulk e s) t n
      → (t.indexed ≡ s.indexed) × (length s.queue ≤ length t.queue)
  unfolding bulk
  bulk-ends s t n h run =
      let over : bulk e s ≡ record s { is_running = false; batch = [] } = rw (h, bulk) refl in
      let ended = ended-Run (bulk e s) t n run (ap (λ x. x.is_running) over) in
      (ended.1 ∙ ap (λ x. x.indexed) over, omega (arith, ended.2, ap (λ x. length x.queue) over))
