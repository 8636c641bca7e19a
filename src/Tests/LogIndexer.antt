-- ===== src/Tests/LogIndexer.antt =====
-- An indexer whose server rejects the first of every two documents, and whose calendar ends at 1000.
use distrosense.Base.{
  ℕ, suc, ◌+◌, ◌≤◌, String, true, false, some, [], ◌∷◌, length, ◌≡◌, refl, ok, raised, arith, ltb,
  if◌then◌else◌,
}
use distrosense.Ingestion.LogIndexer.{
  Elastic, LogSpan, LogDoc, Indexer, new_indexer, add, take_one, bulk, work, stop, Run, at_start,
  then_step, adds, takes, with_days,
}
use distrosense.Ingestion.LogIndexer.Conserved.{Run-accounted}
use distrosense.Ingestion.LogIndexer.Drained.{bulk-ends}
use distrosense.Ingestion.LogIndexer.Stopped.{IsReady, work-ends}

abbrev elastic : Elastic
elastic = record {
  Float = ℕ;
  message = λ s. "span";
  day_of = λ t. if ltb t 1000 then ok "1970.01.01" else raised;
  W = ℕ;
  post = λ w docs. (suc w, ok (true ∷ false ∷ []));
}

abbrev span : ℕ → LogSpan ℕ
span timestamp = record {
  trace_id = "t";
  span_id = "s";
  service_id = "cart";
  timestamp = timestamp;
  cpu_percent = 0;
  latency_p99 = 0;
  error_rate = 0;
  request_rate = 0;
  anomaly_type = some "ERROR_RATE_SPIKE";
  is_anomaly = true;
}

abbrev empty : Indexer elastic
empty = record {
  batch_size = 2;
  max_queue = 1;
  queue = [];
  batch = [];
  is_running = true;
  is_stopped = false;
  indexed = 0;
  failed = 0;
  dropped = 0;
  world = 0;
}

abbrev doc : ℕ → LogDoc
doc timestamp = record {
  timestamp = timestamp;
  service_id = "cart";
  level = "ERROR";
  message = "span";
  trace_id = "t";
  span_id = "s";
}

-- one span, the worker gets it, two more of which one is dropped
abbrev later : Indexer elastic
later = record empty { queue = doc 2 ∷ []; batch = doc 1 ∷ []; dropped = 1 }

is_later :
    add elastic
      (add elastic (take_one elastic (add elastic (new_indexer elastic 2 1 0) (span 1))) (span 2))
      (span 3)
    ≡ later
unfolding add take_one new_indexer
is_later = refl

interleaving : Run elastic (new_indexer elastic 2 1 0) later 3
unfolding add take_one new_indexer
interleaving =
    then_step _ _ 2 1
      (then_step _ _ 1 1
        (then_step _ _ 1 0 (then_step _ _ 0 1 at_start (adds (span 1))) (takes refl))
        (adds (span 2)))
      (adds (span 3))

Run-accounted_example :
    (true ≡ true → 1 + 1 + 0 + 0 + 1 ≡ 3) × (1 + 1 + 0 + 0 + 1 ≤ 3) × (3 ≤ 1 + 1 + 0 + 0 + 1 + 2)
Run-accounted_example = Run-accounted elastic 2 1 0 later 3 interleaving

abbrev doomed : Indexer elastic
doomed = record empty { queue = doc 1 ∷ []; batch = doc 2000 ∷ [] }

no_day : with_days elastic doomed.batch ≡ raised
unfolding with_days
no_day = refl

bulk-ends_example : ((bulk elastic doomed).indexed ≡ 0) × (1 ≤ length (bulk elastic doomed).queue)
bulk-ends_example = bulk-ends elastic doomed (bulk elastic doomed) 0 no_day at_start

abbrev waiting : Indexer elastic
waiting = record empty { queue = doc 1 ∷ doc 2 ∷ doc 3 ∷ [] }

waiting-IsReady : IsReady elastic waiting
waiting-IsReady = (refl, (day, (day, (day, tt))), tt, omega arith)
  where
    day : (d : String) × ((ok "1970.01.01") ≡ ok d)
    day = ("1970.01.01", refl)

work-ends_example :
    let t = work elastic (1 ∷ 0 ∷ 1 ∷ 2 ∷ 1 ∷ []) (stop elastic waiting) in
    (t.is_running ≡ false)
    × (t.queue ≡ [])
    × (t.batch ≡ [])
    × (t.indexed + t.failed + t.dropped ≡ 3)
work-ends_example =
    work-ends elastic (1 ∷ 0 ∷ 1 ∷ 2 ∷ 1 ∷ []) waiting waiting-IsReady refl (omega arith)

-- the batch of a worker that ends goes with it
lost_batch : (bulk elastic doomed).batch ≡ []
unfolding bulk with_days
lost_batch = refl
