-- ===== src/Ingestion/LogIndexer.antt =====
-- ingestion/logs/es_log_indexer.py. The text of a message, the day of a timestamp and Elasticsearch
-- are the parameter `Elastic`. The threads take turns at the steps of `Step`: the worker's batch is
-- part of the state, and where its deadline ends a batch is left open.
pub mod Conserved
pub mod Drained
pub mod Stopped
use distrosense.Base.{
  ℕ, zero, suc, ◌+◌, ◌-◌, String, Bool, true, false, not, ◌&&◌, ◌||◌, Option, none, some, List, [],
  ◌∷◌, ◌++◌, length, select, Result, ok, raised, ◌>>=◌, if◌then◌else◌, ltb, leb, string_eq, ◌==◌,
  ◌≡◌,
}

-- the fields of a SpanPayload that are read here
pub record LogSpan (Float : Type 0) : Type 0 where
  pub trace_id : String
  pub span_id : String
  pub service_id : String
  pub timestamp : ℕ
  pub cpu_percent : Float
  pub latency_p99 : Float
  pub error_rate : Float
  pub request_rate : Float
  pub anomaly_type : Option String
  pub is_anomaly : Bool

pub record LogDoc : Type 0 where
  pub timestamp : ℕ
  pub service_id : String
  pub level : String
  pub message : String
  pub trace_id : String
  pub span_id : String

-- `message` formats the readings, with the kind of the anomaly at the end unless it is missing or
-- empty; `day_of` is the day of a timestamp, which raises outside the calendar; `post` sends the
-- documents with their days and tells, of each item of the answer, whether it has an error; it raises
-- where the request fails.
pub record Elastic : Type 1 where
  pub Float : Type 0
  pub message : LogSpan Float → String
  pub day_of : ℕ → Result String
  pub W : Type 0
  pub post : W → List (String × LogDoc) → W × Result (List Bool)

unfoldable pub level_of : Bool → Option String → String
level_of false kind = "INFO"
level_of true none = "WARN"
level_of true (some kind) = if kind == "ERROR_RATE_SPIKE" then "ERROR" else "WARN"

module _ (e : Elastic) where
  open e use {Float, message, day_of, W, post}

  unfoldable pub span_to_log_doc : LogSpan Float → LogDoc
  unfolding level_of
  span_to_log_doc span = record {
    timestamp = span.timestamp;
    service_id = span.service_id;
    level = level_of span.is_anomaly span.anomaly_type;
    message = message span;
    trace_id = span.trace_id;
    span_id = span.span_id;
  }

  -- the queue with its bound, the worker's batch and whether it runs, and the three counters
  pub record Indexer : Type 0 where
    pub batch_size : ℕ
    pub max_queue : ℕ
    pub queue : List LogDoc
    pub batch : List LogDoc
    pub is_running : Bool
    pub is_stopped : Bool
    pub indexed : ℕ
    pub failed : ℕ
    pub dropped : ℕ
    pub world : W

  -- `__init__` and `start`
  unfoldable pub new_indexer : ℕ → ℕ → W → Indexer
  new_indexer batch_size max_queue w = record {
    batch_size = batch_size;
    max_queue = max_queue;
    queue = [];
    batch = [];
    is_running = true;
    is_stopped = false;
    indexed = 0;
    failed = 0;
    dropped = 0;
    world = w;
  }

  -- put_nowait raises queue.Full; a bound of 0 is no bound
  abbrev pub is_full : Indexer → Bool
  is_full s = ltb 0 s.max_queue && leb s.max_queue (length s.queue)

  unfoldable pub add : Indexer → LogSpan Float → Indexer
  unfolding span_to_log_doc
  add s span =
      if is_full s
      then record s { dropped = suc s.dropped }
      else record s { queue = s.queue ++ span_to_log_doc span ∷ [] }

  unfoldable pub stop : Indexer → Indexer
  stop s = record s { is_stopped = true }

  abbrev pub take_from : Indexer → List LogDoc → Indexer
  take_from s [] = s
  take_from s (d ∷ queue) = record s { queue = queue; batch = s.batch ++ d ∷ [] }

  -- the worker gets a document for its batch
  unfoldable pub take_one : Indexer → Indexer
  take_one s = if ltb (length s.batch) s.batch_size then take_from s s.queue else s

  -- the days of the documents: the first that raises ends the loop
  unfoldable pub with_days : List LogDoc → Result (List (String × LogDoc))
  with_days [] = ok []
  with_days (d ∷ docs) =
      day_of d.timestamp >>= λ day. with_days docs >>= λ rest. ok ((day, d) ∷ rest)

  -- the counters after the request: a negative increment raises ValueError, which is handled as a
  -- failure of the request
  abbrev pub count_items : Indexer → ℕ → Result (List Bool) → Indexer
  count_items s sent raised = record s { failed = s.failed + sent }
  count_items s sent (ok items) =
      let errors = length (select (λ error. error) items) in
      if leb errors sent
      then record s { indexed = s.indexed + (sent - errors); failed = s.failed + errors }
      else record s { failed = s.failed + sent }

  -- `_bulk` after its loop: the batch is settled, or gone with the thread
  abbrev pub send : Indexer → Result (List (String × LogDoc)) → Indexer
  send s raised = record s { is_running = false; batch = [] }
  send s (ok lines) =
      let (w, items) = post s.world lines in
      count_items (record s { world = w; batch = [] }) (length s.batch) items

  -- The worker sends its batch. What the loop over the days raises ends the thread, with the batch.
  unfoldable pub bulk : Indexer → Indexer
  unfolding with_days
  bulk s = send s (with_days s.batch)

  -- `if batch`
  abbrev pub bulk_if : Indexer → List LogDoc → Indexer
  bulk_if s [] = s
  bulk_if s (d ∷ docs) = bulk s

  unfoldable pub flush : Indexer → Indexer
  unfolding bulk
  flush s = bulk_if s s.batch

  abbrev pub is_nil : List LogDoc → Bool
  is_nil [] = true
  is_nil (d ∷ docs) = false

  -- the worker's loop is over: the negation of its condition
  abbrev pub is_over : Indexer → Bool
  is_over s = s.is_stopped && is_nil s.queue

  unfoldable pub finish : Indexer → Indexer
  finish s = record s { is_running = false }

  -- what the threads may do, with the number of spans that it adds
  pub data Step (s : Indexer) : Indexer → ℕ → Type 0 where
    adds : (span : LogSpan Float) → Step s (add s span) 1
    stops : Step s (stop s) 0
    takes : s.is_running ≡ true → Step s (take_one s) 0
    flushes : s.is_running ≡ true → Step s (flush s) 0
    ends : s.is_running ≡ true → is_over s ≡ true → s.batch ≡ [] → Step s (finish s) 0

  -- any number of steps
  pub data Run (s : Indexer) : Indexer → ℕ → Type 0 where
    at_start : Run s s 0
    then_step : (mid last : Indexer) (n k : ℕ) → Run s mid n → Step mid last k → Run s last (n + k)

  -- the inner loop ends: by its condition, or by `break`
  abbrev pub gives_up : Indexer → Bool
  gives_up s = not (ltb (length s.batch) s.batch_size) || is_over s

  -- The inner loop, with how often it goes round before the deadline. A round on an empty queue waits
  -- in vain.
  unfoldable pub gather : ℕ → Indexer → Indexer
  unfolding take_one
  gather zero s = s
  gather (suc n) s = let rest = gather n (take_one s) in if gives_up s then s else rest

  -- `_run`, once nothing more is added: the numbers are how often the inner loops can go round. An
  -- exception has ended the thread where it does not run.
  unfoldable pub work : List ℕ → Indexer → Indexer
  unfolding gather flush finish
  work [] s = s
  work (n ∷ ns) s =
      let rest = work ns (flush (gather n s)) in
      if not s.is_running then s else if is_over s then finish s else rest
