-- ===== src/Ingestion/Pipeline.antt =====
-- ingestion/pipeline.py, ingestion/models.py, and IngestSpanBatch of ingestion/api/grpc_server.py.
-- Redis, Kafka and the log index are a parameter over one state W, and so are floats and strings'
-- lengths. What the servicer takes from the protocol's Span to a dictionary is left out.
pub mod Counts
use distrosense.Base.{
  ℕ, suc, ◌+◌, String, Bool, true, false, Option, none, some, List, [], ◌∷◌, Result, ok, raised,
  ◌>>=◌, Field, missing, null, value, require, get_opt, get_default, ◌&&◌, leb, ltb, nat_eq, ◌==◌,
  if◌then◌else◌,
}

-- Floats, and the length of a string in characters.
pub record Values : Type 1 where
  pub Float : Type 0
  pub characters : String → ℕ
  pub is_between : ℕ → ℕ → Float → Bool
  pub is_not_negative : Float → Bool

pub data Outcome : Type 0 where
  accepted rejected duplicate failed : Outcome

module _ (v : Values) where
  open v use {Float, characters, is_between, is_not_negative}

  -- the dictionary that SpanPayload validates
  pub record Raw : Type 0 where
    pub trace_id : Field String
    pub span_id : Field String
    pub service_id : Field String
    pub timestamp : Field ℕ
    pub cpu_percent : Field Float
    pub latency_p99 : Field Float
    pub error_rate : Field Float
    pub request_rate : Field Float
    pub anomaly_type : Field String
    pub is_anomaly : Field Bool

  pub record SpanPayload : Type 0 where
    pub trace_id : String
    pub span_id : String
    pub service_id : String
    pub timestamp : ℕ
    pub cpu_percent : Float
    pub latency_p99 : Float
    pub error_rate : Float
    pub request_rate : Float
    pub anomaly_type : Option String
    pub is_anomaly : Bool

  abbrev pub check {ℓ} : {A : Type ℓ} → (A → Bool) → Field A → Result A
  check test field = do a ← require field; if test a then ok a else raised

  -- Field(min_length=1, max_length=64)
  abbrev pub is_name : String → Bool
  is_name s = leb 1 (characters s) && leb (characters s) 64

  -- SpanPayload(**raw): a ValidationError is `raised`
  unfoldable pub validate : Raw → Result SpanPayload
  validate raw = do
    trace_id ← check is_name raw.trace_id
    span_id ← check is_name raw.span_id
    service_id ← check is_name raw.service_id
    timestamp ← check (λ t. ltb 0 t) raw.timestamp
    cpu_percent ← check (is_between 0 100) raw.cpu_percent
    latency_p99 ← check is_not_negative raw.latency_p99
    error_rate ← check (is_between 0 1) raw.error_rate
    request_rate ← check is_not_negative raw.request_rate
    is_anomaly ← get_default raw.is_anomaly false
    ok (record {
      trace_id = trace_id;
      span_id = span_id;
      service_id = service_id;
      timestamp = timestamp;
      cpu_percent = cpu_percent;
      latency_p99 = latency_p99;
      error_rate = error_rate;
      request_rate = request_rate;
      anomaly_type = get_opt raw.anomaly_type;
      is_anomaly = is_anomaly;
    })

  -- `seen_or_add` and `index_log` are none where the pipeline is made without the component.
  pub record Services : Type 1 where
    pub W : Type 0
    pub seen_or_add : Option (W → String → W × Result Bool)
    pub publish : W → SpanPayload → W × Result Bool
    pub index_log : Option (W → SpanPayload → W)

module _ (v : Values) (o : Services v) where
  open o use {W}

  -- the counters, and the state of the components
  pub record Pipeline : Type 0 where
    pub world : W
    pub spans_received : ℕ
    pub spans_rejected : ℕ
    pub spans_duplicate : ℕ
    pub dedup_errors : ℕ
    pub spans_accepted : ℕ

  -- self._log_indexer.add(span)
  abbrev pub indexed : Option (W → SpanPayload v → W) → W → SpanPayload v → W
  indexed none w span = w
  indexed (some add) w span = add w span

  -- from the publication on: what it raises is not caught
  abbrev pub settle : Pipeline → SpanPayload v → W × Result Bool → Pipeline × Result Outcome
  settle p span (w, raised) = (record p { world = w }, raised)
  settle p span (w, ok false) = (record p { world = w }, ok failed)
  settle p span (w, ok true) = (
    record p { world = indexed o.index_log w span; spans_accepted = suc p.spans_accepted },
    ok accepted,
  )

  unfoldable pub forward : Pipeline → SpanPayload v → Pipeline × Result Outcome
  forward p span = settle p span (o.publish p.world span)

  -- after the answer of the deduplication: an exception lets the span through
  unfoldable pub judge : Pipeline → SpanPayload v → W × Result Bool → Pipeline × Result Outcome
  unfolding forward
  judge p span (w, raised) =
      forward (record p { world = w; dedup_errors = suc p.dedup_errors }) span
  judge p span (w, ok true) =
      (record p { world = w; spans_duplicate = suc p.spans_duplicate }, ok duplicate)
  judge p span (w, ok false) = forward (record p { world = w }) span

  abbrev pub deduplicate :
      Option (W → String → W × Result Bool) → Pipeline → SpanPayload v → Pipeline × Result Outcome
  deduplicate none p span = forward p span
  deduplicate (some seen) p span = judge p span (seen p.world span.span_id)

  abbrev pub admit : Pipeline → Result (SpanPayload v) → Pipeline × Result Outcome
  admit p raised = (record p { spans_rejected = suc p.spans_rejected }, ok rejected)
  admit p (ok span) = deduplicate o.seen_or_add p span

  unfoldable pub ingest : Pipeline → Raw v → Pipeline × Result Outcome
  unfolding validate judge
  ingest p raw = admit (record p { spans_received = suc p.spans_received }) (validate v raw)

  -- The generator in Counter: an exception of `ingest` ends it, and is raised again.
  abbrev pub go_on :
      (Pipeline → Pipeline × List Outcome × Bool)
      → Pipeline × Result Outcome
      → Pipeline × List Outcome × Bool
  go_on rest (p, raised) = (p, [], false)
  go_on rest (p, ok outcome) = let (q, found, done) = rest p in (q, outcome ∷ found, done)

  -- the outcomes of the spans, and whether no span raised
  unfoldable pub outcomes : Pipeline → List (Raw v) → Pipeline × List Outcome × Bool
  unfolding ingest
  outcomes p [] = (p, [], true)
  outcomes p (raw ∷ spans) = go_on (λ q. outcomes q spans) (ingest p raw)

abbrev pub same : Outcome → Outcome → Bool
same accepted accepted = true
same rejected rejected = true
same duplicate duplicate = true
same failed failed = true
same _ _ = false

-- Counter(...)[outcome]
unfoldable pub count : Outcome → List Outcome → ℕ
count k [] = 0
count k (x ∷ xs) = (if same k x then 1 else 0) + count k xs

pub record IngestResponse : Type 0 where
  pub success : Bool
  pub spans_accepted : ℕ

unfoldable pub respond : List Outcome → Bool → Result IngestResponse
unfolding count
respond found false = raised
respond found true = ok (record {
  success = (count rejected found == 0) && (count failed found == 0);
  spans_accepted = count accepted found;
})

module _ (v : Values) (o : Services v) where
  -- IngestSpanBatch on the dictionaries of the spans
  unfoldable pub ingest_span_batch :
      Pipeline v o → List (Raw v) → Pipeline v o × Result IngestResponse
  unfolding outcomes respond
  ingest_span_batch p spans = let (q, found, done) = outcomes v o p spans in (q, respond found done)
