-- ===== src/Flink/Decoder.antt =====
-- flink_jobs/models/metric_event.py: MetricEvent; flink_jobs/resilience.py; and DecodeSpan of
-- flink_jobs/operators/span_decoder.py. The schema registry, fastavro and json are the parameter
-- `Codecs`; bytes and the characters of a text are numbers. Each field of a MetricEvent holds
-- whatever JSON value the record has, as from_dict does not look at it.
pub mod Events
pub mod Registry
use distrosense.Base.{
  ℕ, zero, suc, ◌+◌, ◌*◌, ◌%◌, String, Bool, true, false, not, ◌&&◌, ◌||◌, Option, none, some, List,
  [], ◌∷◌, length, all, Result, ok, raised, ◌>>=◌, if◌then◌else◌, ltb, leb, nat_eq, string_eq, ◌==◌,
}
use distrosense.Base.Dict.{Dict, get, put}
use distrosense.Base.Json.{
  Json, null, boolean, number, text, object, Fields, no_fields, field, find, find_or, get_attr,
  truthy,
}

-- `get_schema` fetches and parses a schema, which either raises; `read` is schemaless_reader;
-- `json_loads` decodes UTF-8 and JSON, and is none for the two errors that safe_json_loads catches.
-- `of_nat` is a number of JSON.
pub record Codecs : Type 1 where
  pub Number : Type 0
  pub is_zero : Number → Bool
  pub of_nat : ℕ → Number
  pub Schema : Type 0
  pub W : Type 0
  pub get_schema : W → ℕ → W × Result Schema
  pub read : Schema → List ℕ → Result (Json Number)
  pub json_loads : List ℕ → Option (Json Number)

module _ (c : Codecs) where
  open c use {Number, is_zero, of_nat, Schema, W, get_schema, read, json_loads}

  abbrev pub Value : Type 0
  Value = Json Number

  abbrev pub is_true : Value → Bool
  is_true v = truthy is_zero v

  pub record MetricEvent : Type 0 where
    pub trace_id : Value
    pub span_id : Value
    pub service_id : Value
    pub timestamp : Value
    pub cpu_percent : Value
    pub latency_p99 : Value
    pub error_rate : Value
    pub request_rate : Value
    pub anomaly_type : Value
    pub is_anomaly : Value

  -- d.get("metrics") or d
  abbrev pub metrics_of : Value → Result Value
  metrics_of d = do metrics ← get_attr d "metrics" null; ok (if is_true metrics then metrics else d)

  abbrev pub zero_reading : Value
  zero_reading = number (of_nat 0)

  unfoldable pub from_dict : Value → Result MetricEvent
  from_dict d = do
    metrics ← metrics_of d
    trace_id ← get_attr d "trace_id" (text "")
    span_id ← get_attr d "span_id" (text "")
    service_id ← get_attr d "service_id" (text "")
    timestamp ← get_attr d "timestamp" (number (of_nat 0))
    cpu_percent ← get_attr metrics "cpu_percent" zero_reading
    latency_p99 ← get_attr metrics "latency_p99" zero_reading
    error_rate ← get_attr metrics "error_rate" zero_reading
    request_rate ← get_attr metrics "request_rate" zero_reading
    anomaly_type ← get_attr d "anomaly_type" null
    is_anomaly ← get_attr d "is_anomaly" (boolean false)
    ok (record {
      trace_id = trace_id;
      span_id = span_id;
      service_id = service_id;
      timestamp = timestamp;
      cpu_percent = cpu_percent;
      latency_p99 = latency_p99;
      error_rate = error_rate;
      request_rate = request_rate;
      anomaly_type = anomaly_type;
      is_anomaly = is_anomaly;
    })

  unfoldable pub to_dict : MetricEvent → Value
  to_dict e = object (
      field "trace_id" e.trace_id (
        field "span_id" e.span_id (
          field "service_id" e.service_id (
            field "timestamp" e.timestamp (
              field "cpu_percent" e.cpu_percent (
                field "latency_p99" e.latency_p99 (
                  field "error_rate" e.error_rate (
                    field "request_rate" e.request_rate (
                      field "anomaly_type" e.anomaly_type
                        (field "is_anomaly" e.is_anomaly no_fields))))))))))

  unfoldable pub feature_vector : MetricEvent → List Value
  feature_vector e = e.cpu_percent ∷ e.latency_p99 ∷ e.error_rate ∷ e.request_rate ∷ []

  pub record ThrottledErrorLog : Type 0 where
    pub every : ℕ
    pub count : ℕ

  -- the log after an error, and whether it prints
  unfoldable pub log_error : ThrottledErrorLog → ThrottledErrorLog × Bool
  log_error l = (record l { count = suc l.count }, suc l.count % l.every == 1)

  -- DecodeSpan with its SpanDecoder, the counter DECODE_FAILURES and the world
  pub record Decoder : Type 0 where
    pub schemas : Dict ℕ Schema
    pub log : ThrottledErrorLog
    pub decode_failures : ℕ
    pub world : W

  -- `_count_decode_failure`, and M.DECODE_FAILURES.inc()
  abbrev pub count_failure : Decoder → Decoder
  count_failure s = record s { decode_failures = suc s.decode_failures }

  -- the handler of `_decode_avro`
  unfoldable pub on_error : Decoder → Decoder
  unfolding log_error
  on_error s = count_failure (record s { log = (log_error s.log).0 })

  -- struct.unpack(">I", raw[1:5])
  unfoldable pub schema_id_of : List ℕ → ℕ
  schema_id_of (magic ∷ a ∷ b ∷ c ∷ d ∷ body) = ((a * 256 + b) * 256 + c) * 256 + d
  schema_id_of _ = 0

  -- raw[5:]
  abbrev pub body_of : List ℕ → List ℕ
  body_of (magic ∷ a ∷ b ∷ c ∷ d ∷ body) = body
  body_of _ = []

  abbrev pub fetched : Decoder → ℕ → W × Result Schema → Decoder × Result Schema
  fetched s schema_id (w, raised) = (record s { world = w }, raised)
  fetched s schema_id (w, ok schema) =
      (record s { world = w; schemas = put s.schemas schema_id schema }, ok schema)

  -- the schema from the cache, or from the registry
  unfoldable pub schema_for : Decoder → ℕ → Decoder × Result Schema
  schema_for s schema_id = elim (get s.schemas schema_id) [
    | some schema ↦ (s, ok schema)
    | none ↦ fetched s schema_id (get_schema s.world schema_id)
  ]

  -- null stands for None
  abbrev pub decoded : Decoder → Result Value → Decoder × Value
  decoded s raised = (on_error s, null)
  decoded s (ok v) = (s, v)

  abbrev pub read_with : List ℕ → Decoder × Result Schema → Decoder × Value
  read_with raw (s, schema) = decoded s (schema >>= λ x. read x (body_of raw))

  unfoldable pub decode_avro : Decoder → List ℕ → Decoder × Value
  unfolding schema_for on_error schema_id_of
  decode_avro s raw = read_with raw (schema_for s (schema_id_of raw))

  -- an undecodable payload is None, and so is the payload `null`
  unfoldable pub safe_json_loads : List ℕ → Value
  safe_json_loads raw = elim (json_loads raw) [ none ↦ null | some v ↦ v ]

  -- SpanDecoder.__call__
  unfoldable pub decode_span : Decoder → List ℕ → Decoder × Value
  unfolding decode_avro safe_json_loads
  decode_span s [] = (s, null)
  decode_span s (b ∷ raw) =
      if (b == 0) && ltb 5 (length (b ∷ raw))
      then decode_avro s (b ∷ raw)
      else (s, safe_json_loads (b ∷ raw))

  -- the event time: the arrival where there is none
  abbrev pub with_time : ℕ → MetricEvent → MetricEvent
  with_time now e = if is_true e.timestamp then e else record e { timestamp = number (of_nat now) }

  abbrev pub emit : Decoder → ℕ → MetricEvent → Decoder × Option MetricEvent
  emit s now e =
      if not (is_true e.service_id) || not (is_true e.span_id)
      then (count_failure s, none)
      else (s, some (with_time now e))

  -- AttributeError of from_dict escapes
  abbrev pub settled : Decoder → ℕ → Result MetricEvent → Decoder × Result (Option MetricEvent)
  settled s now raised = (s, raised)
  settled s now (ok e) = let (after, out) = emit s now e in (after, ok out)

  unfoldable pub convert : Decoder → ℕ → Value → Decoder × Result (Option MetricEvent)
  unfolding from_dict
  convert s now null = (s, ok none)
  convert s now v = settled s now (from_dict v)

  -- UnicodeEncodeError of a character that Latin-1 has not
  unfoldable pub flat_map : Decoder → ℕ → List ℕ → Decoder × Result (Option MetricEvent)
  unfolding decode_span convert
  flat_map s now value =
      if all (λ char. ltb char 256) value
      then (let (after, v) = decode_span s value in convert after now v)
      else (count_failure s, ok none)
