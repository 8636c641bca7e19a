-- ===== src/Flink/Windows.antt =====
-- The window functions that emit to Kafka: MetricAggregationWindow with aggregate_events
-- (flink_jobs/operators/window_aggregator.py), ZScoreWindowFunction.process
-- (flink_jobs/operators/zscore_trigger.py), and RedisTopKSink (flink_jobs/sinks/redis_sink.py). What
-- is emitted is the record before json.dumps. numpy, the text of a time and the Redis client are
-- parameters.
pub mod Stored
use distrosense.Base.{
  ℕ, suc, String, Bool, true, false, Option, none, some, List, [], ◌∷◌, length, map, Result, ok,
  raised, Field, value,
}
use distrosense.Flink.Sink.{
  Database, Sink, Aggregate, AnomalyRow, write_metric, write_anomaly, rows, MetricRow,
}
use distrosense.Flink.Zscore.{
  Metric, cpu_percent, latency_p99, error_rate, request_rate, Numbers, Event, ZScoreTrigger,
  Candidate, AnomalyEvent, build_anomaly, evaluate, evaluate_window,
}

-- np.mean, np.max and np.percentile(xs, 99), as floats of the database; iso_utc
pub record Numpy (db : Database) : Type 0 where
  pub mean : List db.Float → db.Float
  pub maximum : List db.Float → db.Float
  pub percentile_99 : List db.Float → db.Float
  pub iso_utc : ℕ → String

module _ (db : Database) (p : Numpy db) where
  open db use {Float}
  open p use {mean, maximum, percentile_99, iso_utc}

  -- the readings of an event
  abbrev pub Readings : Type 0
  Readings = Metric → Float

  pub record WindowAggregate : Type 0 where
    pub service_id : String
    pub window_start_ms : ℕ
    pub window_end_ms : ℕ
    pub cpu_mean : Float
    pub cpu_max : Float
    pub latency_p99 : Float
    pub latency_mean : Float
    pub error_rate_mean : Float
    pub request_rate_mean : Float
    pub span_count : ℕ

  unfoldable pub aggregate_events : String → ℕ → ℕ → List Readings → WindowAggregate
  aggregate_events service_id window_start_ms window_end_ms events =
      let cpu = map (λ e. e cpu_percent) events in
      let lat = map (λ e. e Metric.latency_p99) events in
      let err = map (λ e. e error_rate) events in
      let req = map (λ e. e request_rate) events in
      record {
        service_id = service_id;
        window_start_ms = window_start_ms;
        window_end_ms = window_end_ms;
        cpu_mean = mean cpu;
        cpu_max = maximum cpu;
        latency_p99 = percentile_99 lat;
        latency_mean = mean lat;
        error_rate_mean = mean err;
        request_rate_mean = mean req;
        span_count = length events;
      }

  -- the dictionary that write_metric reads: {**aggregate, "timestamp_iso": ...}
  abbrev pub row_of : WindowAggregate → Aggregate db
  row_of a = record {
    timestamp_iso = iso_utc a.window_end_ms;
    service_id = a.service_id;
    cpu_mean = value a.cpu_mean;
    latency_p99 = value a.latency_p99;
    error_rate_mean = value a.error_rate_mean;
    request_rate_mean = value a.request_rate_mean;
  }

  pub record MetricAggregationWindow : Type 0 where
    pub tsdb : Sink db
    pub windows_flushed : ℕ

  abbrev pub flushed :
      MetricAggregationWindow
      → WindowAggregate
      → Sink db × Bool
      → MetricAggregationWindow × Result (List WindowAggregate)
  flushed s a (sink, true) =
      (record { tsdb = sink; windows_flushed = suc s.windows_flushed }, ok (a ∷ []))
  flushed s a (sink, false) = (record s { tsdb = sink }, raised)

  unfoldable pub process_metrics :
      MetricAggregationWindow
      → String
      → ℕ
      → ℕ
      → List Readings
      → MetricAggregationWindow × Result (List WindowAggregate)
  unfolding aggregate_events
  process_metrics s key start end [] = (s, ok [])
  process_metrics s key start end (e ∷ events) =
      let a = aggregate_events key start end (e ∷ events) in
      flushed s a (write_metric db (row_of a) s.tsdb)

  -- The Redis client: the pipeline of ZADD and ZREMRANGEBYRANK on a key, for a member, its score and
  -- the size to keep, which raises RedisError or not. A member is its service, kind and time.
  pub record TopK (n : Numbers) : Type 1 where
    pub R : Type 0
    pub add_and_trim : R → String × String × ℕ → n.Float → ℕ → R × Bool

  module _ (n : Numbers) (topk : TopK n) where
    abbrev pub anomaly_topk_size : ℕ
    anomaly_topk_size = 100

    -- the state of Redis, and what is returned
    unfoldable pub record_anomaly : topk.R → AnomalyEvent n → topk.R × Bool
    record_anomaly r a =
        topk.add_and_trim r (a.service_id, a.anomaly_type, a.detected_at) a.anomaly_score
          anomaly_topk_size

    pub record ZScoreWindowFunction : Type 0 where
      pub trigger : ZScoreTrigger n
      pub tsdb : Sink db
      pub redis : topk.R
      pub anomalies : ℕ

    -- the row of an anomaly
    abbrev pub anomaly_row : AnomalyEvent n → AnomalyRow Float
    anomaly_row a = record {
      id = some a.id;
      detected_at_iso = some (iso_utc a.detected_at);
      service_id = some a.service_id;
      anomaly_type = some a.anomaly_type;
      severity = some a.severity;
      model_used = some a.model_used;
      reconstruction_error = none;
    }

    abbrev pub stored :
        ZScoreWindowFunction
        → AnomalyEvent n
        → Sink db × Bool
        → ZScoreWindowFunction × Result (List (AnomalyEvent n))
    stored s a (sink, true) =
        (record s { tsdb = sink; redis = (record_anomaly s.redis a).0 }, ok (a ∷ []))
    stored s a (sink, false) = (record s { tsdb = sink }, raised)

    abbrev pub emit :
        ZScoreWindowFunction
        → String
        → Result (Option (Candidate n))
        → ZScoreWindowFunction × Result (List (AnomalyEvent n))
    emit s key raised = (s, raised)
    emit s key (ok none) = (s, ok [])
    emit s key (ok (some candidate)) =
        let a = build_anomaly n key candidate in
        stored (record s { anomalies = suc s.anomalies }) a
          (write_anomaly db (anomaly_row a) s.tsdb)

    unfoldable pub process_scores :
        ZScoreWindowFunction
        → String
        → ℕ
        → List (Event n)
        → ZScoreWindowFunction × Result (List (AnomalyEvent n))
    unfolding record_anomaly
    process_scores s key window_end events =
        emit s key (evaluate_window n s.trigger events window_end)
