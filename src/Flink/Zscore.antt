-- ===== src/Flink/Zscore.antt =====
-- flink_jobs/operators/zscore_trigger.py: ZScoreTrigger and build_anomaly; and
-- flink_jobs/models/anomaly_event.py: compute_severity. Floats with what numpy and the built-in
-- functions compute on them, and uuid5, are the parameter `Numbers`.
pub mod Once
pub mod Severity
use distrosense.Base.{
  ℕ, ◌+◌, ◌-◌, ◌*◌, String, Bool, true, false, Option, none, some, List, [], ◌∷◌, length, map,
  Result, ok, raised, ltb, if◌then◌else◌,
}

-- METRIC_FIELDS, in their order
pub data Metric : Type 0 where
  cpu_percent latency_p99 error_rate request_rate : Metric

-- ANOMALY_TYPES
unfoldable pub anomaly_type_of : Metric → String
anomaly_type_of cpu_percent = "CPU_SPIKE"
anomaly_type_of latency_p99 = "LATENCY_BURST"
anomaly_type_of error_rate = "ERROR_RATE_SPIKE"
anomaly_type_of request_rate = "REQUEST_DROP"

-- `z_scores rows row` is the row's distance from the means in standard deviations, for each metric.
-- `negate` multiplies by -1.0, `score` is min(1.0, abs(z) / 10.0), `round_4` is round(z, 4), and
-- `is_at_least x n` compares with n hundredths.
pub record Numbers : Type 1 where
  pub Float : Type 0
  pub z_scores : List (Metric → Float) → (Metric → Float) → Metric → Float
  pub negate : Float → Float
  pub is_less : Float → Float → Bool
  pub is_at_most : Float → Float → Bool
  pub round_4 : Float → Float
  pub score : Float → Float
  pub is_at_least : Float → ℕ → Bool
  pub uuid5 : String → ℕ → String → String

abbrev pub slide_interval : ℕ
slide_interval = 30000

module _ (n : Numbers) where
  open n use {Float, z_scores, negate, is_less, is_at_most, round_4, score, is_at_least, uuid5}

  -- the fields of a MetricEvent that are read here
  pub record Event : Type 0 where
    pub timestamp : ℕ
    pub metric : Metric → Float
    pub trace_id : String
    pub span_id : String

  pub record ZScoreTrigger : Type 0 where
    pub threshold : Float
    pub min_events : ℕ

  pub record Candidate : Type 0 where
    pub anomaly_type : String
    pub z_score : Float
    pub event : Event

  -- max(range(len(events)), key=timestamp) of a list that begins with `best`: the first of the latest
  unfoldable pub latest : Event → List Event → Event
  latest best [] = best
  latest best (e ∷ events) = latest (if ltb best.timestamp e.timestamp then e else best) events

  -- z * DIRECTION
  unfoldable pub toward_anomaly : (Metric → Float) → Metric → Float
  toward_anomaly z request_rate = negate (z request_rate)
  toward_anomaly z m = z m

  abbrev pub better : (Metric → Float) → Metric → Metric → Metric
  better z best m = if is_less (z best) (z m) then m else best

  -- np.argmax
  unfoldable pub argmax : (Metric → Float) → Metric
  argmax z = better z (better z (better z cpu_percent latency_p99) error_rate) request_rate

  -- the latest event is there and new
  unfoldable pub judge : ZScoreTrigger → List Event → Event → Option Candidate
  unfolding toward_anomaly argmax anomaly_type_of
  judge t events event =
      let z = z_scores (map (λ e. e.metric) events) event.metric in
      let col = argmax (toward_anomaly z) in
      if is_at_most (toward_anomaly z col) t.threshold
      then none
      else some
          (record { anomaly_type = anomaly_type_of col; z_score = round_4 (z col); event = event })

  abbrev pub judge_new : ZScoreTrigger → List Event → ℕ → Event → Option Candidate
  judge_new t events new_from_ms event =
      if ltb event.timestamp new_from_ms then none else judge t events event

  -- max raises on an empty sequence
  abbrev pub judge_latest : ZScoreTrigger → List Event → ℕ → Result (Option Candidate)
  judge_latest t [] new_from_ms = raised
  judge_latest t (e ∷ events) new_from_ms =
      ok (judge_new t (e ∷ events) new_from_ms (latest e events))

  unfoldable pub evaluate : ZScoreTrigger → List Event → ℕ → Result (Option Candidate)
  unfolding latest judge
  evaluate t events new_from_ms =
      if ltb (length events) t.min_events then ok none else judge_latest t events new_from_ms

  -- the call of `evaluate` in ZScoreWindowFunction.process: a negative bound excludes nothing
  abbrev pub evaluate_window : ZScoreTrigger → List Event → ℕ → Result (Option Candidate)
  evaluate_window t events window_end = evaluate t events (window_end - slide_interval)

  -- AnomalyEvent.compute_severity
  unfoldable pub compute_severity : Float → ℕ
  compute_severity anomaly_score =
      if is_at_least anomaly_score 90
      then 5
      else if is_at_least anomaly_score 75
      then 4
      else if is_at_least anomaly_score 55
      then 3
      else if is_at_least anomaly_score 35
      then 2
      else 1

  pub record AnomalyEvent : Type 0 where
    pub id : String
    pub service_id : String
    pub anomaly_type : String
    pub severity : ℕ
    pub anomaly_score : Float
    pub model_used : String
    pub detected_at : ℕ
    pub z_score : Float
    pub trace_id : Option String
    pub span_id : Option String

  unfoldable pub build_anomaly : String → Candidate → AnomalyEvent
  unfolding compute_severity
  build_anomaly service_id c =
      let anomaly_score = score c.z_score in
      record {
        id = uuid5 service_id c.event.timestamp c.anomaly_type;
        service_id = service_id;
        anomaly_type = c.anomaly_type;
        severity = compute_severity anomaly_score;
        anomaly_score = anomaly_score;
        model_used = "ZSCORE";
        detected_at = c.event.timestamp;
        z_score = c.z_score;
        trace_id = some c.event.trace_id;
        span_id = some c.event.span_id;
      }
