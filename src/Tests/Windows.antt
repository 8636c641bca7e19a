-- ===== src/Tests/Windows.antt =====
-- A window with a spike, over a database that takes every statement and a Redis that is down.
use distrosense.Base.{ℕ, suc, ◌*◌, ◌≡◌, refl, List, [], ◌∷◌, ltb, leb, ok, min, true, false}
use distrosense.Flink.Sink.{Database, insert_anomaly, new_sink, lift, write_anomaly}
use distrosense.Flink.Sink.Retry.{Committed}
use distrosense.Flink.Zscore.{
  Numbers, Metric, Event, AnomalyEvent, build_anomaly, evaluate, slide_interval, cpu_percent,
}
use distrosense.Flink.Windows.{Numpy, TopK, ZScoreWindowFunction, process_scores, anomaly_row}
use distrosense.Flink.Windows.Stored.{process_scores-Committed}

abbrev database : Database
database = record {
  Float = ℕ;
  W = ℕ;
  connect = λ w. (suc w, true);
  execute = λ w s. (suc w, true);
  find_index = λ w. (suc w, ok true);
  commit = λ w. (suc w, true);
  rollback = λ w. (suc w, true);
  close = λ w. (suc w, true);
  is_closed = λ w. false;
}

abbrev first : List ℕ → ℕ
first [] = 0
first (x ∷ xs) = x

abbrev numpy : Numpy database
numpy = record { mean = first; maximum = first; percentile_99 = first; iso_utc = λ t. "1970-01-01" }

abbrev numbers : Numbers
numbers = record {
  Float = ℕ;
  z_scores = λ rows row. row;
  negate = λ x. 0;
  is_less = ltb;
  is_at_most = leb;
  round_4 = λ x. x;
  score = λ z. min 100 (10 * z);
  is_at_least = λ x hundredths. leb hundredths x;
  uuid5 = λ service_id timestamp anomaly_type. service_id;
}

abbrev topk : TopK database numpy numbers
topk = record { R = ℕ; add_and_trim = λ r member score size. (r, false) }

abbrev spiked : Metric → ℕ
spiked cpu_percent = 8
spiked m = 1

abbrev spike : Event numbers
spike = record { timestamp = 61000; metric = spiked; trace_id = "t1"; span_id = "s2" }

abbrev window : ZScoreWindowFunction database numpy numbers topk
window = record {
  trigger = record { threshold = 3; min_events = 1 };
  tsdb = new_sink database 0;
  redis = 0;
  anomalies = 0;
}

abbrev anomaly : AnomalyEvent numbers
anomaly =
    build_anomaly numbers "cart" (record { anomaly_type = "CPU_SPIKE"; z_score = 8; event = spike })

abbrev after : ZScoreWindowFunction database numpy numbers topk
after =
    (process_scores database numpy numbers topk window "cart" (3 * slide_interval) (spike ∷ [])).0

emitted :
    process_scores database numpy numbers topk window "cart" (3 * slide_interval) (spike ∷ [])
    ≡ (after, ok (anomaly ∷ []))
unfolding process_scores evaluate write_anomaly new_sink
emitted = refl

process_scores-Committed_example :
    Committed database
      (lift database (λ w.
        database.execute w (insert_anomaly (anomaly_row database numpy numbers topk anomaly))))
      after.tsdb
process_scores-Committed_example =
    process_scores-Committed database numpy numbers topk window after "cart" (3 * slide_interval)
      (spike ∷ []) anomaly emitted
