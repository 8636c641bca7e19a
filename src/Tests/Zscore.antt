-- ===== src/Tests/Zscore.antt =====
-- Numbers for floats: the z-score is the metric itself, and scores are hundredths.
use distrosense.Base.{ℕ, ◌*◌, ◌≡◌, refl, some, List, [], ◌∷◌, ltb, leb, ok, min, arith}
use distrosense.Flink.Zscore.{
  Numbers, Metric, Event, ZScoreTrigger, Candidate, evaluate, evaluate_window, latest, argmax,
  judge, toward_anomaly, anomaly_type_of, slide_interval, cpu_percent,
}
use distrosense.Flink.Zscore.Once.{evaluate_window-once}

abbrev numbers : Numbers
numbers = record {
  Float = ℕ;
  z_scores = λ rows row. row;
  negate = λ x. 0;
  is_less = ltb;
  is_at_most = leb;
  round_4 = λ x. x;
  score = λ z. min 100 (10 * z);
  is_at_least = λ x hundredths. leb hundredths x;
  uuid5 = λ service_id timestamp anomaly_type. service_id;
}

flat : Metric → ℕ
flat m = 1

spiked : Metric → ℕ
spiked cpu_percent = 8
spiked m = 1

abbrev calm_event : Event numbers
calm_event = record { timestamp = 1000; metric = flat; trace_id = "t1"; span_id = "s1" }

abbrev spike_event : Event numbers
spike_event = record { timestamp = 61000; metric = spiked; trace_id = "t1"; span_id = "s2" }

abbrev trigger : ZScoreTrigger numbers
trigger = record { threshold = 3; min_events = 2 }

abbrev events : List (Event numbers)
events = calm_event ∷ spike_event ∷ []

abbrev candidate : Candidate numbers
candidate = record { anomaly_type = "CPU_SPIKE"; z_score = 8; event = spike_event }

found : evaluate_window numbers trigger events (3 * slide_interval) ≡ ok (some candidate)
unfolding evaluate latest judge argmax toward_anomaly anomaly_type_of flat spiked
found = refl

evaluate_window-once_example : ◌≡◌ {A = ℕ} 3 3
evaluate_window-once_example =
    evaluate_window-once numbers trigger 3 3 events events candidate candidate
      (omega arith, (omega arith, tt)) (omega arith, (omega arith, tt)) found found refl
