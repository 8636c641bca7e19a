-- ===== src/Flink/Windows/Stored.antt =====
-- The order of the database and of Kafka in flink_jobs/operators/window_aggregator.py and
-- flink_jobs/operators/zscore_trigger.py.
use distrosense.Base.{
  subst, ℕ, suc, String, Bool, true, false, Option, none, some, List, [], ◌∷◌, Result, ok, raised,
  ◌≡◌, refl, arith, ap,
}
use distrosense.Flink.Sink.{Database, Sink, Call, lift, insert_anomaly, write_anomaly}
use distrosense.Flink.Sink.Retry.{Committed, run-Committed}
use distrosense.Flink.Zscore.{Numbers, Event, AnomalyEvent, Candidate, evaluate_window}
use distrosense.Flink.Windows.{
  build_anomaly, Numpy, TopK, ZScoreWindowFunction, anomaly_row, stored, emit, process_scores,
}

module _ (db : Database) (p : Numpy db) (n : Numbers) (topk : TopK db p n) where
  abbrev insert : AnomalyEvent n → Call db
  insert a = lift db (λ w. db.execute w (insert_anomaly (anomaly_row db p n topk a)))

  -- the anomaly that is emitted, if one is
  abbrev emitted : AnomalyEvent n → Result (List (AnomalyEvent n)) → AnomalyEvent n
  emitted other (ok (a ∷ rest)) = a
  emitted other _ = other

  stored-Committed :
      (s t : ZScoreWindowFunction db p n topk) (a b : AnomalyEvent n) (sink : Sink db)
      (r : Sink db × Bool)
      → write_anomaly db (anomaly_row db p n topk a) sink ≡ r
      → stored db p n topk s a r ≡ (t, ok (b ∷ []))
      → Committed db (insert b) t.tsdb
  unfolding write_anomaly
  stored-Committed s t a b sink (after, true) written h =
      let same : a ≡ b = ap (λ r. emitted a r.1) h in
      let left : after ≡ t.tsdb = ap (λ r. r.0.tsdb) h in
      subst (λ x. Committed db (insert x) t.tsdb) same
        (subst (Committed db (insert a)) left (run-Committed db 2 (insert a) sink after written))
  stored-Committed s t a b sink (after, false) written h = absurd (ground arith)

  emit-Committed :
      (s t : ZScoreWindowFunction db p n topk) (key : String) (b : AnomalyEvent n)
      (c : Result (Option (Candidate n)))
      → emit db p n topk s key c ≡ (t, ok (b ∷ []))
      → Committed db (insert b) t.tsdb
  emit-Committed s t key b raised h = absurd (ground arith)
  emit-Committed s t key b (ok none) h = absurd (ground arith)
  emit-Committed s t key b (ok (some c)) h =
      let a = build_anomaly n key c in
      stored-Committed (record s { anomalies = suc s.anomalies }) t a b s.tsdb
        (write_anomaly db (anomaly_row db p n topk a) s.tsdb) refl h

  -- An anomaly that a window emits to Kafka is stored first: its row was inserted into TimescaleDB and
  -- the insertion was committed, whatever Redis did afterwards.
  pub process_scores-Committed :
      (s t : ZScoreWindowFunction db p n topk) (key : String) (window_end : ℕ)
      (events : List (Event n)) (a : AnomalyEvent n)
      → process_scores db p n topk s key window_end events ≡ (t, ok (a ∷ []))
      → Committed db (insert a) t.tsdb
  unfolding process_scores
  process_scores-Committed s t key window_end events a h =
      emit-Committed s t key a (evaluate_window n s.trigger events window_end) h
