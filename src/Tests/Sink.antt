-- ===== src/Tests/Sink.antt =====
-- A database that counts the calls, and takes every statement or none.
use distrosense.Base.{ℕ, suc, ◌≡◌, refl, Bool, true, false, some, none, ok}
use distrosense.Flink.Sink.{
  Database, Sink, AnomalyRow, insert_anomaly, Call, new_sink, seq, catch, ensure_unique_index,
  open_conn, ensure_conn, reset, recover, body, run, lift,
}
use distrosense.Flink.Sink.Retry.{Committed, IsClean, run-Committed, run-IsClean}

abbrev database : Bool → Database
database works = record {
  Float = ℕ;
  W = ℕ;
  connect = λ w. (suc w, true);
  execute = λ w s. (suc w, works);
  find_index = λ w. (suc w, ok true);
  commit = λ w. (suc w, true);
  rollback = λ w. (suc w, true);
  close = λ w. (suc w, true);
  is_closed = λ w. false;
}

abbrev anomaly : AnomalyRow ℕ
anomaly = record {
  id = some "a1";
  detected_at_iso = some "2026-01-01T00:00:00+00:00";
  service_id = some "svc-a0bc923b";
  anomaly_type = some "CPU_SPIKE";
  severity = some 4;
  model_used = some "ZSCORE";
  reconstruction_error = none;
}

abbrev insert : (works : Bool) → Call (database works)
insert works = lift (database works) (λ w. (database works).execute w (insert_anomaly anomaly))

abbrev stored : Sink (database true)
stored = record { has_conn = true; idempotent_metrics = true; world = 7 }

program : Unit {0}
unfolding run body recover reset ensure_conn open_conn ensure_unique_index seq catch new_sink
program = tt

returns : run (database true) 2 (insert true) (new_sink (database true) 0) ≡ (stored, true)
unfolding program
returns = refl

run-Committed_example : Committed (database true) (insert true) stored
run-Committed_example =
    run-Committed (database true) 2 (insert true) (new_sink (database true) 0) stored returns

abbrev failed : Sink (database false)
failed = record { has_conn = true; idempotent_metrics = true; world = 23 }

raises : run (database false) 2 (insert false) (new_sink (database false) 0) ≡ (failed, false)
unfolding program
raises = refl

run-IsClean_example : IsClean (database false) failed
run-IsClean_example =
    run-IsClean (database false) 2 (insert false) (new_sink (database false) 0) failed raises
