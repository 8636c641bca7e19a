-- ===== src/Flink/Sink.antt =====
-- flink_jobs/sinks/timescaledb_sink.py. The database behind psycopg2 is a parameter: each call leaves
-- a state of the world and tells whether it returns or raises. The waits between attempts are left
-- out.
pub mod Retry
use distrosense.Base.{
  ℕ, zero, suc, String, Bool, true, false, not, ◌&&◌, ◌||◌, Option, none, some, List, [], ◌∷◌,
  Result, ok, raised, if◌then◌else◌, Field, missing, null, value, require, require_key, get_opt,
}

-- the rows of `metrics`: (time, service_id, metric_name, value)
pub record MetricRow (Float : Type 0) : Type 0 where
  pub time : String
  pub service_id : String
  pub metric_name : String
  pub reading : Float

pub record AnomalyRow (Float : Type 0) : Type 0 where
  pub id : Option String
  pub detected_at_iso : Option String
  pub service_id : Option String
  pub anomaly_type : Option String
  pub severity : Option ℕ
  pub model_used : Option String
  pub reconstruction_error : Option Float

-- The SQL statements; the Boolean tells whether ON CONFLICT names the columns of the unique index.
pub data Statement (Float : Type 0) : Type 0 where
  create_index : Statement Float
  insert_metrics : Bool → List (MetricRow Float) → Statement Float
  insert_anomaly : AnomalyRow Float → Statement Float

pub record Database : Type 1 where
  pub Float : Type 0
  pub W : Type 0
  pub connect : W → W × Bool
  pub execute : W → Statement Float → W × Bool
  pub find_index : W → W × Result Bool
  pub commit : W → W × Bool
  pub rollback : W → W × Bool
  pub close : W → W × Bool
  pub is_closed : W → Bool

module _ (db : Database) where
  open db use {Float, W, is_closed}

  -- `_conn is not None`, `_idempotent_metrics`, and the world
  pub record Sink : Type 0 where
    pub has_conn : Bool
    pub idempotent_metrics : Bool
    pub world : W

  -- `__init__`
  unfoldable pub new_sink : W → Sink
  new_sink w = record { has_conn = false; idempotent_metrics = false; world = w }

  -- A call: the Boolean tells whether it returns.
  abbrev pub Call : Type 0
  Call = Sink → Sink × Bool

  abbrev pub lift : (W → W × Bool) → Call
  lift f s = let (w, returns) = f s.world in (record s { world = w }, returns)

  abbrev pub otherwise : Call → Sink × Bool → Sink × Bool
  otherwise handler (s, true) = (s, true)
  otherwise handler (s, false) = handler s

  abbrev pub continue : Call → Sink × Bool → Sink × Bool
  continue next (s, true) = next s
  continue next (s, false) = (s, false)

  -- a; b
  unfoldable pub seq : Call → Call → Call
  seq a b s = continue b (a s)

  -- try: a; except Exception: handler
  unfoldable pub catch : Call → Call → Call
  catch a handler s = otherwise handler (a s)

  abbrev pub skip : Call
  skip s = (s, true)

  abbrev pub fail : Call
  fail s = (s, false)

  abbrev pub note_index : Sink → W × Result Bool → Sink × Bool
  note_index s (w, raised) = (record s { world = w }, false)
  note_index s (w, ok found) = (record s { world = w; idempotent_metrics = found }, true)

  unfoldable pub ensure_unique_index : Call
  unfolding seq catch
  ensure_unique_index =
      seq (catch (seq (lift (λ w. db.execute w create_index)) (lift db.commit)) (lift db.rollback))
        (seq (λ s. note_index s (db.find_index s.world)) (lift db.commit))

  abbrev pub assign_conn : Call
  assign_conn s = (record s { has_conn = true }, true)

  -- `open`
  unfoldable pub open_conn : Call
  unfolding seq ensure_unique_index
  open_conn = seq (lift db.connect) (seq assign_conn ensure_unique_index)

  unfoldable pub ensure_conn : Call
  unfolding open_conn
  ensure_conn s = if not s.has_conn || is_closed s.world then open_conn s else (s, true)

  -- An exception of `close` is swallowed.
  unfoldable pub reset : Call
  reset s =
      let w = if s.has_conn then (db.close s.world).0 else s.world in
      (record s { has_conn = false; world = w }, true)

  -- rollback where the connection is open
  abbrev pub roll_back : Call
  roll_back s = if s.has_conn && not (is_closed s.world) then lift db.rollback s else (s, true)

  -- try: roll_back; except: reset
  unfoldable pub recover : Call
  unfolding catch reset
  recover = catch roll_back reset

  -- the body of the `try`
  unfoldable pub body : Call → Call
  unfolding seq ensure_conn
  body operation = seq ensure_conn (seq operation (lift db.commit))

  -- the loop of `_run`, with the number of attempts that are left after this one
  unfoldable pub run : ℕ → Call → Call
  unfolding body recover
  run zero operation s = catch (body operation) (seq recover fail) s
  run (suc left) operation s =
      catch (body operation) (seq recover (seq reset (run left operation))) s

  -- ATTEMPTS = 3
  abbrev pub attempts_after_first : ℕ
  attempts_after_first = 2

  -- the dictionary of one tumbling window
  pub record Aggregate : Type 0 where
    pub timestamp_iso : String
    pub service_id : String
    pub cpu_mean : Field Float
    pub latency_p99 : Field Float
    pub error_rate_mean : Field Float
    pub request_rate_mean : Field Float

  abbrev pub row :
      Aggregate → String → Option Float → List (MetricRow Float) → List (MetricRow Float)
  row a name none rest = rest
  row a name (some x) rest =
      (record {
        time = a.timestamp_iso;
        service_id = a.service_id;
        metric_name = name;
        reading = x;
      })
      ∷ rest

  unfoldable pub rows : Aggregate → List (MetricRow Float)
  rows a = row a "cpu_percent" (get_opt a.cpu_mean) (
      row a "latency_p99" (get_opt a.latency_p99) (
        row a "error_rate" (get_opt a.error_rate_mean)
          (row a "request_rate" (get_opt a.request_rate_mean) [])))

  -- The statement's text is made before the attempts, which may find out more about the index.
  unfoldable pub write_metric : Aggregate → Call
  unfolding run rows
  write_metric a s =
      run attempts_after_first
        (lift (λ w. db.execute w (insert_metrics s.idempotent_metrics (rows a)))) s

  unfoldable pub write_anomaly : AnomalyRow Float → Call
  unfolding run
  write_anomaly a = run attempts_after_first (lift (λ w. db.execute w (insert_anomaly a)))

  -- `close`
  unfoldable pub close_conn : Call
  close_conn s = if s.has_conn then lift db.close s else (s, true)
