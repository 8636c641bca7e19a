-- ===== src/Ml/Gateway.antt =====
-- ml_service/gateway/grpc_gateway.py: MLInferenceServicer. PyTorch's model with its normalisation and
-- numpy's argmax are the parameter `Torch`; the clock's difference is an argument.
pub mod Buffers
pub mod Kept
pub mod Isolated
pub mod Answers
use distrosense.Base.{
  ℕ, zero, suc, String, Bool, true, false, Option, none, some, List, [], ◌∷◌, length, Result, ok,
  raised, ◌>>=◌, leb, if◌then◌else◌, string_eq, nat_eq, ◌==◌, ◌&&◌,
}
use distrosense.Base.Dict.{Dict, get, put, has}
use distrosense.Base.Deque.{push}
use distrosense.Ml.Debouncer.{AnomalyDebouncer, init, check}
use distrosense.Ml.Forest.{Statistics, IsolationForestModel, load, predict, extract_features}
use distrosense.Ml.Forest.{init as new_forest}

-- `reconstruct` normalises the window and computes the model's reconstruction error; `ratio` is
-- min(1.0, e / t), which raises where t is 0; `argmax_abs` is np.argmax(np.abs(xs)); `is_over_70`
-- compares with 0.7; `one` is 1.0.
pub record Torch (n : Statistics) : Type 1 where
  pub Transformer : Type 0
  pub Stats : Type 0
  pub reconstruct : Transformer → Stats → List (List n.Float) → Result n.Float
  pub ratio : n.Float → n.Float → Result n.Float
  pub is_above : n.Float → n.Float → Bool
  pub is_over_70 : n.Float → Bool
  pub argmax_abs : List n.Float → ℕ
  pub one : n.Float

abbrev pub sequence_len : ℕ
sequence_len = 60

abbrev pub num_features : ℕ
num_features = 4

abbrev pub debounce_persistence_windows : ℕ
debounce_persistence_windows = 2

-- the values of `model_used`
pub data ModelUsed : Type 0 where
  no_model transformer_model isolation_forest_model : ModelUsed

-- xs[:n]
abbrev pub take {ℓ} : {A : Type ℓ} → ℕ → List A → List A
take zero xs = []
take (suc n) [] = []
take (suc n) (x ∷ xs) = x ∷ take n xs

-- xs[i]
abbrev pub item {ℓ} : {A : Type ℓ} → List A → ℕ → Result A
item [] i = raised
item (x ∷ xs) zero = ok x
item (x ∷ xs) (suc i) = item xs i

-- the texts of the four kinds of anomaly, in the order of the features
abbrev pub anomaly_types : List String
anomaly_types = "CPU_SPIKE" ∷ "LATENCY_BURST" ∷ "ERROR_RATE_SPIKE" ∷ "REQUEST_DROP" ∷ []

-- what is raised inside a `try` is caught
abbrev pub required {ℓ} : {A : Type ℓ} → Option A → Result A
required none = raised
required (some a) = ok a

module _ (n : Statistics) (t : Torch n) where
  open n use {Float, Forest}
  open t use {Transformer, Stats, reconstruct, ratio, is_above, is_over_70, argmax_abs, one}

  abbrev pub Debouncer : Type 0
  Debouncer = AnomalyDebouncer Float is_above

  abbrev pub Row : Type 0
  Row = List Float

  pub record Request : Type 0 where
    pub service_id : String
    pub feature_vector : List Float

  pub record InferenceResult : Type 0 where
    pub service_id : String
    pub anomaly_score : Float
    pub model_used : ModelUsed
    pub is_anomaly : Bool
    pub latency_ms : Float
    pub anomaly_type : String
    pub reconstruction_error : Float

  pub record Servicer : Type 0 where
    pub transformer : Option Transformer
    pub threshold : Float
    pub norm : Option Stats
    pub iforest : Option (IsolationForestModel n)
    pub buffers : Dict String (List Row)
    pub debouncers : Dict String Debouncer

  -- the files that __init__ reads: each may be absent
  pub record Files : Type 0 where
    pub weights : Option Transformer
    pub threshold_file : Option Float
    pub stats_file : Option Stats
    pub forest_file : Option Forest

  unfoldable pub start : Files → Servicer
  unfolding load new_forest
  start f = record {
    transformer = elim f.stats_file [ none ↦ none | some _ ↦ f.weights ];
    threshold = elim f.threshold_file [ none ↦ one | some x ↦ x ];
    norm = f.stats_file;
    iforest = elim (load n (new_forest n) f.forest_file) [ raised ↦ none | ok m ↦ some m ];
    buffers = [];
    debouncers = [];
  }

  abbrev pub rows_at : Dict String (List Row) → String → List Row
  rows_at buffers service_id = elim (get buffers service_id) [ none ↦ [] | some b ↦ b ]

  abbrev pub buffer_of : Servicer → String → List Row
  buffer_of s service_id = rows_at s.buffers service_id

  -- _get_buffer, as the state with the buffer in it
  unfoldable pub get_buffer : Servicer → String → Servicer
  get_buffer s service_id =
      if has s.buffers service_id then s else record s { buffers = put s.buffers service_id [] }

  abbrev pub new_debouncer : Servicer → Debouncer
  new_debouncer s = init Float is_above s.threshold debounce_persistence_windows

  -- _get_debouncer, as the debouncer; the caller writes it
  unfoldable pub get_debouncer : Servicer → String → Debouncer
  unfolding init
  get_debouncer s service_id = elim (get s.debouncers service_id) [
    | none ↦ new_debouncer s
    | some d ↦ d
  ]

  unfoldable pub observe : Servicer → Request → Servicer
  unfolding get_buffer push
  observe s r =
      let ready = get_buffer s r.service_id in
      if leb num_features (length r.feature_vector)
      then record ready {
        buffers =
            put ready.buffers r.service_id (
              push sequence_len (buffer_of ready r.service_id)
                (take num_features r.feature_vector));
      }
      else ready

  -- a dictionary of _buffer_to_metrics_window: IndexError on a short row
  unfoldable pub metrics_of : Row → Result (Dict String Float)
  metrics_of row = do
    cpu ← item row 0
    latency ← item row 1
    errors ← item row 2
    requests ← item row 3
    ok (
        ("cpu_percent", cpu)
        ∷ ("latency_p99", latency)
        ∷ ("error_rate", errors)
        ∷ ("request_rate", requests)
        ∷ [])

  unfoldable pub buffer_to_metrics_window : List Row → Result (List (Dict String Float))
  buffer_to_metrics_window [] = ok []
  buffer_to_metrics_window (row ∷ buffer) =
      metrics_of row >>= λ m. buffer_to_metrics_window buffer >>= λ ms. ok (m ∷ ms)

  -- the local variables of Infer
  pub record Verdict : Type 0 where
    pub anomaly_score : Float
    pub model_used : ModelUsed
    pub recon_error : Float
    pub is_anomaly : Bool

  abbrev pub no_verdict : Verdict
  no_verdict = record {
    anomaly_score = n.zero;
    model_used = no_model;
    recon_error = n.zero;
    is_anomaly = false;
  }

  -- the reconstruction error of the buffer
  abbrev pub error_of : Servicer → Transformer → List Row → Result Float
  error_of s model buffer = required s.norm >>= λ norm. reconstruct model norm buffer

  -- from the reconstruction error on
  unfoldable pub confirm : Servicer → String → Float → Servicer × Verdict
  unfolding get_debouncer check
  confirm s service_id recon_error = elim (ratio recon_error s.threshold) [
    | raised ↦ (s, record no_verdict { recon_error = recon_error })
    | ok score ↦
        let (d, is_anomaly) = check Float is_above (get_debouncer s service_id) recon_error in
        (
          record s { debouncers = put s.debouncers service_id d },
          record {
            anomaly_score = score;
            model_used = transformer_model;
            recon_error = recon_error;
            is_anomaly = is_anomaly;
          },
        )
  ]

  unfoldable pub reconstruct_full : Servicer → String → Transformer → List Row → Servicer × Verdict
  unfolding confirm
  reconstruct_full s service_id model buffer = elim (error_of s model buffer) [
    | raised ↦ (s, no_verdict)
    | ok e ↦ confirm s service_id e
  ]

  -- by the transformer, if there is one
  abbrev pub primary_by : Servicer → String → List Row → Option Transformer → Servicer × Verdict
  primary_by s service_id buffer none = (s, no_verdict)
  primary_by s service_id buffer (some model) =
      if length buffer == sequence_len
      then reconstruct_full s service_id model buffer
      else (s, no_verdict)

  unfoldable pub primary : Servicer → String → List Row → Servicer × Verdict
  unfolding reconstruct_full
  primary s service_id buffer = primary_by s service_id buffer s.transformer

  -- the forest's score of the buffer
  unfoldable pub forest_score : IsolationForestModel n → List Row → Result Float
  unfolding buffer_to_metrics_window extract_features predict
  forest_score forest buffer =
      buffer_to_metrics_window buffer >>= λ window. predict n forest (extract_features n window)

  abbrev pub scored : Verdict → Result Float → Verdict
  scored v raised = v
  scored v (ok score) = record v {
    anomaly_score = score;
    model_used = isolation_forest_model;
    is_anomaly = is_over_70 score;
  }

  abbrev pub isolate : Verdict → IsolationForestModel n → List Row → Verdict
  isolate v forest [] = v
  isolate v forest (row ∷ buffer) = scored v (forest_score forest (row ∷ buffer))

  abbrev pub fallback_by :
      Option (IsolationForestModel n) → List Row → Verdict → ModelUsed → Verdict
  fallback_by (some forest) buffer v no_model = isolate v forest buffer
  fallback_by iforest buffer v model_used = v

  unfoldable pub fallback : Option (IsolationForestModel n) → List Row → Verdict → Verdict
  unfolding forest_score
  fallback iforest buffer v = fallback_by iforest buffer v v.model_used

  -- IndexError where argmax answers a position that the list has not
  unfoldable pub anomaly_type : Bool → List Float → Result String
  anomaly_type is_anomaly features =
      if is_anomaly && leb 4 (length features)
      then item anomaly_types (argmax_abs (take 4 features))
      else ok ""

  abbrev pub answer_of : Request → Float → Verdict → String → InferenceResult
  answer_of r latency_ms v kind = record {
    service_id = r.service_id;
    anomaly_score = v.anomaly_score;
    model_used = v.model_used;
    is_anomaly = v.is_anomaly;
    latency_ms = latency_ms;
    anomaly_type = kind;
    reconstruction_error = v.recon_error;
  }

  abbrev pub respond : Request → Float → Verdict → Result InferenceResult
  respond r latency_ms v =
      anomaly_type v.is_anomaly r.feature_vector >>= λ kind. ok (answer_of r latency_ms v kind)

  unfoldable pub infer : Servicer → Request → Float → Servicer × Result InferenceResult
  unfolding observe primary fallback anomaly_type
  infer s r latency_ms =
      let seen = observe s r in
      let buffer = buffer_of seen r.service_id in
      let (after, verdict) = primary seen r.service_id buffer in
      (after, respond r latency_ms (fallback after.iforest buffer verdict))
