-- ===== src/Tests/Gateway.antt =====
-- A gateway over natural numbers: the reconstruction error of a window is its length, the forest's
-- score is the number of its features.
use distrosense.Base.{
  arith, ℕ, zero, suc, String, Bool, true, false, none, some, List, [], ◌∷◌, length, ◌≡◌, refl, ok,
  raised, Result, ltb, string_eq,
}
use distrosense.Base.Deque.{keep_last}
use distrosense.Base.Dict.{get, put}
use distrosense.Ml.Forest.{Statistics}
use distrosense.Ml.Gateway.{
  metrics_of, Torch, Request, Servicer, Files, start, infer, buffer_of, isolation_forest_model,
  sequence_len, InferenceResult,
}
use distrosense.Ml.Gateway.Buffers.{run, rows, buffer_of-run}
use distrosense.Ml.Gateway.Isolated.{infer-other}
use distrosense.Ml.Gateway.Answers.{Explains, infer-Explains, IsArgmax}

abbrev numbers : Statistics
numbers = record {
  Float = ℕ;
  zero = 0;
  mean = length;
  std = length;
  percentile = λ xs q. q;
  maximum = length;
  Forest = Unit;
  decide = λ f xs. ok (length xs);
  sigmoid = λ x. x;
}

abbrev torch : Torch numbers
torch = record {
  Transformer = Unit;
  Stats = Unit;
  reconstruct = λ m s w. ok (length w);
  ratio = λ e t. ok e;
  is_above = λ e t. ltb t e;
  is_over_70 = λ x. ltb 70 x;
  argmax_abs = λ xs. 0;
  one = 1;
}

abbrev request : String → List ℕ → Request numbers torch
request service_id features = record { service_id = service_id; feature_vector = features }

abbrev files : Files numbers torch
files = record {
  weights = some tt;
  threshold_file = none;
  stats_file = some tt;
  forest_file = some tt;
}

abbrev traffic : List (Request numbers torch × ℕ)
traffic =
    (request "cart" (1 ∷ 2 ∷ 3 ∷ 4 ∷ 5 ∷ []), 0)
    ∷ (request "auth" (1 ∷ 1 ∷ 1 ∷ 1 ∷ []), 0)
    ∷ (request "cart" (9 ∷ []), 0)
    ∷ (request "cart" (5 ∷ 6 ∷ 7 ∷ 8 ∷ []), 0)
    ∷ []

buffer_of-run_example :
    buffer_of numbers torch (run numbers torch (start numbers torch files) traffic) "cart"
    ≡ keep_last sequence_len (rows numbers torch "cart" traffic)
buffer_of-run_example = buffer_of-run numbers torch files traffic "cart"

cart_buffer :
    keep_last sequence_len (rows numbers torch "cart" traffic)
    ≡ (1 ∷ 2 ∷ 3 ∷ 4 ∷ []) ∷ (5 ∷ 6 ∷ 7 ∷ 8 ∷ []) ∷ []
unfolding keep_last
cart_buffer = refl

abbrev busy : Servicer numbers torch
busy = run numbers torch (start numbers torch files) traffic

infer-other_example :
    (infer numbers torch
      (infer numbers torch busy (request "cart" (1 ∷ 2 ∷ 3 ∷ 4 ∷ [])) 0).0
      (request "auth" (4 ∷ 3 ∷ 2 ∷ 1 ∷ []))
      0).1
    ≡ (infer numbers torch busy (request "auth" (4 ∷ 3 ∷ 2 ∷ 1 ∷ [])) 0).1
infer-other_example =
    infer-other numbers torch busy (request "cart" (1 ∷ 2 ∷ 3 ∷ 4 ∷ []))
      (request "auth" (4 ∷ 3 ∷ 2 ∷ 1 ∷ [])) 0 0 refl

abbrev warm_answer : InferenceResult numbers torch
warm_answer = record {
  service_id = "auth";
  anomaly_score = 7;
  model_used = isolation_forest_model;
  is_anomaly = false;
  latency_ms = 3;
  anomaly_type = "";
  reconstruction_error = 0;
}

-- the forest answers while the buffer is not full
warm :
    (infer numbers torch (start numbers torch files) (request "auth" (4 ∷ 3 ∷ 2 ∷ 1 ∷ [])) 3).1
    ≡ ok warm_answer
unfolding infer start get put keep_last metrics_of
warm = refl

first_is_argmax : IsArgmax numbers torch
unfolding IsArgmax
first_is_argmax = λ x xs. omega arith

infer-Explains_example :
    (answer : InferenceResult numbers torch) × ((infer numbers torch busy
        (request "auth" (4 ∷ 3 ∷ 2 ∷ 1 ∷ []))
        3).1
      ≡ ok answer)
    × Explains numbers torch
        (buffer_of numbers torch
          (infer numbers torch busy (request "auth" (4 ∷ 3 ∷ 2 ∷ 1 ∷ [])) 3).0
          "auth")
        answer.model_used
        answer.anomaly_score
        answer.is_anomaly
infer-Explains_example =
    infer-Explains numbers torch first_is_argmax busy (request "auth" (4 ∷ 3 ∷ 2 ∷ 1 ∷ [])) 3

-- A service whose buffer is full, and two requests without features: the second one confirms an
-- anomaly of the one window that both of them judge.
abbrev repeat : ℕ → List (List ℕ)
repeat zero = []
repeat (suc k) = (1 ∷ 2 ∷ 3 ∷ 4 ∷ []) ∷ repeat k

abbrev full : Servicer numbers torch
full = record {
  transformer = some tt;
  threshold = 1;
  norm = some tt;
  iforest = none;
  buffers = ("auth", repeat 60) ∷ [];
  debouncers = [];
}

abbrev is_anomaly_of : Result (InferenceResult numbers torch) → Bool
is_anomaly_of raised = false
is_anomaly_of (ok a) = a.is_anomaly

same_window_confirmed :
    is_anomaly_of
      (infer numbers torch
        (infer numbers torch full (request "auth" []) 0).0
        (request "auth" [])
        0).1
    ≡ true
unfolding infer get keep_last put
same_window_confirmed = refl
