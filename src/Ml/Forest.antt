-- ===== src/Ml/Forest.antt =====
-- ml_service/models/isolation_forest.py: loading, prediction and the summary of a window. Floats,
-- numpy's statistics and scikit-learn's forest are the parameter `Statistics`.
use distrosense.Base.{
  ℕ, String, Option, none, some, List, [], ◌∷◌, ◌++◌, map, Result, ok, raised, string_eq,
}
use distrosense.Base.Dict.{Dict, get}

-- `percentile xs q` is np.percentile; `decide` is the decision function on one row, and `sigmoid x`
-- is 1 / (1 + exp(5 x)).
pub record Statistics : Type 1 where
  pub Float : Type 0
  pub zero : Float
  pub mean : List Float → Float
  pub std : List Float → Float
  pub percentile : List Float → ℕ → Float
  pub maximum : List Float → Float
  pub Forest : Type 0
  pub decide : Forest → List Float → Result Float
  pub sigmoid : Float → Float

module _ (n : Statistics) where
  open n use {Float, zero, mean, std, percentile, maximum, Forest, decide, sigmoid}

  pub record IsolationForestModel : Type 0 where
    pub model : Option Forest

  unfoldable pub init : IsolationForestModel
  init = record { model = none }

  -- the file, if it is there: FileNotFoundError otherwise
  unfoldable pub load : IsolationForestModel → Option Forest → Result IsolationForestModel
  load m none = raised
  load m (some forest) = ok (record m { model = some forest })

  unfoldable pub predict : IsolationForestModel → List Float → Result Float
  predict m features = elim m.model [
    | none ↦ raised
    | some forest ↦ elim (decide forest features) [
      | raised ↦ raised
      | ok score ↦ ok (sigmoid score)
    ]
  ]

  -- m.get(key, 0.0)
  abbrev pub reading : String → Dict String Float → Float
  reading key m = elim (get m key) [ none ↦ zero | some x ↦ x ]

  abbrev pub column : String → List (Dict String Float) → List Float
  column key window = map (reading key) window

  unfoldable pub extract_features : List (Dict String Float) → List Float
  extract_features [] = zero ∷ zero ∷ zero ∷ zero ∷ zero ∷ zero ∷ zero ∷ []
  extract_features (m ∷ window) =
      let all_vals = column "cpu_percent" (m ∷ window) ++ column "latency_p99" (m ∷ window) in
      mean all_vals
      ∷ std all_vals
      ∷ percentile all_vals 95
      ∷ percentile all_vals 99
      ∷ maximum all_vals
      ∷ mean (column "error_rate" (m ∷ window))
      ∷ mean (column "request_rate" (m ∷ window))
      ∷ []
