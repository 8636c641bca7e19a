-- ===== src/Ml/Debouncer.antt =====
-- ml_service/models/anomaly_debouncer.py. Reconstruction errors are floats: they are a parameter with
-- their comparison.
pub mod Persistence
use distrosense.Base.{ℕ, Bool, true, false, List, [], length, all, ◌&&◌, nat_eq, ◌==◌}
use distrosense.Base.Deque.{push}

module _ (Float : Type 0) (is_above : Float → Float → Bool) where
  pub record AnomalyDebouncer : Type 0 where
    pub threshold : Float
    pub persistence_windows : ℕ
    pub recent_flags : List Bool

  unfoldable pub init : Float → ℕ → AnomalyDebouncer
  init threshold persistence_windows = record {
    threshold = threshold;
    persistence_windows = persistence_windows;
    recent_flags = [];
  }

  -- the state and what is returned
  unfoldable pub check : AnomalyDebouncer → Float → AnomalyDebouncer × Bool
  unfolding push
  check d reconstruction_error =
      let flags =
        push d.persistence_windows d.recent_flags (is_above reconstruction_error d.threshold) in
      (
        record d { recent_flags = flags },
        (length flags == d.persistence_windows) && all (λ flag. flag) flags,
      )

  unfoldable pub reset : AnomalyDebouncer → AnomalyDebouncer
  reset d = record d { recent_flags = [] }
