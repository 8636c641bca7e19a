-- ===== src/Flink/Zscore/Severity.antt =====
-- The severity of a score.
use distrosense.Base.{ℕ, ◌≤◌, ◌≡◌, true, arith}
use distrosense.Flink.Zscore.{Numbers, compute_severity}

-- The severity is one of 1 to 5, and a score that reaches every threshold that another one reaches
-- has no lower severity.
compute_severity-monotone :
    (n : Numbers) (x y : n.Float)
    → ((hundredths : ℕ) → n.is_at_least x hundredths ≡ true → n.is_at_least y hundredths ≡ true)
    → (1 ≤ compute_severity n x)
      × (compute_severity n x ≤ compute_severity n y)
      × (compute_severity n y ≤ 5)
unfolding compute_severity
compute_severity-monotone n x y h = ground (arith, h 90, h 75, h 55, h 35)
