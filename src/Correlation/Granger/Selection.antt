-- ===== src/Correlation/Granger/Selection.antt =====
-- Which service `find_root_cause` names.
use distrosense.Base.{◌≡◌, String, true, List, [], All, string_eq, nat_eq, ok}
use distrosense.Base.Dict.{Dict, keys}
use distrosense.Correlation.Cluster.{Anomaly, Cluster}
use distrosense.Correlation.Granger.{
  Statistics, RootCause, latest_by_service, series_by_service, find_root_cause,
}
use distrosense.Correlation.Granger.Degrees.{hosts}
use distrosense.Correlation.Granger.Causal.{IsFetched, IsCausal, OrFails}
use distrosense.Correlation.Granger.Leading.{IsExplained}

-- only services with an anomaly are examined
abbrev IsHosted : List Anomaly → List String → Type 0
IsHosted anomalies = All (λ sid. hosts sid anomalies ≡ true)

module _ (st : Statistics) where
  -- What a report says of the cluster's anomalies and of the examined services: those with an anomaly
  -- whose series is long enough.
  pub record IsReport (anomalies : List Anomaly) (r : RootCause) : Type 0 where
    pub series : Dict String st.Series
    pub examined : series_by_service st [] (latest_by_service [] anomalies) ≡ ok series
    pub fetched : All (IsFetched st) series
    pub causal : All (IsCausal st) r.causal_edges
    pub explained : IsExplained anomalies (keys series) r
    pub hosted : hosts r.root_cause_service_id anomalies ≡ true

  abbrev Settled : Cluster → List Anomaly → Type 0
  Settled c anomalies = OrFails st (λ r. IsReport anomalies r) (find_root_cause st c)
