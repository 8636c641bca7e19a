-- ===== src/Correlation/Publish/Finalize.antt =====
-- `_check_finalized` of correlation/main.py over all clusters.
use distrosense.Correlation.Cluster.{Cluster}
use distrosense.Correlation.Clusterer.{Clusterer}
