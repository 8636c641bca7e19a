-- ===== src/Lib.antt =====
-- DistroSense watches a fleet of services. A simulator sends telemetry to an ingestion service, which
-- writes it to Kafka; Flink jobs turn it into anomalies; the correlation engine groups anomalies into
-- incidents and names a root cause; the orchestrator acts on incidents.
--
-- correlation/ takes each anomaly of the topic anomaly-events to a cluster (add_anomaly), hands out the
-- clusters that are over (pop_finalized), and finds the root cause of each (find_root_cause):
--   Correlation/Cluster.antt    correlation/clustering/incident_clusterer.py, class Cluster
--   Correlation/Search.antt     the breadth-first search of _connected_clusters
--   Correlation/Clusterer.antt  class IncidentClusterer
--   Correlation/Granger.antt    correlation/causality/granger_engine.py, find_root_cause
--   Correlation/Publish.antt    correlation/publisher/incident_publisher.py, and _check_finalized of
--                               correlation/main.py
--
-- orchestrator/ reads the incidents; the filter says whether to act, the rule engine says how, and the
-- dispatch makes the calls:
--   Orchestrator/Incident.antt  the JSON object of an incident, and what `.get` and `[]` do on it
--   Orchestrator/Filter.antt    orchestrator/incident_filter.py
--   Orchestrator/Rules.antt     orchestrator/rule_engine.py and orchestrator/rules.yaml
--   Orchestrator/K8s.antt       orchestrator/integrations/k8s_client.py
--   Orchestrator/Runbook.antt   orchestrator/integrations/llm_runbook.py and
--                               orchestrator/integrations/slack_client.py, which can fill two
--                               of the clients of the dispatch
--   Orchestrator/Dispatch.antt  orchestrator/main.py: _safe, _handle_incident, _dispatch
--
-- simulator/, ingestion/, flink_jobs/ and ml_service/ stand before them:
--   Flink/Dedup.antt            flink_jobs/operators/deduplication_filter.py
--   Flink/Zscore.antt           flink_jobs/operators/zscore_trigger.py and
--                               flink_jobs/models/anomaly_event.py
--   Flink/Sink.antt             flink_jobs/sinks/timescaledb_sink.py
--   Flink/Windows.antt          flink_jobs/operators/window_aggregator.py, the window function of
--                               zscore_trigger.py, and flink_jobs/sinks/redis_sink.py
--   Flink/Decoder.antt          flink_jobs/models/metric_event.py, flink_jobs/resilience.py and
--                               flink_jobs/operators/span_decoder.py
--   Ml/Debouncer.antt           ml_service/models/anomaly_debouncer.py
--   Ml/Forest.antt              ml_service/models/isolation_forest.py
--   Ml/Dataset.antt             ml_service/training/dataset.py, the split and the windows
--   Ml/Gateway.antt             ml_service/gateway/grpc_gateway.py, which asks the two above
--   Ingestion/Pipeline.antt     ingestion/pipeline.py, ingestion/models.py, and IngestSpanBatch of
--                               ingestion/api/grpc_server.py
--   Ingestion/Bloom.antt        ingestion/dedup/redis_bloom.py
--   Ingestion/Producer.antt     ingestion/producer/kafka_producer.py
--   Ingestion/LogIndexer.antt   ingestion/logs/es_log_indexer.py
--   Simulator/Publisher.antt    simulator/publisher/grpc_publisher.py
--   Simulator/Cascade.antt      simulator/services/cascade_map.py
--
-- dashboard_api/ shows anomalies and incidents as they come:
--   Dashboard/Hub.antt          dashboard_api/hub.py
--
-- common/ is shared by them:
--   Common/Kafka.antt           common/kafka_json.py and common/kafka_consumer.py
--
-- The children of a module hold its theorems. Base.antt passes on the names of the libraries, with
-- Boolean tests, lists, equality, results, JSON values, dictionaries and bounded deques.
-- Tests.antt holds concrete runs.
--
-- State is passed explicitly; the clock is an argument, in milliseconds (the source mixes seconds
-- and milliseconds, and `now - x > w` is written x + w < now). A call that raises returns
-- `raised`. What is outside the repository is a parameter: the Kubernetes API (Cluster), the
-- clients of the orchestrator (Clients), the graph database (get_related_services), series with
-- their causality test (Statistics), the stores behind the correlation engine (Outside),
-- pybloom's filters (BloomFilter, Ingestion), Flink's keyed state (ValueState), floats with numpy
-- and pydantic's tests (Numbers, Values), the simulator's channel to the ingestion service
-- (Service), Redis and Kafka behind it (Services), TimescaleDB behind the sink (Database), the
-- schema registry (Codecs), the models and PyTorch (Statistics, Torch), the Redis that holds the
-- Bloom filter (Redis), confluent-kafka's clients (Client, ProducerClient), Elasticsearch (Elastic), Python's
-- random module (Random), the LLM providers and Slack (Libraries), and the browsers' sockets (Sockets). The loops over attempts recurse on
-- the number of attempts that are left. The fuel of the search is the number of owned services
-- and one more, since each is queued at most once; that of the cascade's traversal is the number
-- of dependents in the map and one more.
--
-- Not modelled: the endless polling loops, connections, configuration from the environment, log
-- lines, the dashboard's routes and its browser part, the generated protocol code, and the training of
-- the models.
pub mod Base
pub mod Common
pub mod Correlation
pub mod Dashboard
pub mod Flink
pub mod Ingestion
pub mod Ml
pub mod Orchestrator
pub mod Simulator
pub mod Tests
