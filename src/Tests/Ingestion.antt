-- ===== src/Tests/Ingestion.antt =====
-- Redis is down, Kafka takes everything, and no log is kept; floats are numbers.
use distrosense.Base.{
  nat_eq, ok, ◌==◌, if◌then◌else◌, ℕ, suc, ◌≡◌, refl, true, false, none, some, List, [], ◌∷◌,
  raised, missing, value, leb, ◌&&◌,
}
use distrosense.Ingestion.Pipeline.{
  Values, Raw, Services, Pipeline, accepted, rejected, outcomes, ingest, validate, forward,
}

abbrev values : Values
values = record {
  Float = ℕ;
  characters = λ s. 8;
  is_between = λ low high x. leb low x && leb x high;
  is_not_negative = λ x. true;
}

abbrev services : Services values
services = record {
  W = ℕ;
  seen_or_add = some (λ w span_id. (suc w, raised));
  publish = λ w span. (suc w, if w == 7 then raised else ok true);
  index_log = none;
}

abbrev raw : Raw values
raw = record {
  trace_id = value "trace-01";
  span_id = value "span-001";
  service_id = value "svc-0001";
  timestamp = value 1000;
  cpu_percent = value 50;
  latency_p99 = value 20;
  error_rate = value 0;
  request_rate = value 100;
  anomaly_type = missing;
  is_anomaly = value false;
}

abbrev hot : Raw values
hot = record raw { cpu_percent = value 101 }

abbrev idle : Pipeline values services
idle = record {
  world = 0;
  spans_received = 0;
  spans_rejected = 0;
  spans_duplicate = 0;
  dedup_errors = 0;
  spans_accepted = 0;
}

abbrev batch : List (Raw values)
batch = raw ∷ hot ∷ []

found : (outcomes values services idle batch).1 ≡ accepted ∷ rejected ∷ []
unfolding outcomes ingest validate forward
found = refl

-- the second span's publication raises: it is received, and the third one is not
second_raises :
    let (q, outcomes_found, done) =
      outcomes values services (record idle { world = 4 }) (raw ∷ raw ∷ raw ∷ []) in
    (outcomes_found ≡ accepted ∷ []) × (done ≡ false) × (q.spans_received ≡ 2)
unfolding outcomes ingest validate forward
second_raises = (refl, refl, refl)
