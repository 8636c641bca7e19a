-- ===== src/Tests/Simulator.antt =====
-- A publisher with two spans, of which one is not valid; floats are numbers.
use distrosense.Base.{
  refl, ℕ, ◌+◌, ◌≡◌, String, true, false, none, List, [], ◌∷◌, elem, string_eq, nat_eq, value,
  missing,
}
use distrosense.Simulator.Publisher.{
  Ingestion, SpanDict, Span, Running, new_publisher, stop, publish, flush, flush_if_full, resume,
  answer, Run, at_start, then_step, calls, wakes, answered, stops,
}
use distrosense.Simulator.Publisher.Conserved.{Run-conserved}

abbrev pieces : Ingestion
pieces = record {
  Float = ℕ;
  Bloom = List String;
  empty = [];
  contains = λ b key. elem key b;
  insert = λ b key. key ∷ b;
}

abbrev span : SpanDict pieces
span = record {
  trace_id = value "t1";
  span_id = value "s1";
  service_id = value "svc-a0bc923b";
  timestamp = value 1000;
  metrics = value (("cpu_percent", 50) ∷ []);
  anomaly_type = missing;
  is_anomaly = value false;
}

abbrev broken : SpanDict pieces
broken = record span { span_id = value "s2"; timestamp = missing }

abbrev proto : Span pieces
proto = record {
  trace_id = "t1";
  span_id = "s1";
  service_id = "svc-a0bc923b";
  timestamp = 1000;
  metrics = ("cpu_percent", 50) ∷ [];
  anomaly_type = "";
  is_anomaly = false;
}

abbrev idle : Running pieces
idle = record { publisher = record (new_publisher pieces) { is_started = true }; flights = [] }

-- the span waits in a flush of the flusher, and its second copy is a duplicate
abbrev in_flush : Running pieces
in_flush = record {
  publisher = record (new_publisher pieces) {
    bloom = "s1" ∷ [];
    is_started = true;
    duplicates = 1;
  };
  flights = record { batch = proto ∷ []; left = 1; is_flusher = true } ∷ [];
}

interleaving : Run pieces 200 idle in_flush 2 0
unfolding new_publisher publish flush flush_if_full resume answer
interleaving =
    then_step _ _ 2 0 0 0
      (then_step _ _ 1 0 1 0
        (then_step _ _ 1 0 0 0 (then_step _ _ 0 0 1 0 at_start (calls span)) wakes) (calls span))
      (answered [] [] (record { batch = proto ∷ []; left = 2; is_flusher = true }) none refl)

Run-conserved_example : (0 + 0 + 1 + 0 + 1 + 0 ≡ 2) × ((stop pieces in_flush).publisher.buffer ≡ [])
unfolding new_publisher
Run-conserved_example = Run-conserved pieces 200 in_flush 2 0 interleaving

-- `stop` abandons the batch of the flusher: it is neither sent nor dropped with a count
stop_abandons : Run pieces 200 idle (stop pieces in_flush) 2 1
unfolding stop flush
stop_abandons = then_step _ _ 2 0 0 1 interleaving stops

abandoned : ((stop pieces in_flush).flights ≡ []) × ((stop pieces in_flush).publisher.dropped ≡ 0)
unfolding stop flush new_publisher
abandoned = (refl, refl)
