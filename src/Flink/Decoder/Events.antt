-- ===== src/Flink/Decoder/Events.antt =====
-- What comes out of flink_jobs/models/metric_event.py and flink_jobs/operators/span_decoder.py.
use distrosense.Base.{
  ltb, all, subst, ℕ, true, false, Option, none, some, List, ◌≡◌, refl, inl, inr, ok, raised,
  Result, Bool-cases,
}
use distrosense.Base.Json.{null, object, no_fields, field, find, truthy}
use distrosense.Flink.Decoder.{
  settled, Codecs, MetricEvent, from_dict, to_dict, convert, flat_map, decode_span, Decoder,
  is_true, emit, with_time, Value,
}

module _ (c : Codecs) where
  -- a span as the simulator writes it, with its readings under "metrics"
  abbrev pub span_dict : MetricEvent c → Value c
  span_dict e = object (
      field "trace_id" e.trace_id (
        field "span_id" e.span_id (
          field "service_id" e.service_id (
            field "timestamp" e.timestamp (
              field "metrics"
                (object (
                  field "cpu_percent" e.cpu_percent (
                    field "latency_p99" e.latency_p99 (
                      field "error_rate" e.error_rate
                        (field "request_rate" e.request_rate no_fields)))))
                (field "anomaly_type" e.anomaly_type
                  (field "is_anomaly" e.is_anomaly no_fields)))))))

  -- Both encodings of an event are read back as the event: the flat dictionary of `to_dict`, and the
  -- one with the readings under "metrics".
  pub from_dict-to_dict :
      (e : MetricEvent c) → (from_dict c (to_dict c e) ≡ ok e) × (from_dict c (span_dict e) ≡ ok e)
  unfolding from_dict to_dict find truthy
  from_dict-to_dict e = (refl, refl)

  -- the event has a service, an identity and a time
  pub IsKeyed : MetricEvent c → Type 0
  IsKeyed e =
      (is_true c e.service_id ≡ true)
      × (is_true c e.span_id ≡ true)
      × (is_true c e.timestamp ≡ true)

  -- of what is emitted, if anything is
  abbrev Emitted : Result (Option (MetricEvent c)) → Type 0
  Emitted raised = Unit
  Emitted (ok none) = Unit
  Emitted (ok (some e)) = IsKeyed e

  with_time-IsKeyed :
      (now : ℕ) (e : MetricEvent c)
      → c.is_zero (c.of_nat now) ≡ false
      → is_true c e.service_id ≡ true
      → is_true c e.span_id ≡ true
      → IsKeyed (with_time c now e)
  unfolding IsKeyed truthy
  with_time-IsKeyed now e h service span = elim (Bool-cases (is_true c e.timestamp)) [
    | inl dated ↦ rw dated (service, span, dated)
    | inr undated ↦ rw undated (service, span, rw h refl)
  ]

  emit-Emitted :
      (s : Decoder c) (now : ℕ) (e : MetricEvent c)
      → c.is_zero (c.of_nat now) ≡ false
      → Emitted (ok (emit c s now e).1)
  emit-Emitted s now e h = elim (Bool-cases (is_true c e.service_id)) [
    | inr nameless ↦ rw nameless tt
    | inl service ↦ elim (Bool-cases (is_true c e.span_id)) [
      | inr no_span ↦ rw (service, no_span) tt
      | inl span ↦ rw (service, span) (with_time-IsKeyed now e h service span)
    ]
  ]

  settled-Emitted :
      (s : Decoder c) (now : ℕ) (e : Result (MetricEvent c))
      → c.is_zero (c.of_nat now) ≡ false
      → Emitted (settled c s now e).1
  settled-Emitted s now raised h = tt
  settled-Emitted s now (ok e) h = emit-Emitted s now e h

  convert-Emitted :
      (s : Decoder c) (now : ℕ) (v : Value c)
      → c.is_zero (c.of_nat now) ≡ false
      → Emitted (convert c s now v).1
  unfolding convert
  convert-Emitted s now null h = tt
  convert-Emitted s now v h = settled-Emitted s now (from_dict c v) h

  flat_map-Emitted :
      (s : Decoder c) (now : ℕ) (raw : List ℕ)
      → c.is_zero (c.of_nat now) ≡ false
      → Emitted (flat_map c s now raw).1
  unfolding flat_map
  flat_map-Emitted s now raw h = elim (Bool-cases (all (λ char. ltb char 256) raw)) [
    | inl latin ↦ let (after, v) = decode_span c s raw in rw latin (convert-Emitted after now v h)
    | inr wide ↦ rw wide tt
  ]

  -- Whatever bytes a record has, an event that DecodeSpan emits has a service, a span and a time that
  -- are not empty, provided that it does not arrive at time 0.
  pub flat_map-IsKeyed :
      (s after : Decoder c) (now : ℕ) (raw : List ℕ) (e : MetricEvent c)
      → c.is_zero (c.of_nat now) ≡ false
      → flat_map c s now raw ≡ (after, ok (some e))
      → IsKeyed e
  flat_map-IsKeyed s after now raw e h result =
      subst (λ r. Emitted r.1) result (flat_map-Emitted s now raw h)
