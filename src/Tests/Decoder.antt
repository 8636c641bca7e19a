-- ===== src/Tests/Decoder.antt =====
-- A decoder over a registry that knows schema 7, whose records are all one span.
use distrosense.Base.Dict.{put, get}
use distrosense.Base.{
  ℕ, suc, false, some, List, [], ◌∷◌, ◌≡◌, refl, ok, raised, nat_eq, ◌==◌, if◌then◌else◌,
}
use distrosense.Base.Json.{
  Json, null, boolean, number, text, array, object, no_items, no_fields, field, find, truthy,
}
use distrosense.Flink.Decoder.{
  Codecs, MetricEvent, from_dict, to_dict, flat_map, Decoder, schema_for,
}
use distrosense.Flink.Decoder.Events.{from_dict-to_dict, span_dict, IsKeyed, flat_map-IsKeyed}
use distrosense.Flink.Decoder.Registry.{run, schema_for-run}

abbrev span : Json ℕ
span = object (field "service_id" (text "cart") (field "span_id" (text "s1") no_fields))

-- the world counts the calls of the registry; the payload [91] is the JSON text of an empty array
abbrev codecs : Codecs
codecs = record {
  Number = ℕ;
  is_zero = λ x. x == 0;
  of_nat = λ x. x;
  Schema = ℕ;
  W = ℕ;
  get_schema = λ w id. (suc w, if id == 7 then ok id else raised);
  read = λ schema body. ok span;
  json_loads = λ raw. some (array no_items);
}

abbrev new_decoder : Decoder codecs
new_decoder = record {
  schemas = [];
  log = record { every = 1000; count = 0 };
  decode_failures = 0;
  world = 0;
}

abbrev avro : List ℕ
avro = 0 ∷ 0 ∷ 0 ∷ 0 ∷ 7 ∷ 1 ∷ []

abbrev event : MetricEvent codecs
event = record {
  trace_id = text "";
  span_id = text "s1";
  service_id = text "cart";
  timestamp = number 12;
  cpu_percent = number 0;
  latency_p99 = number 0;
  error_rate = number 0;
  request_rate = number 0;
  anomaly_type = null;
  is_anomaly = boolean false;
}

from_dict-to_dict_example :
    (from_dict codecs (to_dict codecs event) ≡ ok event)
    × (from_dict codecs (span_dict codecs event) ≡ ok event)
from_dict-to_dict_example = from_dict-to_dict codecs event

abbrev after_avro : Decoder codecs
after_avro = record new_decoder { schemas = (7, 7) ∷ []; world = 1 }

decoded_avro : flat_map codecs new_decoder 12 avro ≡ (after_avro, ok (some event))
unfolding flat_map get truthy find put
decoded_avro = refl

flat_map-IsKeyed_example : IsKeyed codecs event
flat_map-IsKeyed_example =
    flat_map-IsKeyed codecs new_decoder after_avro 12 avro event refl decoded_avro

known_schema : (schema_for codecs new_decoder 7).1 ≡ ok 7
unfolding schema_for get
known_schema = refl

schema_for-run_example :
    schema_for codecs
      (run codecs (schema_for codecs new_decoder 7).0 ((1, avro) ∷ (2, 91 ∷ []) ∷ []))
      7
    ≡ (run codecs (schema_for codecs new_decoder 7).0 ((1, avro) ∷ (2, 91 ∷ []) ∷ []), ok 7)
schema_for-run_example =
    schema_for-run codecs new_decoder 7 7 ((1, avro) ∷ (2, 91 ∷ []) ∷ []) known_schema

-- a payload that is valid JSON and no object makes flat_map raise
array_raises : (flat_map codecs new_decoder 12 (91 ∷ 93 ∷ [])).1 ≡ raised
unfolding flat_map
array_raises = refl
