-- ===== src/Flink/Decoder/Registry.antt =====
-- The schema cache of SpanDecoder (flink_jobs/resilience.py) along a run of records.
use distrosense.Base.{
  subst, length, ◌&&◌, ltb, ◌==◌, all, nat_eq, Option-cases, ℕ, none, some, List, [], ◌∷◌, ◌≡◌,
  refl, inl, inr, ok, raised, Result, ◌>>=◌, Bool-cases, arith,
}
use distrosense.Base.Json.{null}
use distrosense.Base.Dict.{get, get-put}
use distrosense.Flink.Decoder.{
  body_of, schema_id_of, from_dict, decoded, settled, fetched, Codecs, MetricEvent, convert,
  flat_map, decode_span, Decoder, decode_avro, schema_for, on_error, Value,
}

module _ (c : Codecs) where
  -- the schemas that the decoder has are there after
  abbrev Keeps : Decoder c → Decoder c → Type 0
  Keeps s after =
      (id : ℕ) (schema : c.Schema)
      → get s.schemas id ≡ some schema
      → get after.schemas id ≡ some schema

  fetched-Keeps :
      (s : Decoder c) (id : ℕ) (r : c.W × Result c.Schema)
      → get s.schemas id ≡ none
      → Keeps s (fetched c s id r).0
  fetched-Keeps s id (w, raised) new j schema h = h
  fetched-Keeps s id (w, ok x) new j schema h =
      ground (arith, get-put s.schemas id j x, nat_eq.beq_iff id j)

  schema_for-Keeps : (s : Decoder c) (id : ℕ) → Keeps s (schema_for c s id).0
  unfolding schema_for
  schema_for-Keeps s id = elim (Option-cases (get s.schemas id)) [
    | inr (x, known) ↦ rw (known, schema_for) (λ j schema h. h)
    | inl new ↦ rw (new, schema_for) (fetched-Keeps s id (c.get_schema s.world id) new)
  ]

  decoded-schemas : (s : Decoder c) (v : Result (Value c)) → (decoded c s v).0.schemas ≡ s.schemas
  unfolding on_error
  decoded-schemas s raised = refl
  decoded-schemas s (ok v) = refl

  decode_avro-Keeps : (s : Decoder c) (raw : List ℕ) → Keeps s (decode_avro c s raw).0
  unfolding decode_avro
  decode_avro-Keeps s raw id schema h =
      let (after, x) = schema_for c s (schema_id_of c raw) in
      rw (decoded-schemas after (x >>= λ y. c.read y (body_of c raw)))
        (schema_for-Keeps s (schema_id_of c raw) id schema h)

  decode_span-Keeps : (s : Decoder c) (raw : List ℕ) → Keeps s (decode_span c s raw).0
  unfolding decode_span
  decode_span-Keeps s [] id schema h = h
  decode_span-Keeps s (b ∷ raw) id schema h =
      elim (Bool-cases ((b == 0) && ltb 5 (length (b ∷ raw)))) [
        | inl avro ↦ rw avro (decode_avro-Keeps s (b ∷ raw) id schema h)
        | inr json ↦ rw json h
      ]

  settled-schemas :
      (s : Decoder c) (now : ℕ) (e : Result (MetricEvent c))
      → (settled c s now e).0.schemas ≡ s.schemas
  settled-schemas s now raised = refl
  settled-schemas s now (ok e) = ground arith

  convert-schemas :
      (s : Decoder c) (now : ℕ) (v : Value c) → (convert c s now v).0.schemas ≡ s.schemas
  unfolding convert
  convert-schemas s now null = refl
  convert-schemas s now v = settled-schemas s now (from_dict c v)

  flat_map-Keeps : (s : Decoder c) (now : ℕ) (raw : List ℕ) → Keeps s (flat_map c s now raw).0
  unfolding flat_map
  flat_map-Keeps s now raw id schema h = elim (Bool-cases (all (λ char. ltb char 256) raw)) [
    | inl latin ↦
        let (after, v) = decode_span c s raw in
        rw (latin, convert-schemas after now v) (decode_span-Keeps s raw id schema h)
    | inr wide ↦ rw wide h
  ]

  -- the decoder after records with their arrival times; a record that raises leaves the decoder as it
  -- is at that point
  unfoldable pub run : Decoder c → List (ℕ × List ℕ) → Decoder c
  run s [] = s
  run s ((now, raw) ∷ records) = run (flat_map c s now raw).0 records

  run-Keeps : (s : Decoder c) (records : List (ℕ × List ℕ)) → Keeps s (run s records)
  unfolding run
  run-Keeps s [] id schema h = h
  run-Keeps s ((now, raw) ∷ records) id schema h =
      run-Keeps (flat_map c s now raw).0 records id schema (flat_map-Keeps s now raw id schema h)

  fetched-known :
      (s : Decoder c) (id : ℕ) (schema : c.Schema) (r : c.W × Result c.Schema)
      → (fetched c s id r).1 ≡ ok schema
      → get (fetched c s id r).0.schemas id ≡ some schema
  fetched-known s id schema (w, raised) h = ground arith
  fetched-known s id schema (w, ok x) h =
      ground (arith, get-put s.schemas id id x, nat_eq.beq_iff id id)

  schema_for-known :
      (s : Decoder c) (id : ℕ) (schema : c.Schema)
      → (schema_for c s id).1 ≡ ok schema
      → get (schema_for c s id).0.schemas id ≡ some schema
  unfolding schema_for
  schema_for-known s id schema h = elim (Option-cases (get s.schemas id)) [
    | inr (x, known) ↦ ground arith
    | inl new ↦
        let asked : schema_for c s id ≡ fetched c s id (c.get_schema s.world id) =
          rw (new, schema_for) refl in
        rw asked (
          fetched-known s id schema (c.get_schema s.world id)
            (subst (λ r. r.1 ≡ ok schema) asked h))
  ]

  schema_for-cached :
      (s : Decoder c) (id : ℕ) (schema : c.Schema)
      → get s.schemas id ≡ some schema
      → schema_for c s id ≡ (s, ok schema)
  unfolding schema_for
  schema_for-cached s id schema known = rw (known, schema_for) refl

  -- A schema that the registry gave once is used for its id ever after: however many records follow,
  -- `schema_for` answers it and asks the registry no more.
  pub schema_for-run :
      (s : Decoder c) (id : ℕ) (schema : c.Schema) (records : List (ℕ × List ℕ))
      → (schema_for c s id).1 ≡ ok schema
      → schema_for c (run (schema_for c s id).0 records) id
        ≡ (run (schema_for c s id).0 records, ok schema)
  schema_for-run s id schema records h =
      let known = schema_for-known s id schema h in
      schema_for-cached _ id schema (run-Keeps (schema_for c s id).0 records id schema known)
