-- ===== src/Ml/Gateway/Isolated.antt =====
-- The services that share a gateway (ml_service/gateway/grpc_gateway.py: Infer) do not disturb each
-- other.
use distrosense.Ml.Gateway.Buffers.{buffer_of-observe, is_row_for}
use distrosense.Base.{
  [], if◌then◌else◌, none, sym, ◌>>=◌, some, Option, ◌∙◌, ap, length, arith, List, Bool-cases,
  String, false, ◌≡◌, refl, inl, inr, string_eq, nat_eq, ◌==◌, Result-cases,
}
use distrosense.Base.Dict.{get}
use distrosense.Ml.Forest.{IsolationForestModel, Statistics}
use distrosense.Ml.Gateway.{
  num_features, take, push, fallback, respond, Verdict, required, primary_by, buffer_of, infer,
  sequence_len, error_of, Row, Request, observe, primary, reconstruct_full, get_buffer, Torch,
  Servicer,
}
use distrosense.Ml.Gateway.Kept.{primary_by-Kept, observe-Kept, confirm-agree, infer-Kept}

module _ (n : Statistics) (t : Torch n) where
  -- What `infer` reads for a service is the same in both states.
  pub record Agree (s o : Servicer n t) (i : String) : Type 0 where
    pub transformer_same : o.transformer ≡ s.transformer
    pub threshold_same : o.threshold ≡ s.threshold
    pub norm_same : o.norm ≡ s.norm
    pub iforest_same : o.iforest ≡ s.iforest
    pub buffer_same : get o.buffers i ≡ get s.buffers i
    pub debouncer_same : get o.debouncers i ≡ get s.debouncers i

  reconstruct_full-agree :
      (s o : Servicer n t) (i : String) (m : t.Transformer) (b : List (Row n t))
      → o.norm ≡ s.norm
      → o.threshold ≡ s.threshold
      → get o.debouncers i ≡ get s.debouncers i
      → (reconstruct_full n t o i m b).1 ≡ (reconstruct_full n t s i m b).1
  unfolding reconstruct_full
  reconstruct_full-agree s o i m b nm th d =
      let same : error_of n t o m b ≡ error_of n t s m b =
        ap (λ norm. required norm >>= λ x. t.reconstruct m x b) nm in
      elim (Result-cases (error_of n t s m b)) [
        | inl failed ↦ rw (same ∙ failed, failed, reconstruct_full) refl
        | inr (e, done) ↦ rw (same ∙ done, done, reconstruct_full) (confirm-agree n t s o i e th d)
      ]

  primary_by-agree :
      (s o : Servicer n t) (i : String) (b : List (Row n t)) (model : Option t.Transformer)
      → o.norm ≡ s.norm
      → o.threshold ≡ s.threshold
      → get o.debouncers i ≡ get s.debouncers i
      → (primary_by n t o i b model).1 ≡ (primary_by n t s i b model).1
  primary_by-agree s o i b none nm th d = refl
  primary_by-agree s o i b (some m) nm th d = elim (Bool-cases (length b == sequence_len)) [
    | inl full ↦ rw full (reconstruct_full-agree s o i m b nm th d)
    | inr warm ↦ rw warm refl
  ]

  primary-agree :
      (s o : Servicer n t) (i : String) (b : List (Row n t))
      → o.transformer ≡ s.transformer
      → o.norm ≡ s.norm
      → o.threshold ≡ s.threshold
      → get o.debouncers i ≡ get s.debouncers i
      → (primary n t o i b).1 ≡ (primary n t s i b).1
  unfolding primary
  primary-agree s o i b tr nm th d =
      ap (λ m. (primary_by n t o i b m).1) tr ∙ primary_by-agree s o i b s.transformer nm th d

  debouncers-observe :
      (s : Servicer n t) (r : Request n t) → (observe n t s r).debouncers ≡ s.debouncers
  unfolding observe get_buffer
  debouncers-observe s r = ground arith

  buffer_of-observe_agree :
      (s o : Servicer n t) (r : Request n t)
      → get o.buffers r.service_id ≡ get s.buffers r.service_id
      → buffer_of n t (observe n t o r) r.service_id ≡ buffer_of n t (observe n t s r) r.service_id
  buffer_of-observe_agree s o r h =
      let i = r.service_id in
      let push_row : List (Row n t) → List (Row n t) = λ b.
        if is_row_for n t i r
        then push sequence_len b (take num_features r.feature_vector)
        else b in
      buffer_of-observe n t o r i
      ∙ ap (λ found. push_row (elim found [ none ↦ [] | some b ↦ b ])) h
      ∙ sym (buffer_of-observe n t s r i)

  fallback-agree :
      {f g : Option (IsolationForestModel n)} {b c : List (Row n t)} {v w : Verdict n t}
      → f ≡ g
      → b ≡ c
      → v ≡ w
      → fallback n t f b v ≡ fallback n t g c w
  fallback-agree p q e = cc

  infer-Agree :
      (s o : Servicer n t) (r : Request n t) (l : n.Float)
      → Agree s o r.service_id
      → (infer n t o r l).1 ≡ (infer n t s r l).1
  unfolding infer primary
  infer-Agree s o r l a =
      let i = r.service_id in
      let seen_s = observe n t s r in
      let seen_o = observe n t o r in
      let buffer_s = buffer_of n t seen_s i in
      let buffer_o = buffer_of n t seen_o i in
      let eb : buffer_o ≡ buffer_s = buffer_of-observe_agree s o r a.buffer_same in
      let ks = observe-Kept n t s r in
      let ko = observe-Kept n t o r in
      let ps = primary_by-Kept n t seen_s i buffer_s seen_s.transformer in
      let po = primary_by-Kept n t seen_o i buffer_o seen_o.transformer in
      let same_iforest =
        po.iforest_same
        ∙ ko.iforest_same
        ∙ a.iforest_same
        ∙ sym (ps.iforest_same ∙ ks.iforest_same) in
      let same_verdict =
        ap (λ b. (primary n t seen_o i b).1) eb
        ∙ primary-agree seen_s seen_o i buffer_s
            (ko.transformer_same ∙ a.transformer_same ∙ sym ks.transformer_same)
            (ko.norm_same ∙ a.norm_same ∙ sym ks.norm_same)
            (ko.threshold_same ∙ a.threshold_same ∙ sym ks.threshold_same)
            (ap (λ d. get d i) (debouncers-observe o r)
              ∙ a.debouncer_same
              ∙ sym (ap (λ d. get d i) (debouncers-observe s r))) in
      ap (respond n t r l) (fallback-agree same_iforest eb same_verdict)

  -- A request for one service, whatever it is, changes nothing in the answer that a later request for
  -- another service gets.
  pub infer-other :
      (s : Servicer n t) (r q : Request n t) (l k : n.Float)
      → (r.service_id == q.service_id) ≡ false
      → (infer n t (infer n t s r l).0 q k).1 ≡ (infer n t s q k).1
  infer-other s r q l k h =
      let kept = infer-Kept n t s r l in
      infer-Agree s (infer n t s r l).0 q k (record {
        transformer_same = kept.transformer_same;
        threshold_same = kept.threshold_same;
        norm_same = kept.norm_same;
        iforest_same = kept.iforest_same;
        buffer_same = kept.buffers_same q.service_id h;
        debouncer_same = kept.debouncers_same q.service_id h;
      })
