-- ===== src/Ml/Gateway/Kept.antt =====
-- What Infer of ml_service/gateway/grpc_gateway.py leaves of a gateway as it was.
use distrosense.Base.{
  none, some, Option, ◌∙◌, ap, length, arith, leb, List, Bool-cases, String, false, ◌≡◌, refl, inl,
  inr, string_eq, nat_eq, ◌==◌, Result-cases,
}
use distrosense.Base.Dict.{has, get, get-put}
use distrosense.Ml.Forest.{Statistics}
use distrosense.Ml.Gateway.{
  primary_by, buffer_of, infer, sequence_len, error_of, Row, Request, observe, primary,
  get_debouncer, reconstruct_full, get_buffer, Torch, Servicer, confirm,
}

module _ (n : Statistics) (t : Torch n) where
  -- What `infer` for one service may leave behind: the models, and all that other services keep.
  pub record Kept (s after : Servicer n t) (i : String) : Type 0 where
    pub transformer_same : after.transformer ≡ s.transformer
    pub threshold_same : after.threshold ≡ s.threshold
    pub norm_same : after.norm ≡ s.norm
    pub iforest_same : after.iforest ≡ s.iforest
    pub buffers_same : (j : String) → (i == j) ≡ false → get after.buffers j ≡ get s.buffers j
    pub debouncers_same :
        (j : String) → (i == j) ≡ false → get after.debouncers j ≡ get s.debouncers j

  unchanged : (s : Servicer n t) (i : String) → Kept s s i
  unchanged s i = record {
    transformer_same = refl;
    threshold_same = refl;
    norm_same = refl;
    iforest_same = refl;
    buffers_same = λ j h. refl;
    debouncers_same = λ j h. refl;
  }

  confirm-Kept : (s : Servicer n t) (i : String) (e : n.Float) → Kept s (confirm n t s i e).0 i
  unfolding confirm
  confirm-Kept s i e = elim (Result-cases (t.ratio e s.threshold)) [
    | inl failed ↦ rw (failed, confirm) (unchanged s i)
    | inr (q, done) ↦
        rw (done, confirm)
          (record {
            transformer_same = refl;
            threshold_same = refl;
            norm_same = refl;
            iforest_same = refl;
            buffers_same = λ j h. refl;
            debouncers_same = λ j h. rw (get-put s.debouncers i j _, h) refl;
          })
  ]

  reconstruct_full-Kept :
      (s : Servicer n t) (i : String) (m : t.Transformer) (b : List (Row n t))
      → Kept s (reconstruct_full n t s i m b).0 i
  unfolding reconstruct_full
  reconstruct_full-Kept s i m b = elim (Result-cases (error_of n t s m b)) [
    | inl failed ↦ rw (failed, reconstruct_full) (unchanged s i)
    | inr (e, done) ↦ rw (done, reconstruct_full) (confirm-Kept s i e)
  ]

  pub primary_by-Kept :
      (s : Servicer n t) (i : String) (b : List (Row n t)) (model : Option t.Transformer)
      → Kept s (primary_by n t s i b model).0 i
  primary_by-Kept s i b none = unchanged s i
  primary_by-Kept s i b (some m) = elim (Bool-cases (length b == sequence_len)) [
    | inl full ↦ rw full (reconstruct_full-Kept s i m b)
    | inr warm ↦ rw warm (unchanged s i)
  ]

  get_buffer-Kept : (s : Servicer n t) (i : String) → Kept s (get_buffer n t s i) i
  unfolding get_buffer
  get_buffer-Kept s i = elim (Bool-cases (has s.buffers i)) [
    | inl known ↦ rw (known, get_buffer) (unchanged s i)
    | inr new ↦
        rw (new, get_buffer)
          (record {
            transformer_same = refl;
            threshold_same = refl;
            norm_same = refl;
            iforest_same = refl;
            buffers_same = λ j h. rw (get-put s.buffers i j _, h) refl;
            debouncers_same = λ j h. refl;
          })
  ]

  pub observe-Kept : (s : Servicer n t) (r : Request n t) → Kept s (observe n t s r) r.service_id
  unfolding observe
  observe-Kept s r = elim (Bool-cases (leb 4 (length r.feature_vector))) [
    | inl complete ↦
        let k = get_buffer-Kept s r.service_id in
        rw (complete, observe)
          (record {
            transformer_same = k.transformer_same;
            threshold_same = k.threshold_same;
            norm_same = k.norm_same;
            iforest_same = k.iforest_same;
            buffers_same = λ j h.
                rw (get-put (get_buffer n t s r.service_id).buffers r.service_id j _, h)
                  (k.buffers_same j h);
            debouncers_same = k.debouncers_same;
          })
    | inr short ↦ rw (short, observe) (get_buffer-Kept s r.service_id)
  ]

  pub confirm-agree :
      (s o : Servicer n t) (i : String) (e : n.Float)
      → o.threshold ≡ s.threshold
      → get o.debouncers i ≡ get s.debouncers i
      → (confirm n t o i e).1 ≡ (confirm n t s i e).1
  unfolding confirm get_debouncer
  confirm-agree s o i e th d = ground (arith, ap (t.ratio e) th)

  Kept-trans : {a b c : Servicer n t} (i : String) → Kept a b i → Kept b c i → Kept a c i
  Kept-trans i k l = record {
    transformer_same = l.transformer_same ∙ k.transformer_same;
    threshold_same = l.threshold_same ∙ k.threshold_same;
    norm_same = l.norm_same ∙ k.norm_same;
    iforest_same = l.iforest_same ∙ k.iforest_same;
    buffers_same = λ j h. l.buffers_same j h ∙ k.buffers_same j h;
    debouncers_same = λ j h. l.debouncers_same j h ∙ k.debouncers_same j h;
  }

  -- `infer` for a service keeps the models and what every other service has.
  pub infer-Kept :
      (s : Servicer n t) (r : Request n t) (l : n.Float) → Kept s (infer n t s r l).0 r.service_id
  unfolding infer primary
  infer-Kept s r l =
      let seen = observe n t s r in
      Kept-trans r.service_id (observe-Kept s r)
        (primary_by-Kept seen r.service_id (buffer_of n t seen r.service_id) seen.transformer)
