-- ===== src/Ml/Gateway/Answers.antt =====
-- What `Infer` of ml_service/gateway/grpc_gateway.py answers.
use distrosense.Ml.Gateway.Buffers.{buffer_of-infer}
use distrosense.Base.{
  ◌>>=◌, subst, zero, suc, ◌<◌, ℕ, String, Bool, true, false, Option, none, some, List, [], ◌∷◌,
  length, ◌≡◌, refl, sym, inl, inr, leb, string_eq, nat_eq, ◌==◌, arith, Bool-cases, Result-cases,
  Result, ok, raised, ◌&&◌,
}
use distrosense.Ml.Forest.{Statistics, IsolationForestModel}
use distrosense.Ml.Gateway.{
  answer_of, forest_score, error_of, fallback_by, scored, take, respond, anomaly_types, item, Torch,
  Servicer, Request, Row, buffer_of, observe, primary, primary_by, reconstruct_full, confirm, infer,
  sequence_len, InferenceResult, Verdict, fallback, anomaly_type, ModelUsed, no_model,
  transformer_model, isolation_forest_model,
}

module _ (n : Statistics) (t : Torch n) where
  -- np.argmax answers a position of the list
  unfoldable pub IsArgmax : Type 0
  IsArgmax = (x : n.Float) (xs : List n.Float) → t.argmax_abs (x ∷ xs) < length (x ∷ xs)

  item-bound : {A : Type 0} (xs : List A) (i : ℕ) → i < length xs → (x : A) × (item xs i ≡ ok x)
  item-bound [] i h = absurd (omega arith)
  item-bound (x ∷ xs) zero h = (x, refl)
  item-bound (x ∷ xs) (suc i) h = item-bound xs i (omega arith)

  take-bound :
      IsArgmax
      → (features : List n.Float) → leb 4 (length features) ≡ true
      → t.argmax_abs (take 4 features) < 4
  unfolding IsArgmax
  take-bound bound (a ∷ b ∷ c ∷ d ∷ rest) h = bound a (b ∷ c ∷ d ∷ [])
  take-bound bound [] h = ground arith
  take-bound bound (a ∷ []) h = ground arith
  take-bound bound (a ∷ b ∷ []) h = ground arith
  take-bound bound (a ∷ b ∷ c ∷ []) h = ground arith

  anomaly_type-returns :
      IsArgmax
      → (is_anomaly : Bool) (features : List n.Float)
      → (kind : String) × (anomaly_type n t is_anomaly features ≡ ok kind)
  unfolding anomaly_type IsArgmax
  anomaly_type-returns bound is_anomaly features =
      elim (Bool-cases (is_anomaly && leb 4 (length features))) [
        | inl named ↦
            rw (named, anomaly_type)
              (item-bound anomaly_types (t.argmax_abs (take 4 features))
                (take-bound bound features (ground arith)))
        | inr unnamed ↦ rw (unnamed, anomaly_type) ("", refl)
      ]

  respond-returns :
      IsArgmax
      → (r : Request n t) (l : n.Float) (v : Verdict n t)
      → (answer : InferenceResult n t) × (respond n t r l v ≡ ok answer)
  respond-returns bound r l v =
      let (kind, e) = anomaly_type-returns bound v.is_anomaly r.feature_vector in rw e (_, refl)

  -- none of the models' exceptions escapes
  infer-returns :
      IsArgmax
      → (s : Servicer n t) (r : Request n t) (l : n.Float)
      → (answer : InferenceResult n t) × ((infer n t s r l).1 ≡ ok answer)
  unfolding infer
  infer-returns bound s r l = respond-returns bound r l _

  -- Why an answer says what it says, by the model it names: the transformer judged a full buffer, the
  -- forest's verdict is its score's, and without a model there is no anomaly.
  unfoldable pub Explains : List (Row n t) → ModelUsed → n.Float → Bool → Type 0
  Explains buffer no_model score is_anomaly = is_anomaly ≡ false
  Explains buffer transformer_model score is_anomaly = length buffer ≡ sequence_len
  Explains buffer isolation_forest_model score is_anomaly = is_anomaly ≡ t.is_over_70 score

  abbrev IsExplained : List (Row n t) → Verdict n t → Type 0
  IsExplained b v = Explains b v.model_used v.anomaly_score v.is_anomaly

  confirm-IsExplained :
      (s : Servicer n t) (i : String) (b : List (Row n t)) (e : n.Float)
      → length b ≡ sequence_len
      → IsExplained b (confirm n t s i e).1
  unfolding Explains confirm
  confirm-IsExplained s i b e full = elim (Result-cases (t.ratio e s.threshold)) [
    | inl failed ↦ rw (failed, confirm) refl
    | inr (q, done) ↦ rw (done, confirm) full
  ]

  reconstruct_full-IsExplained :
      (s : Servicer n t) (i : String) (m : t.Transformer) (b : List (Row n t))
      → length b ≡ sequence_len
      → IsExplained b (reconstruct_full n t s i m b).1
  unfolding Explains reconstruct_full
  reconstruct_full-IsExplained s i m b full = elim (Result-cases (error_of n t s m b)) [
    | inl failed ↦ rw (failed, reconstruct_full) refl
    | inr (e, done) ↦ rw (done, reconstruct_full) (confirm-IsExplained s i b e full)
  ]

  primary_by-IsExplained :
      (s : Servicer n t) (i : String) (b : List (Row n t)) (model : Option t.Transformer)
      → IsExplained b (primary_by n t s i b model).1
  unfolding Explains
  primary_by-IsExplained s i b none = refl
  primary_by-IsExplained s i b (some m) = elim (Bool-cases (length b == sequence_len)) [
    | inl full ↦ rw full (reconstruct_full-IsExplained s i m b ((nat_eq.beq_iff _ _).0 full))
    | inr warm ↦ rw warm refl
  ]

  scored-IsExplained :
      (b : List (Row n t)) (v : Verdict n t) (score : Result n.Float)
      → IsExplained b v
      → IsExplained b (scored n t v score)
  unfolding Explains
  scored-IsExplained b v raised h = h
  scored-IsExplained b v (ok score) h = refl

  fallback_by-IsExplained :
      (f : Option (IsolationForestModel n)) (b : List (Row n t)) (v : Verdict n t) (m : ModelUsed)
      → IsExplained b v
      → IsExplained b (fallback_by n t f b v m)
  fallback_by-IsExplained (some f) (row ∷ b) v no_model h =
      scored-IsExplained (row ∷ b) v (forest_score n t f (row ∷ b)) h
  fallback_by-IsExplained (some f) [] v no_model h = h
  fallback_by-IsExplained (some f) b v transformer_model h = h
  fallback_by-IsExplained (some f) b v isolation_forest_model h = h
  fallback_by-IsExplained none b v m h = h

  abbrev Explained : List (Row n t) → Result (InferenceResult n t) → Type 0
  Explained b raised = Unit
  Explained b (ok a) = Explains b a.model_used a.anomaly_score a.is_anomaly

  bind-Explained :
      (b : List (Row n t)) (r : Request n t) (l : n.Float) (v : Verdict n t) (kind : Result String)
      → IsExplained b v
      → Explained b (kind >>= λ k. ok (answer_of n t r l v k))
  bind-Explained b r l v raised h = tt
  bind-Explained b r l v (ok kind) h = h

  respond-Explained :
      (b : List (Row n t)) (r : Request n t) (l : n.Float) (v : Verdict n t)
      → IsExplained b v
      → Explained b (respond n t r l v)
  respond-Explained b r l v h =
      bind-Explained b r l v (anomaly_type n t v.is_anomaly r.feature_vector) h

  answer-Explains :
      (s : Servicer n t) (r : Request n t) (l : n.Float) (answer : InferenceResult n t)
      → (infer n t s r l).1 ≡ ok answer
      → Explains
          (buffer_of n t (infer n t s r l).0 r.service_id)
          answer.model_used
          answer.anomaly_score
          answer.is_anomaly
  unfolding infer primary fallback
  answer-Explains s r l answer h =
      let seen = observe n t s r in
      let i = r.service_id in
      let buffer = buffer_of n t seen i in
      let v = (primary_by n t seen i buffer seen.transformer).1 in
      let explained =
        fallback_by-IsExplained _ buffer v v.model_used
          (primary_by-IsExplained seen i buffer seen.transformer) in
      subst (λ b. Explains b answer.model_used answer.anomaly_score answer.is_anomaly)
        (sym (buffer_of-infer n t s r l i))
        (subst (Explained buffer) h (respond-Explained buffer r l _ explained))

  -- `infer` answers every request, in every state and whatever the models do, given that argmax
  -- answers a position of its list; and the buffer that the request leaves explains the answer. Where
  -- it names the transformer that buffer is full; where it names the forest, is_anomaly is what the
  -- score says; and where it names no model, is_anomaly is false.
  pub infer-Explains :
      IsArgmax
      → (s : Servicer n t) (r : Request n t) (l : n.Float)
      → (answer : InferenceResult n t) × ((infer n t s r l).1 ≡ ok answer)
        × Explains
            (buffer_of n t (infer n t s r l).0 r.service_id)
            answer.model_used
            answer.anomaly_score
            answer.is_anomaly
  infer-Explains bound s r l =
      let (answer, e) = infer-returns bound s r l in (answer, e, answer-Explains s r l answer e)
