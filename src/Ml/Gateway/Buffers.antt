-- ===== src/Ml/Gateway/Buffers.antt =====
-- The rolling buffers of the gateway (ml_service/gateway/grpc_gateway.py: _get_buffer and the append
-- in Infer) along a run of requests.
use distrosense.Base.{
  none, some, Option, nat_eq, Result-cases, ◌&&◌, String, Bool, List, [], ◌∷◌, ◌++◌, length, ◌≡◌,
  refl, ap, ◌∙◌, inl, inr, leb, if◌then◌else◌, string_eq, ◌==◌, arith, Bool-cases, append-nil,
  append_assoc,
}
use distrosense.Base.Dict.{get, get-put}
use distrosense.Base.Deque.{push, keep_last, keep_last-append}
use distrosense.Ml.Forest.{Statistics}
use distrosense.Ml.Gateway.{
  primary_by, rows_at, Torch, Servicer, Request, Row, buffer_of, get_buffer, observe, primary,
  reconstruct_full, confirm, infer, error_of, take, num_features, sequence_len, Files, start,
}

module _ (n : Statistics) (t : Torch n) where
  -- the request adds a row to the service's buffer
  abbrev pub is_row_for : String → Request n t → Bool
  is_row_for service_id r =
      (r.service_id == service_id) && leb num_features (length r.feature_vector)

  abbrev pub rows_for : String → Request n t → List (Row n t)
  rows_for service_id r =
      if is_row_for service_id r then take num_features r.feature_vector ∷ [] else []

  -- the rows that requests add to the buffer of one service
  abbrev pub rows : String → List (Request n t × n.Float) → List (Row n t)
  rows service_id [] = []
  rows service_id ((r, l) ∷ rs) = rows_for service_id r ++ rows service_id rs

  unfoldable pub run : Servicer n t → List (Request n t × n.Float) → Servicer n t
  run s [] = s
  run s ((r, l) ∷ rs) = run (infer n t s r l).0 rs

  buffer_of-get_buffer :
      (s : Servicer n t) (i j : String) → buffer_of n t (get_buffer n t s i) j ≡ buffer_of n t s j
  unfolding get_buffer
  buffer_of-get_buffer s i j = ground (arith, get-put s.buffers i j [], string_eq.beq_iff i j)

  -- a request appends its row to its own service's buffer
  pub buffer_of-observe :
      (s : Servicer n t) (r : Request n t) (j : String)
      → buffer_of n t (observe n t s r) j ≡ (
          if is_row_for j r
          then push sequence_len (buffer_of n t s j) (take num_features r.feature_vector)
          else buffer_of n t s j)
  unfolding observe
  buffer_of-observe s r j =
      let i = r.service_id in
      let row = take num_features r.feature_vector in
      let ready = get_buffer n t s i in
      let appended = push sequence_len (buffer_of n t ready i) row in
      ground (
        arith,
        buffer_of-get_buffer s i j,
        get-put ready.buffers i j appended,
        string_eq.beq_iff i j,
      )

  -- the later steps leave the buffers as they are
  buffers-confirm :
      (s : Servicer n t) (i : String) (e : n.Float) → (confirm n t s i e).0.buffers ≡ s.buffers
  unfolding confirm
  buffers-confirm s i e = ground arith

  buffers-reconstruct_full :
      (s : Servicer n t) (i : String) (m : t.Transformer) (b : List (Row n t))
      → (reconstruct_full n t s i m b).0.buffers ≡ s.buffers
  unfolding reconstruct_full
  buffers-reconstruct_full s i m b = elim (Result-cases (error_of n t s m b)) [
    | inl failed ↦ rw (failed, reconstruct_full) refl
    | inr (e, done) ↦ rw (done, reconstruct_full) (buffers-confirm s i e)
  ]

  buffers-primary_by :
      (s : Servicer n t) (i : String) (b : List (Row n t)) (model : Option t.Transformer)
      → (primary_by n t s i b model).0.buffers ≡ s.buffers
  buffers-primary_by s i b none = refl
  buffers-primary_by s i b (some m) = elim (Bool-cases (length b == sequence_len)) [
    | inl full ↦ rw full (buffers-reconstruct_full s i m b)
    | inr warm ↦ rw warm refl
  ]

  buffers-infer :
      (s : Servicer n t) (r : Request n t) (l : n.Float)
      → (infer n t s r l).0.buffers ≡ (observe n t s r).buffers
  unfolding infer primary
  buffers-infer s r l =
      let seen = observe n t s r in
      buffers-primary_by seen r.service_id (buffer_of n t seen r.service_id) seen.transformer

  -- `infer` on the buffer of a service
  pub buffer_of-infer :
      (s : Servicer n t) (r : Request n t) (l : n.Float) (j : String)
      → buffer_of n t (infer n t s r l).0 j ≡ buffer_of n t (observe n t s r) j
  buffer_of-infer s r l j = ap (λ b. rows_at n t b j) (buffers-infer s r l)

  buffer_of-infer_past :
      (s : Servicer n t) (r : Request n t) (l : n.Float) (j : String) (past : List (Row n t))
      → buffer_of n t s j ≡ keep_last sequence_len past
      → buffer_of n t (infer n t s r l).0 j ≡ keep_last sequence_len (past ++ rows_for j r)
  unfolding push
  buffer_of-infer_past s r l j past e =
      let row = take num_features r.feature_vector in
      buffer_of-infer s r l j ∙ buffer_of-observe s r j ∙ elim (Bool-cases (is_row_for j r)) [
        | inl own ↦ rw (own, e) (keep_last-append sequence_len past (row ∷ []))
        | inr other ↦ rw (other, append-nil past) e
      ]

  buffer_of-run_from :
      (s : Servicer n t) (rs : List (Request n t × n.Float)) (j : String) (past : List (Row n t))
      → buffer_of n t s j ≡ keep_last sequence_len past
      → buffer_of n t (run s rs) j ≡ keep_last sequence_len (past ++ rows j rs)
  unfolding run
  buffer_of-run_from s [] j past e = rw (append-nil past) e
  buffer_of-run_from s ((r, l) ∷ rs) j past e =
      rw (← append_assoc past (rows_for j r) (rows j rs)) (
        buffer_of-run_from (infer n t s r l).0 rs j (past ++ rows_for j r)
          (buffer_of-infer_past s r l j past e))

  -- From the start of the gateway, whatever files it finds, the buffer of a service holds after any
  -- run of requests the last 60 of the rows that its own requests with at least four features gave,
  -- in their order.
  pub buffer_of-run :
      (f : Files n t) (rs : List (Request n t × n.Float)) (j : String)
      → buffer_of n t (run (start n t f) rs) j ≡ keep_last sequence_len (rows j rs)
  unfolding start keep_last get
  buffer_of-run f rs j = buffer_of-run_from (start n t f) rs j [] refl
