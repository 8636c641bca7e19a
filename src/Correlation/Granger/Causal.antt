-- ===== src/Correlation/Granger/Causal.antt =====
-- The series and the edges of `find_root_cause` (correlation/causality/granger_engine.py).
use distrosense.Base.{
  sym, subst, ℕ, ◌≤◌, ◌≡◌, ◌≢◌, refl, String, Bool, true, false, List, [], ◌∷◌, ◌++◌, arith, All,
  All-append, string_eq, ◌==◌, ◌⊎◌, inl, inr, Result, ok, raised, Bool-cases, Result-cases, leb,
  ltb, if◌then◌else◌,
}
use distrosense.Base.Dict.{Dict, put}
use distrosense.Correlation.Cluster.{Anomaly}
use distrosense.Correlation.Granger.{
  Statistics, metric_for, granger_min_points, series_by_service, is_edge, judged, holds, edges_from,
  edges_of,
}

module _ (st : Statistics) where
  -- what the database or pandas raises
  pub data Fails : Type 0 where
    query : (sid metric : String) → st.fetch sid metric ≡ raised → Fails
    join : (effect cause : st.Series) → st.aligned effect cause ≡ raised → Fails

  -- raised by one of them, or a result
  abbrev pub OrFails : {A : Type 0} → (A → Type 0) → Result A → Type 0
  OrFails {A} P r = ((r ≡ raised) × Fails) ⊎ ((x : A) × (r ≡ ok x) × P x)

  -- the series of the service for one of its metrics, which is long enough
  pub record IsFetched (entry : String × st.Series) : Type 0 where
    pub metric : String
    pub fetched : st.fetch entry.0 metric ≡ ok entry.1
    pub long : 15 ≤ st.size entry.1

  -- the first service's series Granger-causes the second one's
  pub record IsCausal (edge : String × String) : Type 0 where
    pub cause : st.Series
    pub effect : st.Series
    pub points : ℕ
    pub cause_is : IsFetched (edge.0, cause)
    pub effect_is : IsFetched (edge.1, effect)
    pub apart : edge.0 ≢ edge.1
    pub joined : st.aligned effect cause ≡ ok points
    pub enough : 15 ≤ points
    pub tested : st.granger effect cause ≡ ok true

  All-put :
      (P : String × st.Series → Type 0) (d : Dict String st.Series) (k : String) (v : st.Series)
      → P (k, v)
      → All P d
      → All P (put d k v)
  unfolding put
  All-put P [] k v p h = (p, tt)
  All-put P ((j, w) ∷ d) k v p h = elim (Bool-cases (j == k)) [
    | inl e ↦ rw e (subst (λ x. P (x, v)) (sym ((string_eq.beq_iff j k).0 e)) p, h.1)
    | inr e ↦ rw e (h.0, All-put P d k v p h.1)
  ]

  kept :
      (d : Dict String st.Series) (sid metric : String) (s : st.Series)
      → st.fetch sid metric ≡ ok s
      → All IsFetched d
      → All IsFetched (if leb granger_min_points (st.size s) then put d sid s else d)
  kept d sid metric s e h = elim (Bool-cases (leb granger_min_points (st.size s))) [
    | inl long ↦ rw long (
        All-put IsFetched d sid s
          (record { metric = metric; fetched = e; long = ground (arith, long) }) h)
    | inr short ↦ rw short h
  ]

  pub series_by_service-IsFetched :
      (latest : Dict String Anomaly) (d : Dict String st.Series)
      → All IsFetched d
      → OrFails (All IsFetched) (series_by_service st d latest)
  unfolding series_by_service
  series_by_service-IsFetched [] d h = inr (d, refl, h)
  series_by_service-IsFetched ((sid, a) ∷ latest) d h =
      let metric = metric_for a.anomaly_type in
      elim (Result-cases (st.fetch sid metric)) [
        | inl e ↦ inl (rw (series_by_service, e) refl, query sid metric e)
        | inr (s, e) ↦
            rw (series_by_service, e)
              (series_by_service-IsFetched latest _ (kept d sid metric s e h))
      ]

  held : (r : Result Bool) → holds st r ≡ true → r ≡ ok true
  held raised h = cc
  held (ok true) h = refl
  held (ok false) h = cc

  neither : (b c : Bool) → (if b then false else c) ≡ true → (b ≡ false) × (c ≡ true)
  neither true c h = cc
  neither false c h = (refl, h)

  judged-IsCausal :
      (a b : String × st.Series)
      → IsFetched a
      → IsFetched b
      → (a.0 == b.0) ≡ false
      → OrFails (λ edge. edge ≡ true → IsCausal (a.0, b.0)) (judged st b.1 a.1 (st.aligned b.1 a.1))
  judged-IsCausal a b fa fb apart = elim (Result-cases (st.aligned b.1 a.1)) [
    | inl e ↦ inl (rw e refl, join b.1 a.1 e)
    | inr (points, e) ↦
        let test = st.granger b.1 a.1 in
        inr (
          if ltb points granger_min_points then false else holds st test,
          rw e refl,
          λ h.
              let (enough, positive) = neither (ltb points granger_min_points) (holds st test) h in
              record {
                cause = a.1;
                effect = b.1;
                points = points;
                cause_is = fa;
                effect_is = fb;
                apart = λ same. ground (arith, string_eq.beq_iff a.0 b.0);
                joined = e;
                enough = ground (arith, enough);
                tested = held test positive;
              },
        )
  ]

  is_edge-IsCausal :
      (a b : String × st.Series)
      → IsFetched a
      → IsFetched b
      → OrFails (λ edge. edge ≡ true → IsCausal (a.0, b.0)) (is_edge st a b)
  unfolding is_edge
  is_edge-IsCausal a b fa fb = elim (Bool-cases (a.0 == b.0)) [
    | inl same ↦ inr (false, rw same refl, λ h. cc)
    | inr apart ↦ rw apart (judged-IsCausal a b fa fb apart)
  ]

  added :
      (edge : Bool) (e : String × String) (rest : List (String × String))
      → (edge ≡ true → IsCausal e)
      → All IsCausal rest
      → All IsCausal (if edge then e ∷ rest else rest)
  added true e rest h all = (h refl, all)
  added false e rest h all = all

  edges_from-IsCausal :
      (a : String × st.Series) (series : Dict String st.Series)
      → IsFetched a
      → All IsFetched series
      → OrFails (All IsCausal) (edges_from st a series)
  unfolding edges_from
  edges_from-IsCausal a [] fa h = inr ([], refl, tt)
  edges_from-IsCausal a (b ∷ series) fa h = elim (is_edge-IsCausal a b fa h.0) [
    | inl (e, why) ↦ inl (rw (edges_from, e) refl, why)
    | inr (edge, e, causal) ↦ elim (edges_from-IsCausal a series fa h.1) [
      | inl (e', why) ↦ inl (rw (edges_from, e, e') refl, why)
      | inr (rest, e', all) ↦
          inr (_, rw (edges_from, e, e') refl, added edge (a.0, b.0) rest causal all)
    ]
  ]

  pub edges_of-IsCausal :
      (series all : Dict String st.Series)
      → All IsFetched series
      → All IsFetched all
      → OrFails (All IsCausal) (edges_of st series all)
  unfolding edges_of
  edges_of-IsCausal [] all h k = inr ([], refl, tt)
  edges_of-IsCausal (a ∷ series) all h k = elim (edges_from-IsCausal a all h.0 k) [
    | inl (e, why) ↦ inl (rw (edges_of, e) refl, why)
    | inr (edges, e, causal) ↦ elim (edges_of-IsCausal series all h.1 k) [
      | inl (e', why) ↦ inl (rw (edges_of, e, e') refl, why)
      | inr (rest, e', more) ↦
          inr (edges ++ rest, rw (edges_of, e, e') refl, All-append IsCausal edges rest causal more)
    ]
  ]
