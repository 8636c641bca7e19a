-- ===== src/Correlation/Granger/Leading.antt =====
-- Which service of a causality graph is named (find_root_cause of
-- correlation/causality/granger_engine.py).
use distrosense.Base.{
  ℕ, ◌≤◌, ◌≡◌, ◌≢◌, refl, ap, String, true, ◌&&◌, List, [], ◌∷◌, arith, elem, select, All, All-elem,
  elem-select, string_eq, nat_eq, nat_beq_iff, ◌==◌, inl, inr, ◌⊎◌, ◌∙◌, subst, Result, ok,
  List-cases,
}
use distrosense.Correlation.Cluster.{Anomaly}
use distrosense.Correlation.Granger.{
  granger, fallback_earliest, RootCause, degree, zeros, out_degrees, in_degrees, max_by, max_of,
  or_all, earliest, pick_root,
}
use distrosense.Correlation.Granger.Degrees.{
  out_count, in_count, degree-out_degrees, degree-in_degrees, max_by-greatest, elem-max_by,
  earliest-least, hosts, hosts-earliest,
}

-- `root` is a candidate: nothing explains it, or everything is explained by something. Among the
-- candidates it explains the most.
pub record IsLeading (sids : List String) (edges : List (String × String)) (root : String)
    : Type 0 where
  pub member : elem root sids ≡ true
  pub source :
      (sid : String) → elem sid sids ≡ true → in_count sid edges ≡ 0 → in_count root edges ≡ 0
  pub leads :
      (sid : String)
      → elem sid sids ≡ true
      → (in_count sid edges ≡ 0) ⊎ (in_count root edges ≢ 0)
      → out_count sid edges ≤ out_count root edges

module _ (sids : List String) (edges : List (String × String)) where
  abbrev out : String → ℕ
  out = degree (out_degrees (zeros sids) edges)

  abbrev sources : List String
  sources = select (λ sid. degree (in_degrees (zeros sids) edges) sid == 0) sids

  elem-sources : (sid : String) → elem sid sources ≡ (elem sid sids && in_count sid edges == 0)
  elem-sources sid =
      elem-select (λ s. degree (in_degrees (zeros sids) edges) s == 0) sid sids
      ∙ rw (degree-in_degrees sids edges sid) refl

  -- the greatest of a list of candidates
  record IsBest (l : List String) (root : String) : Type 0 where
    among : elem root l ≡ true
    most : (sid : String) → elem sid l ≡ true → out_count sid edges ≤ out_count root edges

  max_of-IsBest : (l : List String) (root : String) → max_of out l ≡ ok root → IsBest l root
  max_of-IsBest [] root h = cc
  max_of-IsBest (x ∷ l) root h =
      let e : max_by out x l ≡ root = cc in
      let (first, rest) = max_by-greatest out x l in
      record {
        among = subst (λ r. elem r (x ∷ l) ≡ true) e (elem-max_by out x l);
        most = λ sid m.
            let le = All-elem (λ s. out s ≤ out (max_by out x l)) sid (x ∷ l) (first, rest) m in
            omega (
              arith,
              rw e at le,
              degree-out_degrees sids edges sid,
              degree-out_degrees sids edges root,
            );
      }

  max_of-IsLeading :
      (root : String) → max_of out (or_all sources sids) ≡ ok root → IsLeading sids edges root
  max_of-IsLeading root h = elim (List-cases sources) [
    | inl e ↦
        let b = max_of-IsBest sids root (rw e at h) in
        record {
          member = b.among;
          source = λ sid m z. ground (arith, elem-sources sid, ap (elem sid) e);
          leads = λ sid m c. b.most sid m;
        }
    | inr (x, l, e) ↦
        let b = max_of-IsBest (x ∷ l) root (rw e at h) in
        let root_in : elem root sources ≡ true = rw e b.among in
        record {
          member = ground (arith, elem-sources root);
          source =
              λ sid m z. ground (arith, elem-sources root, nat_beq_iff (in_count root edges) 0);
          leads = λ sid m c.
              let root_free : in_count root edges ≡ 0 =
                ground (arith, elem-sources root, nat_beq_iff (in_count root edges) 0) in
              b.most sid (
                ground
                  (arith, elem-sources sid, nat_beq_iff (in_count sid edges) 0, ap (elem sid) e));
        }
  ]

-- the root of a report is a leading service of the graph it reports, or there is no edge at all
-- and it is where the earliest anomaly stands
abbrev pub IsExplained : List Anomaly → List String → RootCause → Type 0
IsExplained anomalies sids r = elim r.method [
  | granger ↦ IsLeading sids r.causal_edges r.root_cause_service_id
  | fallback_earliest ↦
      (first : Anomaly) × (first.service_id ≡ r.root_cause_service_id)
      × (hosts first.service_id anomalies ≡ true)
      × All (λ a. first.detected_at ≤ a.detected_at) anomalies
]

max_of-ok :
    (key : String → ℕ) (sources sids : List String)
    → sids ≢ []
    → (root : String) × (max_of key (or_all sources sids) ≡ ok root)
max_of-ok key [] [] h = elim (h refl) [ ]
max_of-ok key [] (x ∷ sids) h = (max_by key x sids, refl)
max_of-ok key (x ∷ sources) sids h = (max_by key x sources, refl)

abbrev Explains : List Anomaly → List String → List (String × String) → Result RootCause → Type 0
Explains anomalies sids edges result =
    (r : RootCause) × (result ≡ ok r) × (r.causal_edges ≡ edges) × IsExplained anomalies sids r

pub pick_root-Explains :
    (a : Anomaly) (l : List Anomaly) (sids : List String) (edges : List (String × String))
    → (sids ≡ [] → edges ≡ [])
    → Explains (a ∷ l) sids edges (pick_root (a ∷ l) sids edges)
unfolding pick_root
pick_root-Explains a l sids [] h =
    (_, refl, refl, (earliest a l, refl, hosts-earliest a l, earliest-least a l))
pick_root-Explains a l sids (e ∷ edges) h =
    let edged = e ∷ edges in
    let (root, found) = max_of-ok (out sids edged) (sources sids edged) sids (λ n. cc (h n)) in
    rw (found, pick_root) (_, refl, refl, max_of-IsLeading sids edged root found)
