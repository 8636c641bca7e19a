-- ===== src/Correlation/Granger/Degrees.antt =====
-- The degree tables count edges, and `max` and `min` find extremes.
use distrosense.Base.{
  ℕ, suc, ◌+◌, ◌≤◌, ◌≡◌, refl, String, Bool, true, false, List, [], ◌∷◌, arith, ltb, elem, All, any,
  string_eq, nat_eq, ◌==◌, ==_refl, if◌then◌else◌, Bool-cases, inl, inr,
}
use distrosense.Base.Dict.{Dict, get, get-put}
use distrosense.Correlation.Cluster.{Anomaly}
use distrosense.Correlation.Granger.{degree, bump, zeros, out_degrees, in_degrees, max_by, earliest}

-- the edges that leave a service, and those that enter it
abbrev pub out_count : String → List (String × String) → ℕ
out_count sid [] = 0
out_count sid (e ∷ edges) = (if e.0 == sid then 1 else 0) + out_count sid edges

abbrev pub in_count : String → List (String × String) → ℕ
in_count sid [] = 0
in_count sid (e ∷ edges) = (if e.1 == sid then 1 else 0) + in_count sid edges

degree-bump :
    (d : Dict String ℕ) (k sid : String)
    → degree (bump d k) sid ≡ degree d sid + (if k == sid then 1 else 0)
unfolding bump
degree-bump d k sid = ground (arith, get-put d k sid (suc (degree d k)), string_eq.beq_iff k sid)

degree-zeros : (sids : List String) (sid : String) → degree (zeros sids) sid ≡ 0
unfolding zeros get
degree-zeros [] sid = refl
degree-zeros (x ∷ sids) sid = ground (arith, degree-zeros sids sid)

degree-out_from :
    (d : Dict String ℕ) (edges : List (String × String)) (sid : String)
    → degree (out_degrees d edges) sid ≡ degree d sid + out_count sid edges
unfolding out_degrees
degree-out_from d [] sid = omega arith
degree-out_from d ((a, b) ∷ edges) sid =
    omega (arith, degree-out_from (bump d a) edges sid, degree-bump d a sid)

degree-in_from :
    (d : Dict String ℕ) (edges : List (String × String)) (sid : String)
    → degree (in_degrees d edges) sid ≡ degree d sid + in_count sid edges
unfolding in_degrees
degree-in_from d [] sid = omega arith
degree-in_from d ((a, b) ∷ edges) sid =
    omega (arith, degree-in_from (bump d b) edges sid, degree-bump d b sid)

pub degree-out_degrees :
    (sids : List String) (edges : List (String × String)) (sid : String)
    → degree (out_degrees (zeros sids) edges) sid ≡ out_count sid edges
degree-out_degrees sids edges sid =
    omega (arith, degree-out_from (zeros sids) edges sid, degree-zeros sids sid)

pub degree-in_degrees :
    (sids : List String) (edges : List (String × String)) (sid : String)
    → degree (in_degrees (zeros sids) edges) sid ≡ in_count sid edges
degree-in_degrees sids edges sid =
    omega (arith, degree-in_from (zeros sids) edges sid, degree-zeros sids sid)

-- the better of two under a test, as `max` and `min` keep it
best_of-ge :
    (key : String → ℕ) (best x : String)
    → (key best ≤ key (if ltb (key best) (key x) then x else best))
      × (key x ≤ key (if ltb (key best) (key x) then x else best))
best_of-ge key best x = elim (Bool-cases (ltb (key best) (key x))) [
  | inl e ↦ rw e (ground arith)
  | inr e ↦ rw e (ground arith)
]

pub max_by-greatest :
    (key : String → ℕ) (best : String) (l : List String)
    → (key best ≤ key (max_by key best l)) × All (λ x. key x ≤ key (max_by key best l)) l
unfolding max_by
max_by-greatest key best [] = (omega arith, tt)
max_by-greatest key best (x ∷ l) =
    let (h, rest) = max_by-greatest key (if ltb (key best) (key x) then x else best) l in
    (omega (arith, h, best_of-ge key best x), (omega (arith, h, best_of-ge key best x), rest))

elem-best :
    (b : Bool) (m x best : String) (l : List String)
    → elem m ((if b then x else best) ∷ l) ≡ true
    → elem m (best ∷ x ∷ l) ≡ true
elem-best true m x best l h = ground arith
elem-best false m x best l h = ground arith

pub elem-max_by :
    (key : String → ℕ) (best : String) (l : List String)
    → elem (max_by key best l) (best ∷ l) ≡ true
unfolding max_by
elem-max_by key best [] = rw (==_refl best) refl
elem-max_by key best (x ∷ l) =
    elem-best (ltb (key best) (key x)) _ x best l
      (elem-max_by key (if ltb (key best) (key x) then x else best) l)

earlier-le :
    (best x : Anomaly)
    → ((if ltb x.detected_at best.detected_at then x else best).detected_at ≤ best.detected_at)
      × ((if ltb x.detected_at best.detected_at then x else best).detected_at ≤ x.detected_at)
earlier-le best x = elim (Bool-cases (ltb x.detected_at best.detected_at)) [
  | inl e ↦ rw e (ground arith)
  | inr e ↦ rw e (ground arith)
]

pub earliest-least :
    (best : Anomaly) (l : List Anomaly)
    → ((earliest best l).detected_at ≤ best.detected_at)
      × All (λ a. (earliest best l).detected_at ≤ a.detected_at) l
unfolding earliest
earliest-least best [] = (omega arith, tt)
earliest-least best (x ∷ l) =
    let (h, rest) = earliest-least (if ltb x.detected_at best.detected_at then x else best) l in
    (omega (arith, h, earlier-le best x), (omega (arith, h, earlier-le best x), rest))

-- the service of one of the anomalies
abbrev pub hosts : String → List Anomaly → Bool
hosts sid = any (λ a. a.service_id == sid)

hosts-best :
    (b : Bool) (sid : String) (x best : Anomaly) (l : List Anomaly)
    → hosts sid ((if b then x else best) ∷ l) ≡ true
    → hosts sid (best ∷ x ∷ l) ≡ true
hosts-best true sid x best l h = ground arith
hosts-best false sid x best l h = ground arith

pub hosts-earliest :
    (best : Anomaly) (l : List Anomaly) → hosts (earliest best l).service_id (best ∷ l) ≡ true
unfolding earliest
hosts-earliest best [] = rw (==_refl best.service_id) refl
hosts-earliest best (x ∷ l) =
    hosts-best (ltb x.detected_at best.detected_at) _ x best l
      (hosts-earliest (if ltb x.detected_at best.detected_at then x else best) l)
