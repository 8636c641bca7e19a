-- ===== src/Orchestrator/Filter/Seen.antt =====
-- The bounded record of incident ids, and what it says of redeliveries.
use distrosense.Base.{
  ℕ, suc, ◌+◌, ◌≤◌, ◌<◌, ◌≡◌, refl, String, true, Option, List, [], ◌∷◌, ◌++◌, arith, append_assoc,
  length, length-append, elem, distinct, elem-append, distinct-concat, ltb, Bool-cases, option_eq,
  string_eq, option_beq_iff, inl, inr, ◌∙◌, ◌≢◌,
}
use distrosense.Orchestrator.Incident.{Incident, get_opt}
use distrosense.Orchestrator.Filter.{IncidentFilter, duplicate, evict, judge, remember, check, run}

pub record IsValid (f : IncidentFilter) : Type 0 where
  pub once : distinct f.seen ≡ true
  pub bounded : length f.seen ≤ f.max_seen

length-evict-le : (n : ℕ) (xs : List (Option String)) → length (evict n xs) ≤ n
unfolding evict
length-evict-le n [] = omega arith
length-evict-le n (x ∷ xs) = ground (arith, length-evict-le n xs)

distinct-evict :
    (n : ℕ) (xs : List (Option String)) → distinct xs ≡ true → distinct (evict n xs) ≡ true
unfolding evict
distinct-evict n [] h = refl
distinct-evict n (x ∷ xs) h = ground (arith, distinct-evict n xs)

-- The loop drops from the front only: an end of the list that fits stays.
evict-append :
    (n : ℕ) (xs ys : List (Option String))
    → length ys ≤ n
    → (xs' : List (Option String)) × (evict n (xs ++ ys) ≡ xs' ++ ys)
unfolding evict
evict-append n [] [] h = ([], refl)
evict-append n [] (y ∷ ys) h = ([], ground arith)
evict-append n (x ∷ xs) ys h = elim (Bool-cases (ltb n (length (x ∷ xs ++ ys)))) [
  | inl over ↦ let (xs', e) = evict-append n xs ys h in (xs', ground arith)
  | inr fits ↦ (x ∷ xs, ground arith)
]

seen-judge : (f : IncidentFilter) (now : ℕ) (i : Incident) → (judge f now i).0.seen ≡ f.seen
unfolding judge
seen-judge f now i = ground arith

max_seen-judge :
    (f : IncidentFilter) (now : ℕ) (i : Incident) → (judge f now i).0.max_seen ≡ f.max_seen
unfolding judge
max_seen-judge f now i = ground arith

max_seen-check :
    (f : IncidentFilter) (now : ℕ) (i : Incident) → (check f now i).0.max_seen ≡ f.max_seen
unfolding check remember
max_seen-check f now i = ground (arith, max_seen-judge (remember f (get_opt i.incident_id)) now i)

judge-ne-duplicate :
    (f : IncidentFilter) (now : ℕ) (i : Incident) → (judge f now i).1 ≡ duplicate → ⊥
unfolding judge
judge-ne-duplicate f now i h = ground arith

-- A check keeps the record of ids free of repetitions and within its bound, whatever the verdict.
pub check-IsValid :
    (f : IncidentFilter) (now : ℕ) (i : Incident) → IsValid f → IsValid (check f now i).0
unfolding check remember
check-IsValid f now i v =
    let id = get_opt i.incident_id in
    let g = remember f id in
    ground (
      arith,
      seen-judge g now i,
      max_seen-judge g now i,
      length-evict-le f.max_seen (f.seen ++ id ∷ []),
      distinct-evict f.max_seen (f.seen ++ id ∷ []),
      distinct-concat id f.seen,
    )

-- The id was recorded, and at most `n` others were after it.
pub record Recent (id : Option String) (n : ℕ) (f : IncidentFilter) : Type 0 where
  pub older : List (Option String)
  pub newer : List (Option String)
  pub at : f.seen ≡ older ++ id ∷ newer
  pub few : length newer ≤ n

elem-Recent :
    {id : Option String} {n : ℕ} (f : IncidentFilter) → Recent id n f → elem id f.seen ≡ true
elem-Recent {id} f r = ground (arith, elem-append id r.older (id ∷ r.newer), option_beq_iff id id)

Recent-remember :
    (f : IncidentFilter) (id : Option String) → 0 < f.max_seen → Recent id 0 (remember f id)
unfolding remember
Recent-remember f id h =
    let (older, e) = evict-append f.max_seen f.seen (id ∷ []) (omega arith) in
    record { older = older; newer = []; at = e; few = omega arith }

Recent-judge :
    {id : Option String} {n : ℕ} (f : IncidentFilter) (now : ℕ) (i : Incident)
    → Recent id n f
    → Recent id n (judge f now i).0
Recent-judge f now i r = record {
  older = r.older;
  newer = r.newer;
  at = seen-judge f now i ∙ r.at;
  few = r.few;
}

Recent-remember_other :
    {id : Option String} {n : ℕ} (f : IncidentFilter) (other : Option String)
    → suc (suc n) ≤ f.max_seen
    → Recent id n f
    → Recent id (suc n) (remember f other)
unfolding remember
Recent-remember_other {id} {n} f other room r =
    let more = length-append r.newer (other ∷ []) in
    let (older, e) =
      evict-append f.max_seen r.older (id ∷ (r.newer ++ other ∷ [])) (omega (arith, r.few, more)) in
    record {
      older = older;
      newer = r.newer ++ other ∷ [];
      at = rw (r.at, append_assoc) e;
      few = omega (arith, r.few, more);
    }

Recent-check :
    {id : Option String} {n : ℕ} (f : IncidentFilter) (now : ℕ) (i : Incident)
    → suc (suc n) ≤ f.max_seen
    → Recent id n f
    → Recent id (suc n) (check f now i).0
unfolding check
Recent-check {id} {n} f now i room r = elim (Bool-cases (elem (get_opt i.incident_id) f.seen)) [
  | inl old ↦
      rw old (record { older = r.older; newer = r.newer; at = r.at; few = omega (arith, r.few) })
  | inr new ↦ rw new (
      Recent-judge (remember f (get_opt i.incident_id)) now i
        (Recent-remember_other f (get_opt i.incident_id) room r))
]

Recent-run :
    {id : Option String} (n : ℕ) (f : IncidentFilter) (others : List (ℕ × Incident))
    → suc (n + length others) ≤ f.max_seen
    → Recent id n f
    → Recent id (n + length others) (run f others)
unfolding run
Recent-run n f [] room r = record {
  older = r.older;
  newer = r.newer;
  at = r.at;
  few = omega (arith, r.few);
}
Recent-run {id} n f ((now, i) ∷ others) room r =
    let g = (check f now i).0 in
    let kept = max_seen-check f now i in
    let later = Recent-run (suc n) g others (omega arith) (Recent-check f now i (omega arith) r) in
    record {
      older = later.older;
      newer = later.newer;
      at = later.at;
      few = omega (arith, later.few);
    }

-- An incident that was checked, and not found to be a duplicate then, is a duplicate at every
-- redelivery that fewer than `max_seen` other checks precede, and such a redelivery changes nothing.
pub check-redelivered :
    (f : IncidentFilter) (now : ℕ) (i : Incident) (others : List (ℕ × Incident)) (later : ℕ)
    → (check f now i).1 ≢ duplicate
    → length others < f.max_seen
    → check (run (check f now i).0 others) later i ≡ (run (check f now i).0 others, duplicate)
unfolding check
check-redelivered f now i others later fresh room =
    elim (Bool-cases (elem (get_opt i.incident_id) f.seen)) [
      | inl old ↦ absurd (fresh (rw old refl))
      | inr new ↦ rw new (
          let g = (judge (remember f (get_opt i.incident_id)) now i).0 in
          let first =
            Recent-judge (remember f (get_opt i.incident_id)) now i
              (Recent-remember f (get_opt i.incident_id) (omega arith)) in
          let size = max_seen-judge (remember f (get_opt i.incident_id)) now i in
          let found =
            elem-Recent (run g others)
              (Recent-run 0 g others (unfold remember in omega (arith, size)) first) in
          rw found refl)
    ]
