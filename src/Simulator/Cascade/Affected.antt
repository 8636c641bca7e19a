-- ===== src/Simulator/Cascade/Affected.antt =====
-- What get_affected_services (simulator/services/cascade_map.py) returns.
use distrosense.Base.{
  elem-append, distinct-concat, zero, All-elem, All-map, All-append, ==_refl, length-append, ◌++◌,
  subst, ◌==◌, distinct, inr, inl, false, true, All, Bool-cases, not, some, suc, select, map, Bool,
  ◌≤◌, ℕ, ◌+◌, String, List, [], ◌∷◌, length, elem, string_eq, arith, ◌≡◌, refl,
}
use distrosense.Simulator.Cascade.{
  affect, get_affected_services, is_skipped, traverse, dependents_of, downstream, CascadeMap, edges,
}
use distrosense.Simulator.Cascade.Weight.{
  weight, weight-empty, weight-visit, length-select, length-map,
}

module _ (root : String) (m : CascadeMap) (max_depth : ℕ) where
  abbrev Queue : Type 0
  Queue = List (String × ℕ)

  length-downstream :
      (s : String) (d : ℕ) (visited : List String)
      → length (downstream root m max_depth s d visited) ≤ length (dependents_of m s)
  length-downstream s d visited = omega (
    arith,
    length-map {B = String × ℕ} (λ x. (x, suc d))
        (select (λ x. not (elem x visited)) (dependents_of m s)),
    length-select (λ x. not (elem x visited)) (dependents_of m s),
  )

  traverse-returns :
      (fuel : ℕ) (queue : Queue) (visited affected : List String)
      → length queue + weight visited m ≤ fuel
      → (out : List String) × (traverse root m max_depth fuel queue visited affected ≡ some out)
  unfolding traverse
  traverse-returns fuel [] visited affected h = (affected, refl)
  traverse-returns zero (entry ∷ queue) visited affected h = absurd (omega arith)
  traverse-returns (suc fuel) ((s, d) ∷ queue) visited affected h =
      elim (Bool-cases (is_skipped root m max_depth s d visited)) [
        | inl skipped ↦ rw skipped (traverse-returns fuel queue visited affected (omega arith))
        | inr taken ↦
            let unseen : elem s visited ≡ false = ground arith in
            let more = downstream root m max_depth s d (s ∷ visited) in
            rw taken (
              traverse-returns fuel (queue ++ more) (s ∷ visited)
                (affect root m max_depth s affected)
                (omega (
                  arith,
                  length-append queue more,
                  length-downstream s d (s ∷ visited),
                  weight-visit s visited m unseen,
                )))
      ]

  -- the fuel is enough for every map and every depth
  get_affected_services-returns :
      (out : List String) × (get_affected_services root m max_depth ≡ some out)
  unfolding get_affected_services edges
  get_affected_services-returns =
      traverse-returns (suc (edges m)) ((root, 0) ∷ []) [] [] (omega (arith, weight-empty m))

  -- a chain of dependents from the failed service, with its length
  pub data Chain : String → ℕ → Type 0 where
    start : Chain root 0
    next :
        (s : String) (d : ℕ) (t : String)
        → Chain s d
        → elem t (dependents_of m s) ≡ true
        → Chain t (suc d)

  -- within the depth
  pub IsNear : String → Type 0
  IsNear s = (d : ℕ) × Chain s d × (d ≤ max_depth)

  abbrev IsChained : String × ℕ → Type 0
  IsChained p = Chain p.0 p.1

  chains :
      (s : String) (d : ℕ)
      → Chain s d
      → (p : String → Bool) (xs : List String)
      → ((t : String) → elem t xs ≡ true → elem t (dependents_of m s) ≡ true)
      → All IsChained (map (λ t. (t, suc d)) (select p xs))
  chains s d c p [] sub = tt
  chains s d c p (x ∷ xs) sub =
      let rest = chains s d c p xs (λ t h. sub t (ground arith)) in
      elim (Bool-cases (p x)) [
        | inl kept ↦ rw kept (next s d x c (sub x (rw (==_refl x) refl)), rest)
        | inr dropped ↦ rw dropped rest
      ]

  downstream-IsChained :
      (s : String) (d : ℕ) (visited : List String)
      → Chain s d
      → All IsChained (downstream root m max_depth s d visited)
  downstream-IsChained s d visited c =
      chains s d c (λ t. not (elem t visited)) (dependents_of m s) (λ t h. h)

  -- what is known of the services found so far
  abbrev IsFound : List String → List String → Type 0
  IsFound visited affected =
      All IsNear affected
      × All (λ s. elem s visited ≡ true) affected
      × (distinct affected ≡ true)
      × (elem root affected ≡ false)

  visited_more :
      (s a : String) (visited : List String) → elem a visited ≡ true → elem a (s ∷ visited) ≡ true
  visited_more s a visited h = ground arith

  not_found :
      (s : String) (visited affected : List String)
      → elem s visited ≡ false
      → All (λ a. elem a visited ≡ true) affected
      → elem s affected ≡ false
  not_found s visited affected unseen h = elim (Bool-cases (elem s affected)) [
    | inr absent ↦ absent
    | inl found ↦
        let seen = All-elem (λ a. elem a visited ≡ true) s affected h found in ground arith
  ]

  affect-IsFound :
      (s : String) (d : ℕ) (visited affected : List String)
      → Chain s d
      → is_skipped root m max_depth s d visited ≡ false
      → IsFound visited affected
      → IsFound (s ∷ visited) (affect root m max_depth s affected)
  unfolding IsNear
  affect-IsFound s d visited affected c taken f =
      let unseen : elem s visited ≡ false = ground arith in
      let near : d ≤ max_depth = ground arith in
      let visits = All-map (λ a h. visited_more s a visited h) affected f.1 in
      elim (Bool-cases (s == root)) [
        | inl same ↦ rw same (f.0, visits, f.2, f.3)
        | inr other ↦ rw other (
          All-append IsNear affected (s ∷ []) f.0 ((d, c, near), tt),
          All-append _ affected (s ∷ []) visits (rw (==_refl s) refl, tt),
          distinct-concat s affected f.2 (not_found s visited affected unseen f.1),
          ground (
            arith,
            elem-append root affected (s ∷ []),
            string_eq.beq_iff root s,
            string_eq.beq_iff s root,
            f.3,
          ),
        )
      ]

  some_inj : (a b : List String) → some a ≡ some b → a ≡ b
  some_inj a b e = ground arith

  traverse-IsFound :
      (fuel : ℕ) (queue : Queue) (visited affected out : List String)
      → All IsChained queue
      → IsFound visited affected
      → traverse root m max_depth fuel queue visited affected ≡ some out
      → All IsNear out × (distinct out ≡ true) × (elem root out ≡ false)
  unfolding traverse
  traverse-IsFound fuel [] visited affected out q f e =
      let same : affected ≡ out = some_inj affected out e in
      subst (λ o. All IsNear o × (distinct o ≡ true) × (elem root o ≡ false)) same (f.0, f.2, f.3)
  traverse-IsFound zero (entry ∷ queue) visited affected out q f e = absurd (ground arith)
  traverse-IsFound (suc fuel) ((s, d) ∷ queue) visited affected out q f e =
      elim (Bool-cases (is_skipped root m max_depth s d visited)) [
        | inl skipped ↦ traverse-IsFound fuel queue visited affected out q.1 f (ground arith)
        | inr taken ↦
            let more = downstream root m max_depth s d (s ∷ visited) in
            traverse-IsFound fuel (queue ++ more) (s ∷ visited) (affect root m max_depth s affected)
              out (All-append IsChained queue more q.1 (downstream-IsChained s d (s ∷ visited) q.0))
              (affect-IsFound s d visited affected q.0 taken f) (ground arith)
      ]

  -- The traversal ends for every map and every depth, and gives a list of services. Each stands in it
  -- once, the failed service is not among them, and each of them is reached from it by a chain of
  -- dependents that is no longer than the depth.
  pub get_affected_services-IsNear :
      (out : List String) × (get_affected_services root m max_depth ≡ some out)
      × All IsNear out
      × (distinct out ≡ true)
      × (elem root out ≡ false)
  unfolding get_affected_services
  get_affected_services-IsNear =
      let (out, e) = get_affected_services-returns in
      let (near, once, rootless) =
        traverse-IsFound (suc (edges m)) ((root, 0) ∷ []) [] [] out (start, tt) (tt, tt, refl, refl)
          e in
      (out, e, near, once, rootless)
