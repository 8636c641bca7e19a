-- ===== src/Simulator/Cascade/Built.antt =====
-- The map that build_cascade_map (simulator/services/cascade_map.py) builds.
use distrosense.Base.{
  Option-cases, subst, ==_refl, elem-select, ap, ℕ, ◌-◌, ◌≤◌, min, String, true, false, not, ◌||◌,
  some, List, [], ◌∷◌, length, elem, string_eq, ◌==◌, arith, inl, inr, Bool-cases, ◌≡◌, refl, ok,
  distinct,
}
use distrosense.Base.Dict.{has, get, put, get-put}
use distrosense.Simulator.Cascade.{Random, CascadeMap, others, draw, build, build_cascade_map}

-- What the documentation of the random module says: randint keeps to its bounds, and a sample of no
-- more elements than there are is taken from the list, in that number.
pub record IsRandom (g : Random) : Type 0 where
  pub randint_bounds :
      (r : g.R) (a b : ℕ) → a ≤ b → (a ≤ (g.randint r a b).1) × ((g.randint r a b).1 ≤ b)
  pub sample_returns :
      (r : g.R) (xs : List String) (k : ℕ)
      → k ≤ length xs
      → (ys : List String) × ((g.sample r xs k).1 ≡ ok ys)
        × (length ys ≡ k)
        × ((y : String) → elem y ys ≡ true → elem y xs ≡ true)

-- The dependents of a service: one to three where there are so many others, all of them in the list
-- of the services, and never the service itself.
pub record IsDrawn (service_ids : List String) (service : String) (ys : List String) : Type 0 where
  pub at_most_three : length ys ≤ 3
  pub at_least_one : min 1 (length service_ids - 1) ≤ length ys
  pub known : (y : String) → elem y ys ≡ true → elem y service_ids ≡ true
  pub never_itself : elem service ys ≡ false

others-absent :
    (g : Random) (service : String) (xs : List String)
    → elem service xs ≡ false
    → length (others g service xs) ≡ length xs
others-absent g service [] h = refl
others-absent g service (x ∷ xs) h =
    ground
      (arith, others-absent g service xs, string_eq.beq_iff x service, string_eq.beq_iff service x)

length-others :
    (g : Random) (service : String) (xs : List String)
    → distinct xs ≡ true
    → length xs - 1 ≤ length (others g service xs)
length-others g service [] h = omega arith
length-others g service (x ∷ xs) h = elim (Bool-cases (x == service)) [
  | inl same ↦
      let gone : elem service xs ≡ false =
        ground (arith, ap (λ y. elem y xs) ((string_eq.beq_iff x service).0 same)) in
      rw same (omega (arith, others-absent g service xs gone))
  | inr other ↦ rw other (ground (arith, length-others g service xs))
]

never_other :
    (g : Random) (service : String) (xs : List String) → elem service (others g service xs) ≡ false
never_other g service xs =
    ground (arith, elem-select (λ s. not (s == service)) service xs, ==_refl service)

module _ (g : Random) (law : IsRandom g) where
  from_others :
      (service : String) (xs : List String) (y : String)
      → elem y (others g service xs) ≡ true
      → elem y xs ≡ true
  from_others service xs y e = ground (arith, elem-select (λ s. not (s == service)) y xs)

  itself_absent :
      (service : String) (xs ys : List String)
      → ((y : String) → elem y ys ≡ true → elem y (others g service xs) ≡ true)
      → elem service ys ≡ false
  itself_absent service xs ys sub = elim (Bool-cases (elem service ys)) [
    | inr absent ↦ absent
    | inl drawn ↦ let there = sub service drawn in ground (arith, never_other g service xs)
  ]

  draw-IsDrawn :
      (r : g.R) (service_ids : List String) (service : String)
      → distinct service_ids ≡ true
      → (ys : List String) × ((draw g r service_ids service).1 ≡ ok ys)
        × IsDrawn service_ids service ys
  unfolding draw
  draw-IsDrawn r service_ids service h =
      let (after, n) = g.randint r 1 3 in
      let xs = others g service service_ids in
      let k = min n (length service_ids - 1) in
      let bounds = law.randint_bounds r 1 3 (omega arith) in
      let drawn =
        law.sample_returns after xs k (omega (arith, length-others g service service_ids h)) in
      let ys = drawn.0 in
      (
        ys,
        drawn.1,
        record {
          at_most_three = omega (arith, drawn.2, bounds.1);
          at_least_one = omega (arith, drawn.2, bounds.0);
          known = λ y e. from_others service service_ids y (drawn.3 y e);
          never_itself = itself_absent service service_ids ys drawn.3;
        },
      )

  -- every entry is as drawn
  abbrev IsFit : List String → CascadeMap → Type 0
  IsFit service_ids m =
      (s : String) (ys : List String) → get m s ≡ some ys → IsDrawn service_ids s ys

  IsFit-put :
      (service_ids : List String) (built : CascadeMap) (service : String) (ys : List String)
      → IsFit service_ids built
      → IsDrawn service_ids service ys
      → IsFit service_ids (put built service ys)
  IsFit-put service_ids built service ys fit drawn s zs e = elim (Bool-cases (service == s)) [
    | inl same ↦
        let value : ys ≡ zs = ground (arith, get-put built service s ys) in
        subst (λ x. IsDrawn service_ids x zs) ((string_eq.beq_iff service s).0 same)
          (subst (IsDrawn service_ids service) value drawn)
    | inr other ↦ fit s zs (ground (arith, get-put built service s ys))
  ]

  kept :
      (service s : String) (rest : List String) (built : CascadeMap) (ys : List String)
      → (elem s (service ∷ rest) || has built s) ≡ true
      → (elem s rest || has (put built service ys) s) ≡ true
  kept service s rest built ys e =
      ground (
        arith,
        get-put built service s ys,
        string_eq.beq_iff service s,
        string_eq.beq_iff s service,
      )

  build-IsFit :
      (r : g.R) (service_ids rest : List String) (built : CascadeMap)
      → distinct service_ids ≡ true
      → IsFit service_ids built
      → (m : CascadeMap) × (build g r service_ids rest built ≡ ok m)
        × IsFit service_ids m
        × ((s : String) → (elem s rest || has built s) ≡ true → has m s ≡ true)
  unfolding build
  build-IsFit r service_ids [] built h fit = (built, refl, fit, λ s e. e)
  build-IsFit r service_ids (service ∷ rest) built h fit =
      let after = (draw g r service_ids service).0 in
      let drawn = draw-IsDrawn r service_ids service h in
      let more = put built service drawn.0 in
      let result =
        build-IsFit after service_ids rest more h
          (IsFit-put service_ids built service drawn.0 fit drawn.2) in
      (
        result.0,
        rw drawn.1 result.1,
        result.2,
        λ s e. result.3 s (kept service s rest built drawn.0 e),
      )

  -- For services with distinct names the construction raises nothing, and the map has an entry for
  -- each service, which names one to three dependents (none if the service is the only one): all of
  -- them services of the list, and never the service itself.
  pub build_cascade_map-IsDrawn :
      (r : g.R) (service_ids : List String)
      → distinct service_ids ≡ true
      → (m : CascadeMap) × (build_cascade_map g r service_ids ≡ ok m)
        × ((s : String)
            → elem s service_ids ≡ true
            → (ys : List String) × (get m s ≡ some ys) × IsDrawn service_ids s ys)
  unfolding build_cascade_map get
  build_cascade_map-IsDrawn r service_ids h =
      let result = build-IsFit r service_ids service_ids [] h (λ s ys e. absurd (ground arith)) in
      let entry : (s : String)
          → elem s service_ids ≡ true
          → (ys : List String) × (get result.0 s ≡ some ys) × IsDrawn service_ids s ys =
        λ s e. elim (Option-cases (get result.0 s)) [
          | inr (ys, found) ↦ (ys, found, result.2 s ys found)
          | inl absent ↦ let here = result.3 s (ground arith) in absurd (ground arith)
        ] in
      (result.0, result.1, entry)
