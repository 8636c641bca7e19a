-- ===== src/Tests/Cascade.antt =====
-- Three services in a circle, and a generator that always draws the first of what there is.
use distrosense.Base.{
  le→leb, ℕ, zero, suc, ◌≤◌, String, true, false, some, List, [], ◌∷◌, length, ◌≡◌, refl, ok,
  raised, string_eq, arith, leb, elem, if◌then◌else◌, distinct, All,
}
use distrosense.Base.Dict.{get}
use distrosense.Simulator.Cascade.{
  Random, CascadeMap, get_affected_services, dependents_of, build_cascade_map,
}
use distrosense.Simulator.Cascade.Affected.{IsNear, get_affected_services-IsNear}
use distrosense.Simulator.Cascade.Built.{IsRandom, IsDrawn, build_cascade_map-IsDrawn}

abbrev circle : CascadeMap
circle = ("a", "b" ∷ []) ∷ ("b", "c" ∷ "a" ∷ []) ∷ ("c", "a" ∷ "d" ∷ []) ∷ []

circle_affected : get_affected_services "a" circle 2 ≡ some ("b" ∷ "c" ∷ [])
unfolding get_affected_services dependents_of get
circle_affected = refl

get_affected_services-IsNear_example :
    (out : List String) × (get_affected_services "a" circle 2 ≡ some out)
    × All (IsNear "a" circle 2) out
    × (distinct out ≡ true)
    × (elem "a" out ≡ false)
get_affected_services-IsNear_example = get_affected_services-IsNear "a" circle 2

abbrev first : ℕ → List String → List String
first zero xs = []
first (suc k) [] = []
first (suc k) (x ∷ xs) = x ∷ first k xs

abbrev firsts : Random
firsts = record {
  R = Unit;
  randint = λ r a b. (r, a);
  sample = λ r xs k. (r, if leb k (length xs) then ok (first k xs) else raised);
}

length-first : (k : ℕ) (xs : List String) → k ≤ length xs → length (first k xs) ≡ k
length-first zero xs h = refl
length-first (suc k) [] h = omega arith
length-first (suc k) (x ∷ xs) h = omega (arith, length-first k xs (omega arith))

elem-first : (k : ℕ) (xs : List String) (y : String) → elem y (first k xs) ≡ true → elem y xs ≡ true
elem-first zero xs y e = ground arith
elem-first (suc k) [] y e = ground arith
elem-first (suc k) (x ∷ xs) y e = ground (arith, elem-first k xs y)

firsts_law : IsRandom firsts
firsts_law = record {
  randint_bounds = λ r a b h. omega arith;
  sample_returns = λ r xs k h.
      (first k xs, rw (le→leb k (length xs) h) refl, length-first k xs h, elem-first k xs);
}

build_cascade_map-IsDrawn_example :
    (m : CascadeMap) × (build_cascade_map firsts tt ("a" ∷ "b" ∷ "c" ∷ []) ≡ ok m)
    × ((s : String)
        → elem s ("a" ∷ "b" ∷ "c" ∷ []) ≡ true
        → (ys : List String) × (get m s ≡ some ys) × IsDrawn ("a" ∷ "b" ∷ "c" ∷ []) s ys)
build_cascade_map-IsDrawn_example =
    build_cascade_map-IsDrawn firsts firsts_law tt ("a" ∷ "b" ∷ "c" ∷ []) refl
