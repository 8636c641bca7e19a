-- ===== src/Simulator/Cascade/Weight.antt =====
-- How much of a cascade map (simulator/services/cascade_map.py) the traversal has before it.
use distrosense.Base.Dict.{get}
use distrosense.Base.{
  ap, ◌==◌, inr, inl, false, true, Bool-cases, select, map, Bool, ◌≤◌, ℕ, ◌+◌, String, List, [],
  ◌∷◌, length, elem, if◌then◌else◌, string_eq, arith, ◌≡◌, refl,
}
use distrosense.Simulator.Cascade.{get, dependents_of, CascadeMap, edges}

-- the dependents of the services that are not visited
unfoldable pub weight : List String → CascadeMap → ℕ
weight visited [] = 0
weight visited ((s, d) ∷ rest) =
    let others = weight visited rest in if elem s visited then others else length d + others

pub weight-empty : (c : CascadeMap) → weight [] c ≡ edges c
unfolding weight edges
weight-empty [] = refl
weight-empty ((s, d) ∷ rest) = omega (arith, weight-empty rest)

weight_mono :
    (s : String) (visited : List String) (c : CascadeMap)
    → weight (s ∷ visited) c ≤ weight visited c
unfolding weight
weight_mono s visited [] = omega arith
weight_mono s visited ((k, d) ∷ rest) = ground (arith, weight_mono s visited rest)

dependents_of-here :
    (k s : String) (d : List String) (rest : CascadeMap)
    → (k == s) ≡ true
    → dependents_of ((k, d) ∷ rest) s ≡ d
unfolding dependents_of get
dependents_of-here k s d rest same = ground arith

dependents_of-there :
    (k s : String) (d : List String) (rest : CascadeMap)
    → (k == s) ≡ false
    → dependents_of ((k, d) ∷ rest) s ≡ dependents_of rest s
unfolding dependents_of get
dependents_of-there k s d rest other = ground arith

-- a visit takes the dependents of the service out of the weight
pub weight-visit :
    (s : String) (visited : List String) (c : CascadeMap)
    → elem s visited ≡ false
    → length (dependents_of c s) + weight (s ∷ visited) c ≤ weight visited c
unfolding weight dependents_of get
weight-visit s visited [] h = omega arith
weight-visit s visited ((k, d) ∷ rest) h = elim (Bool-cases (k == s)) [
  | inl same ↦
      let k_is_s : k ≡ s = (string_eq.beq_iff k s).0 same in
      let unseen : elem k visited ≡ false = rw k_is_s h in
      let found = ap length (dependents_of-here k s d rest same) in
      rw (same, unseen) (omega (arith, weight_mono s visited rest, found))
  | inr other ↦
      let found = ap length (dependents_of-there k s d rest other) in
      rw other (ground (arith, weight-visit s visited rest h, found))
]

pub length-select : {A : Type 0} (p : A → Bool) (xs : List A) → length (select p xs) ≤ length xs
length-select p [] = omega arith
length-select p (x ∷ xs) = ground (arith, length-select p xs)

pub length-map : {A B : Type 0} (f : A → B) (xs : List A) → length (map f xs) ≡ length xs
length-map f [] = refl
length-map f (x ∷ xs) = omega (arith, length-map f xs)
