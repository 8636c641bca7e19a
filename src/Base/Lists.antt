-- ===== src/Base/Lists.antt =====
-- Lists measured by native numbers, and Boolean searches through them.
use Prim.Native.Nat.{ℕ, suc, ◌+◌}
use mathlib.Core.Path.{◌≡◌, refl, subst, sym}
use mathlib.Core.Logic.{◌⊎◌, inl, inr}
use mathlib.Core.Bool.{Bool, true, false, ◌&&◌, ◌||◌, not}
use mathlib.Core.List.{List, [], ◌∷◌, ◌++◌}
use native.Mathlib.Omega.{arith}
use distrosense.Base.Tests.{if◌then◌else◌, Bool-cases}
use distrosense.Base.Equality.{Eq, ◌==◌}

module _ {ℓ} {A : Type ℓ} where
  abbrev pub length : List A → ℕ
  length [] = 0
  length (x ∷ xs) = suc (length xs)

  pub length-append : (xs ys : List A) → length (xs ++ ys) ≡ length xs + length ys
  length-append [] ys = omega arith
  length-append (x ∷ xs) ys = omega (arith, length-append xs ys)

  -- the comprehension [x for x in xs if p(x)]
  abbrev pub select : (A → Bool) → List A → List A
  select p [] = []
  select p (x ∷ xs) = let rest = select p xs in if p x then x ∷ rest else rest

  abbrev pub any : (A → Bool) → List A → Bool
  any p [] = false
  any p (x ∷ xs) = p x || any p xs

  abbrev pub all : (A → Bool) → List A → Bool
  all p [] = true
  all p (x ∷ xs) = p x && all p xs

  pub List-cases : (xs : List A) → (xs ≡ []) ⊎ ((x : A) × (rest : List A) × (xs ≡ x ∷ rest))
  List-cases [] = inl refl
  List-cases (x ∷ xs) = inr (x, xs, refl)

  -- A predicate that every element has, by recursion.
  abbrev pub All {κ} : (A → Type κ) → List A → Type κ
  All P [] = Unit
  All P (x ∷ xs) = P x × All P xs

  pub All-append {κ} : (P : A → Type κ) (l m : List A) → All P l → All P m → All P (l ++ m)
  All-append P [] m first second = second
  All-append P (a ∷ l) m first second = (first.0, All-append P l m first.1 second)

  pub All-append_left {κ} : (P : A → Type κ) (xs ys : List A) → All P (xs ++ ys) → All P xs
  All-append_left P [] ys h = tt
  All-append_left P (x ∷ xs) ys h = (h.0, All-append_left P xs ys h.1)

  pub All-append_right {κ} : (P : A → Type κ) (xs ys : List A) → All P (xs ++ ys) → All P ys
  All-append_right P [] ys h = h
  All-append_right P (x ∷ xs) ys h = All-append_right P xs ys h.1

  pub All-map {κ μ} :
      {P : A → Type κ} {Q : A → Type μ} (f : (a : A) → P a → Q a) (xs : List A)
      → All P xs
      → All Q xs
  All-map f [] h = tt
  All-map f (x ∷ xs) h = (f x h.0, All-map f xs h.1)

module _ {ℓ} {A : Type ℓ} ⦃e : Eq A⦄ where
  -- `a in xs`
  abbrev pub elem : A → List A → Bool
  elem a [] = false
  elem a (x ∷ xs) = a == x || elem a xs

  -- each element once
  abbrev pub distinct : List A → Bool
  distinct [] = true
  distinct (x ∷ xs) = not (elem x xs) && distinct xs

  pub elem-append : (a : A) (xs ys : List A) → elem a (xs ++ ys) ≡ (elem a xs || elem a ys)
  elem-append a [] ys = refl
  elem-append a (x ∷ xs) ys = ground (arith, elem-append a xs ys)

  pub distinct-concat :
      (a : A) (xs : List A)
      → distinct xs ≡ true
      → elem a xs ≡ false
      → distinct (xs ++ a ∷ []) ≡ true
  distinct-concat a [] d n = refl
  distinct-concat a (x ∷ xs) d n =
      ground (arith, distinct-concat a xs, elem-append x xs (a ∷ []), e.beq_iff a x, e.beq_iff x a)

  pub elem-select : (p : A → Bool) (a : A) (l : List A) → elem a (select p l) ≡ (elem a l && p a)
  elem-select p a [] = refl
  elem-select p a (x ∷ l) = elim (Bool-cases (a == x)) [
    | inl same ↦
        subst (λ y. elem a (select p (y ∷ l)) ≡ (elem a (y ∷ l) && p a)) ((e.beq_iff a x).0 same)
          (ground (arith, elem-select p a l, e.beq_iff a a))
    | inr other ↦ ground (arith, elem-select p a l)
  ]

  pub All-elem {κ} : (P : A → Type κ) (a : A) (l : List A) → All P l → elem a l ≡ true → P a
  All-elem P a [] h m = cc
  All-elem P a (x ∷ l) h m = elim (Bool-cases (a == x)) [
    | inl same ↦ subst P (sym ((e.beq_iff a x).0 same)) h.0
    | inr other ↦ All-elem P a l h.1 (ground arith)
  ]
