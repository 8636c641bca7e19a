-- ===== src/Base/Deque.antt =====
-- Python's `deque(maxlen=n)`: an append to a full one drops the oldest element.
use mathlib.Core.Path.{◌≡◌, refl, ap}
use mathlib.Core.Logic.{inl, inr}
use mathlib.Core.Bool.{true}
use mathlib.Core.List.{List, [], ◌∷◌, ◌++◌}
use Prim.Native.Nat.{ℕ, suc, ◌≤◌, min}
use native.Mathlib.Omega.{arith}
use distrosense.Base.Tests.{if◌then◌else◌, ltb, Bool-cases}
use distrosense.Base.Lists.{length, length-append}

module _ {ℓ} {A : Type ℓ} where
  -- the last n elements
  unfoldable pub keep_last : ℕ → List A → List A
  keep_last n [] = []
  keep_last n (x ∷ xs) = if ltb n (length (x ∷ xs)) then keep_last n xs else x ∷ xs

  -- d.append(x)
  unfoldable pub push : ℕ → List A → A → List A
  push n d x = keep_last n (d ++ x ∷ [])

  pub length-keep_last : (n : ℕ) (xs : List A) → length (keep_last n xs) ≡ min n (length xs)
  unfolding keep_last
  length-keep_last n [] = omega arith
  length-keep_last n (x ∷ xs) = elim (Bool-cases (ltb n (length (x ∷ xs)))) [
    | inl over ↦ rw over (ground (arith, length-keep_last n xs))
    | inr fits ↦ rw fits (ground arith)
  ]

  pub keep_last-split : (n : ℕ) (xs : List A) → (before : List A) × (xs ≡ before ++ keep_last n xs)
  unfolding keep_last
  keep_last-split n [] = ([], refl)
  keep_last-split n (x ∷ xs) = elim (Bool-cases (ltb n (length (x ∷ xs)))) [
    | inl over ↦ let (before, e) = keep_last-split n xs in rw over (x ∷ before, ap (◌∷◌ x) e)
    | inr fits ↦ rw fits ([], refl)
  ]

  pub keep_last-append :
      (n : ℕ) (xs ys : List A) → keep_last n (keep_last n xs ++ ys) ≡ keep_last n (xs ++ ys)
  unfolding keep_last
  keep_last-append n [] ys = refl
  keep_last-append n (x ∷ xs) ys = elim (Bool-cases (ltb n (length (x ∷ xs)))) [
    | inl over ↦
        let more : ltb n (suc (length (xs ++ ys))) ≡ true = ground (arith, length-append xs ys) in
        rw (over, more) (keep_last-append n xs ys)
    | inr fits ↦ rw fits refl
  ]

  pub keep_last-all : (n : ℕ) (xs : List A) → length xs ≤ n → keep_last n xs ≡ xs
  unfolding keep_last
  keep_last-all n [] h = refl
  keep_last-all n (x ∷ xs) h = ground arith

  pub keep_last-suffix :
      (n : ℕ) (before after : List A) → length after ≡ n → keep_last n (before ++ after) ≡ after
  unfolding keep_last
  keep_last-suffix n [] after e = keep_last-all n after (omega arith)
  keep_last-suffix n (x ∷ before) after e =
      let over : ltb n (suc (length (before ++ after))) ≡ true =
        ground (arith, length-append before after) in
      rw over (keep_last-suffix n before after e)
