-- ===== src/Base/Dict.antt =====
-- Python's `dict`: an association list in insertion order. An update keeps the place of its key.
use mathlib.Core.Path.{◌≡◌, refl}
use mathlib.Core.Bool.{Bool, true, false, ◌||◌}
use mathlib.Core.List.{List, [], ◌∷◌}
use mathlib.Core.Option.{Option, none, some}
use native.Mathlib.Omega.{arith}
use distrosense.Base.Tests.{if◌then◌else◌}
use distrosense.Base.Equality.{Eq, ◌==◌, ==_refl}
use distrosense.Base.Lists.{elem, distinct, All}

abbrev pub Dict {ℓ κ} : Type ℓ → Type κ → Type (ℓ ⊔ κ)
Dict K V = List (K × V)

module _ {ℓ κ} {K : Type ℓ} {V : Type κ} ⦃e : Eq K⦄ where
  -- d.get(k)
  unfoldable pub get : Dict K V → K → Option V
  get [] k = none
  get ((j, v) ∷ d) k = if j == k then some v else get d k

  -- d[k] = v
  unfoldable pub put : Dict K V → K → V → Dict K V
  put [] k v = (k, v) ∷ []
  put ((j, w) ∷ d) k v = if j == k then (j, v) ∷ d else (j, w) ∷ put d k v

  -- del d[k], d.pop(k, None): a key stands in the list once, but all entries are dropped
  unfoldable pub del : Dict K V → K → Dict K V
  del [] k = []
  del ((j, w) ∷ d) k = let rest = del d k in if j == k then rest else (j, w) ∷ rest

  -- k in d
  abbrev pub has : Dict K V → K → Bool
  has d k = elim (get d k) [ none ↦ false | some _ ↦ true ]

  pub get-put :
      (d : Dict K V) (k j : K) (v : V) → get (put d k v) j ≡ (if k == j then some v else get d j)
  unfolding get put
  get-put [] k j v = refl
  get-put ((i, w) ∷ d) k j v =
      ground (arith, e.beq_iff i k, e.beq_iff i j, e.beq_iff k j, get-put d k j v)

  pub get-del : (d : Dict K V) (k j : K) → get (del d k) j ≡ (if k == j then none else get d j)
  unfolding get del
  get-del [] k j = ground arith
  get-del ((i, w) ∷ d) k j =
      ground (arith, e.beq_iff i k, e.beq_iff i j, e.beq_iff k j, get-del d k j)

  pub ruleset dict_laws = (get-put, get-del)

module _ {ℓ κ} {K : Type ℓ} {V : Type κ} ⦃e : Eq K⦄ where
  abbrev pub keys : Dict K V → List K
  keys [] = []
  keys ((k, v) ∷ d) = k ∷ keys d

  pub elem-put :
      (d : Dict K V) (k j : K) (v : V) → elem j (keys (put d k v)) ≡ (elem j (keys d) || j == k)
  unfolding put
  elem-put [] k j v = ground arith
  elem-put ((i, w) ∷ d) k j v =
      ground (arith, elem-put d k j v, e.beq_iff i k, e.beq_iff j i, e.beq_iff j k)

  -- writing keeps every key once
  pub distinct-put :
      (d : Dict K V) (k : K) (v : V) → distinct (keys d) ≡ true → distinct (keys (put d k v)) ≡ true
  unfolding put
  distinct-put [] k v h = refl
  distinct-put ((i, w) ∷ d) k v h =
      ground (arith, distinct-put d k v, elem-put d k i v, e.beq_iff i k)

  elem-del : (d : Dict K V) (k j : K) → elem j (keys d) ≡ false → elem j (keys (del d k)) ≡ false
  unfolding del
  elem-del [] k j h = refl
  elem-del ((i, w) ∷ d) k j h = ground (arith, elem-del d k j)

  pub distinct-del :
      (d : Dict K V) (k : K) → distinct (keys d) ≡ true → distinct (keys (del d k)) ≡ true
  unfolding del
  distinct-del [] k h = refl
  distinct-del ((i, w) ∷ d) k h = ground (arith, distinct-del d k, elem-del d k i)

  All-get_other :
      (i : K) (u : V) (d l : Dict K V)
      → elem i (keys l) ≡ false
      → All (λ p. get d p.0 ≡ some p.1) l
      → All (λ p. get ((i, u) ∷ d) p.0 ≡ some p.1) l
  unfolding get
  All-get_other i u d [] h a = tt
  All-get_other i u d ((j, v) ∷ l) h a = (ground arith, All-get_other i u d l (ground arith) a.1)

  -- where every key stands once, each entry is what its key gives
  pub All-get : (d : Dict K V) → distinct (keys d) ≡ true → All (λ p. get d p.0 ≡ some p.1) d
  unfolding get
  All-get [] h = tt
  All-get ((i, u) ∷ d) h =
      (rw (==_refl i) refl, All-get_other i u d d (ground arith) (All-get d (ground arith)))
