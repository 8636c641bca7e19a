-- ===== src/Correlation/Clusterer/Lists.antt =====
-- Lists of clusters with distinct identities.
use distrosense.Base.{
  ==_refl, ℕ, ◌≡◌, refl, Bool, true, false, List, [], ◌∷◌, arith, elem, nat_eq, nat_beq_iff,
  distinct, select, ◌==◌, inl, inr, Bool-cases,
}
use distrosense.Correlation.Cluster.{Cluster}
use distrosense.Correlation.Clusterer.{remove, store}

-- the identities of the clusters of a list
abbrev pub ids : List Cluster → List ℕ
ids [] = []
ids (c ∷ l) = c.key ∷ ids l

-- The clusters of the first list stand in the second, in that order.
pub data Within : List Cluster → List Cluster → Type 0 where
  none : Within [] []
  skip : {xs ys : List Cluster} (c : Cluster) → Within xs ys → Within xs (c ∷ ys)
  keep : {xs ys : List Cluster} (c : Cluster) → Within xs ys → Within (c ∷ xs) (c ∷ ys)

pub Within-select : (p : Cluster → Bool) (l : List Cluster) → Within (select p l) l
Within-select p [] = none
Within-select p (c ∷ l) = elim (Bool-cases (p c)) [
  | inl e ↦ rw e (keep c (Within-select p l))
  | inr e ↦ rw e (skip c (Within-select p l))
]

pub Within-trans : {xs ys zs : List Cluster} → Within xs ys → Within ys zs → Within xs zs
Within-trans h none = h
Within-trans h (skip c k) = skip c (Within-trans h k)
Within-trans (skip c h) (keep _ k) = skip c (Within-trans h k)
Within-trans (keep c h) (keep _ k) = keep c (Within-trans h k)

pub elem-Within :
    {xs ys : List Cluster} (i : ℕ)
    → Within xs ys
    → elem i (ids ys) ≡ false
    → elem i (ids xs) ≡ false
elem-Within i none h = refl
elem-Within i (skip c w) h = elem-Within i w (ground arith)
elem-Within i (keep c w) h = ground (arith, elem-Within i w)

remove_absent : (i : ℕ) (l : List Cluster) → elem i (ids l) ≡ false → remove i l ≡ l
unfolding remove
remove_absent i [] h = refl
remove_absent i (c ∷ l) h = ground (arith, remove_absent i l)

elem-remove :
    (i j : ℕ) (l : List Cluster) → elem i (ids l) ≡ false → elem i (ids (remove j l)) ≡ false
unfolding remove
elem-remove i j [] h = refl
elem-remove i j (c ∷ l) h = ground (arith, elem-remove i j l)

pub distinct-remove :
    (i : ℕ) (l : List Cluster) → distinct (ids l) ≡ true → distinct (ids (remove i l)) ≡ true
unfolding remove
distinct-remove i [] h = refl
distinct-remove i (c ∷ l) h = ground (arith, distinct-remove i l, elem-remove c.key i l)

pub elem-ids_head :
    {c : Cluster} {xs ys : List Cluster} → Within (c ∷ xs) ys → elem c.key (ids ys) ≡ true
elem-ids_head (skip e w) = ground (arith, elem-ids_head w)
elem-ids_head (keep c w) = rw (==_refl c.key) refl

pub Within-tail : {c : Cluster} {xs ys : List Cluster} → Within (c ∷ xs) ys → Within xs ys
Within-tail (skip e w) = skip e (Within-tail w)
Within-tail (keep c w) = skip c w

-- What is left when the head of a part is removed from the whole still holds the rest of the part.
Within-remove :
    {c : Cluster} {xs ys : List Cluster}
    → Within (c ∷ xs) ys
    → distinct (ids ys) ≡ true
    → Within xs (remove c.key ys)
unfolding remove
Within-remove {c = c} (skip e w) d =
    let other : (e.key == c.key) ≡ false =
      ground (arith, elem-ids_head w, nat_beq_iff e.key c.key) in
    rw other (skip e (Within-remove w (ground arith)))
Within-remove (keep c w) d = rw (==_refl c.key) w

-- so too for the second of a part
pub Within-remove_second :
    {b c : Cluster} {xs ys : List Cluster}
    → Within (b ∷ c ∷ xs) ys
    → distinct (ids ys) ≡ true
    → Within (b ∷ xs) (remove c.key ys)
unfolding remove
Within-remove_second {c = c} (skip e w) d =
    let other : (e.key == c.key) ≡ false =
      ground (arith, elem-ids_head (Within-tail w), nat_beq_iff e.key c.key) in
    rw other (skip e (Within-remove_second w (ground arith)))
Within-remove_second {c = c} (keep b w) d =
    let other : (b.key == c.key) ≡ false =
      ground (arith, elem-ids_head w, nat_beq_iff b.key c.key) in
    rw other (keep b (Within-remove w (ground arith)))

pub ids-store : (t : Cluster) (l : List Cluster) → ids (store t l) ≡ ids l
unfolding store
ids-store t [] = refl
ids-store t (c ∷ l) = ground (arith, ids-store t l, nat_beq_iff c.key t.key)
