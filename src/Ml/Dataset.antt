-- ===== src/Ml/Dataset.antt =====
-- ml_service/training/dataset.py: chronological_split and MetricWindowDataset. A series is the list of
-- its rows; numpy's arrays of a dataset are lists. Where a series is split is the parameter
-- `split_idx`, int(len * (1 - val_fraction)) in floats.
pub mod Windows
use distrosense.Base.{
  ℕ, zero, suc, ◌+◌, ◌-◌, Bool, true, false, List, [], ◌∷◌, ◌++◌, length, map, any, Option, none,
  some,
}

-- data[:n] and data[n:]
abbrev pub first {ℓ} : {A : Type ℓ} → ℕ → List A → List A
first zero xs = []
first (suc n) [] = []
first (suc n) (x ∷ xs) = x ∷ first n xs

abbrev pub skip {ℓ} : {A : Type ℓ} → ℕ → List A → List A
skip zero xs = xs
skip (suc n) [] = []
skip (suc n) (x ∷ xs) = skip n xs

-- xs[i:i + n]
abbrev pub slice {ℓ} : {A : Type ℓ} → ℕ → ℕ → List A → List A
slice i n xs = first n (skip i xs)

unfoldable pub chronological_split :
    {Row : Type 0} → (ℕ → ℕ) → List (List Row) → List (List Row) × List (List Row)
chronological_split split_idx [] = ([], [])
chronological_split split_idx (series ∷ service_list) =
    let (train, val) = chronological_split split_idx service_list in
    let at = split_idx (length series) in (first at series ∷ train, skip at series ∷ val)

-- for i in range(i, i + n): the slices of that length
unfoldable pub slices {ℓ} : {A : Type ℓ} → ℕ → ℕ → ℕ → List A → List (List A)
slices seq_len i zero series = []
slices seq_len i (suc n) series = slice i seq_len series ∷ slices seq_len (suc i) n series

-- the windows of one service: range(len(data) - seq_len) is empty where that is negative
unfoldable pub windows_of {ℓ} : {A : Type ℓ} → ℕ → List A → List (List A)
unfolding slices
windows_of seq_len series = slices seq_len 0 (length series - seq_len) series

-- the windows over all services, without and with the labels of the mask
unfoldable pub windows : {Row : Type 0} → ℕ → List (List Row) → List (List Row)
unfolding windows_of
windows seq_len [] = []
windows seq_len (series ∷ service_list) = windows_of seq_len series ++ windows seq_len service_list

-- the labels of one service, at the places of its windows
unfoldable pub labels_of : {Row : Type 0} → ℕ → List Row → List Bool → List Bool
unfolding slices
labels_of seq_len series mask = map (any (λ b. b)) (slices seq_len 0 (length series - seq_len) mask)

unfoldable pub labels : {Row : Type 0} → ℕ → List (List Row × List Bool) → List Bool
unfolding labels_of
labels seq_len [] = []
labels seq_len ((series, mask) ∷ service_list) =
    labels_of seq_len series mask ++ labels seq_len service_list
