-- ===== src/Ml/Dataset/Windows.antt =====
-- The windows that ml_service/training/dataset.py trains on.
use distrosense.Base.{
  inr, leb→le, inl, subst, leb, append_assoc, Bool-cases, ℕ, zero, suc, ◌+◌, ◌-◌, ◌≤◌, List, [],
  ◌∷◌, ◌++◌, length, arith, ◌≡◌, refl, ap, All, All-append, sym, ◌∙◌, All-map,
}
use distrosense.Ml.Dataset.{first, skip, slice, chronological_split, slices, windows_of, windows}

module _ {Row : Type 0} where
  -- xs is a stretch of ys
  pub IsStretch : List Row → List Row → Type 0
  IsStretch xs ys = (before : List Row) × (after : List Row) × (ys ≡ before ++ xs ++ after)

  first-skip : (n : ℕ) (xs : List Row) → first n xs ++ skip n xs ≡ xs
  first-skip zero xs = refl
  first-skip (suc n) [] = refl
  first-skip (suc n) (x ∷ xs) = ap (◌∷◌ x) (first-skip n xs)

  length-skip : (n : ℕ) (xs : List Row) → length (skip n xs) ≡ length xs - n
  length-skip zero xs = omega arith
  length-skip (suc n) [] = omega arith
  length-skip (suc n) (x ∷ xs) = omega (arith, length-skip n xs)

  length-first : (n : ℕ) (xs : List Row) → n ≤ length xs → length (first n xs) ≡ n
  length-first zero xs h = refl
  length-first (suc n) [] h = omega arith
  length-first (suc n) (x ∷ xs) h = omega (arith, length-first n xs (omega arith))

  slice-IsStretch : (i n : ℕ) (series : List Row) → IsStretch (slice i n series) series
  unfolding IsStretch
  slice-IsStretch i n series = (first i series, skip n (skip i series), sym parts)
    where
      parts : first i series ++ slice i n series ++ skip n (skip i series) ≡ series
      parts =
          append_assoc (first i series) (slice i n series) (skip n (skip i series))
          ∙ ap (λ x. first i series ++ x) (first-skip n (skip i series))
          ∙ first-skip i series

  -- a window is a stretch of the rows of one service in the list, of the length asked for
  pub IsWindow : ℕ → List (List Row) → List Row → Type 0
  IsWindow seq_len service_list w =
      (before : List (List Row)) × (series : List Row) × (after : List (List Row)) × (service_list
        ≡ before ++ series ∷ after)
      × IsStretch w series
      × (length w ≡ seq_len)

  slices-IsStretch :
      (seq_len i n : ℕ) (series : List Row)
      → i + n + seq_len ≤ length series
      → All (λ w. IsStretch w series × (length w ≡ seq_len)) (slices seq_len i n series)
  unfolding slices
  slices-IsStretch seq_len i zero series h = tt
  slices-IsStretch seq_len i (suc n) series h = (
    (
      slice-IsStretch i seq_len series,
      length-first seq_len (skip i series) (omega (arith, length-skip i series)),
    ),
    slices-IsStretch seq_len (suc i) n series (omega arith),
  )

  windows_of-IsStretch :
      (seq_len : ℕ) (series : List Row)
      → All (λ w. IsStretch w series × (length w ≡ seq_len)) (windows_of seq_len series)
  unfolding windows_of slices
  windows_of-IsStretch seq_len series = elim (Bool-cases (leb seq_len (length series))) [
    | inl long ↦
        slices-IsStretch seq_len 0 (length series - seq_len) series
          (omega (arith, leb→le seq_len (length series) long))
    | inr short ↦ let none_left : length series - seq_len ≡ 0 = ground arith in rw none_left tt
  ]

  -- the services before do not matter
  windows-IsWindow :
      (seq_len : ℕ) (past service_list : List (List Row))
      → All (IsWindow seq_len (past ++ service_list)) (windows seq_len service_list)
  unfolding windows IsWindow
  windows-IsWindow seq_len past [] = tt
  windows-IsWindow seq_len past (series ∷ rest) =
      let step = append_assoc past (series ∷ []) rest in
      All-append _ (windows_of seq_len series) (windows seq_len rest)
        (All-map (λ w h. (past, series, rest, refl, h.0, h.1)) (windows_of seq_len series)
          (windows_of-IsStretch seq_len series))
        (subst (λ l. All (IsWindow seq_len l) (windows seq_len rest)) step
          (windows-IsWindow seq_len (past ++ series ∷ []) rest))

  -- the two parts of every service, put together
  unfoldable pub rejoined : List (List Row) → List (List Row) → List (List Row)
  rejoined (a ∷ train) (b ∷ val) = (a ++ b) ∷ rejoined train val
  rejoined _ _ = []

  rejoined-split :
      (split_idx : ℕ → ℕ) (service_list : List (List Row))
      → rejoined
          (chronological_split split_idx service_list).0
          (chronological_split split_idx service_list).1
        ≡ service_list
  unfolding chronological_split rejoined
  rejoined-split split_idx [] = refl
  rejoined-split split_idx (series ∷ rest) =
      let at = split_idx (length series) in
      ap
        (λ x.
          x
          ∷ rejoined (chronological_split split_idx rest).0 (chronological_split split_idx rest).1)
        (first-skip at series)
      ∙ ap (◌∷◌ series) (rejoined-split split_idx rest)

  -- The split loses no row and moves none: each service's two parts make up its series, the training
  -- part first. And every window of the training data is a stretch of rows of one service's training
  -- part, of the length asked for, so that no window crosses the split or two services.
  pub split-IsWindow :
      (split_idx : ℕ → ℕ) (seq_len : ℕ) (service_list : List (List Row))
      → (rejoined
            (chronological_split split_idx service_list).0
            (chronological_split split_idx service_list).1
          ≡ service_list)
        × All
            (IsWindow seq_len (chronological_split split_idx service_list).0)
            (windows seq_len (chronological_split split_idx service_list).0)
  split-IsWindow split_idx seq_len service_list = (
    rejoined-split split_idx service_list,
    windows-IsWindow seq_len [] (chronological_split split_idx service_list).0,
  )
