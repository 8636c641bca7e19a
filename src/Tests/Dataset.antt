-- ===== src/Tests/Dataset.antt =====
-- Two services, of six rows and of three, split two rows before the end.
use distrosense.Base.{ℕ, ◌-◌, List, [], ◌∷◌, ◌≡◌, refl, All}
use distrosense.Ml.Dataset.{chronological_split, windows}
use distrosense.Ml.Dataset.Windows.{rejoined, IsWindow, split-IsWindow}

abbrev series : List (List ℕ)
series = (1 ∷ 2 ∷ 3 ∷ 4 ∷ 5 ∷ 6 ∷ []) ∷ (7 ∷ 8 ∷ 9 ∷ []) ∷ []

abbrev before_last_two : ℕ → ℕ
before_last_two n = n - 2

split-IsWindow_example :
    (rejoined
        (chronological_split before_last_two series).0
        (chronological_split before_last_two series).1
      ≡ series)
    × All
        (IsWindow 2 (chronological_split before_last_two series).0)
        (windows 2 (chronological_split before_last_two series).0)
split-IsWindow_example = split-IsWindow before_last_two 2 series

-- the last stretch of the training part, 3 and 4, is no window
training_windows :
    windows 2 (chronological_split before_last_two series).0 ≡ (1 ∷ 2 ∷ []) ∷ (2 ∷ 3 ∷ []) ∷ []
unfolding windows chronological_split
training_windows = refl
