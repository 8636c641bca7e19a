-- ===== src/Tests/Ml.antt =====
-- A debouncer over errors in hundredths, with the threshold 0.11.
use distrosense.Base.{ℕ, ◌≡◌, refl, Bool, true, [], ◌∷◌, ◌++◌, ltb, ◌↔◌}
use distrosense.Base.Deque.{push, keep_last}
use distrosense.Ml.Debouncer.{init, check}
use distrosense.Ml.Debouncer.Persistence.{run, Persists, check-Persists}

abbrev above : ℕ → ℕ → Bool
above e threshold = ltb threshold e

check-Persists_example :
    ((check ℕ above (run ℕ above (init ℕ above 11 3) (5 ∷ 20 ∷ 30 ∷ [])) 12).1 ≡ true)
    ↔ Persists ℕ above 11 3 ((5 ∷ 20 ∷ 30 ∷ []) ++ 12 ∷ [])
check-Persists_example = check-Persists ℕ above 11 3 (5 ∷ 20 ∷ 30 ∷ []) 12

confirmed : (check ℕ above (run ℕ above (init ℕ above 11 3) (5 ∷ 20 ∷ 30 ∷ [])) 12).1 ≡ true
unfolding check run init push keep_last
confirmed = refl
