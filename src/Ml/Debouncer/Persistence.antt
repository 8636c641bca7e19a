-- ===== src/Ml/Debouncer/Persistence.antt =====
-- What a confirmed anomaly means.
use mathlib.Core.List.{map-append}
use distrosense.Base.{
  ℕ, suc, ◌≡◌, refl, sym, ap, ◌∙◌, Bool, true, List, [], ◌∷◌, ◌++◌, map, length, all, All, ◌&&◌,
  nat_eq, ◌==◌, arith, ◌↔◌, append_assoc, append-nil, Bool-cases, inl, inr, ltb, nat_beq_iff,
}
use distrosense.Base.Deque.{push, keep_last, keep_last-split, keep_last-append, keep_last-suffix}
use distrosense.Ml.Debouncer.{AnomalyDebouncer, init, check}

module _ (Float : Type 0) (is_above : Float → Float → Bool) where
  -- the debouncer after a series of windows
  unfoldable pub run :
      AnomalyDebouncer Float is_above → List Float → AnomalyDebouncer Float is_above
  run d [] = d
  run d (e ∷ es) = run (check Float is_above d e).0 es

  abbrev pub flags : Float → List Float → List Bool
  flags threshold = map (λ e. is_above e threshold)

  length-flags : (threshold : Float) (es : List Float) → length (flags threshold es) ≡ length es
  length-flags threshold [] = refl
  length-flags threshold (e ∷ es) = ap suc (length-flags threshold es)

  flags-keep_last :
      (n : ℕ) (threshold : Float) (es : List Float)
      → keep_last n (flags threshold es) ≡ flags threshold (keep_last n es)
  unfolding keep_last
  flags-keep_last n threshold [] = refl
  flags-keep_last n threshold (e ∷ es) =
      rw (length-flags threshold es) (elim (Bool-cases (ltb n (suc (length es)))) [
        | inl over ↦ rw over (flags-keep_last n threshold es)
        | inr fits ↦ rw fits refl
      ])

  abbrev at : Float → ℕ → List Bool → AnomalyDebouncer Float is_above
  at threshold n recent = record {
    threshold = threshold;
    persistence_windows = n;
    recent_flags = recent;
  }

  run-flags :
      (threshold : Float) (n : ℕ) (seen : List Bool) (es : List Float)
      → run (at threshold n (keep_last n seen)) es
        ≡ at threshold n (keep_last n (seen ++ flags threshold es))
  unfolding run check push
  run-flags threshold n seen [] = rw (append-nil seen) refl
  run-flags threshold n seen (e ∷ es) =
      let x = is_above e threshold in
      rw (keep_last-append n seen (x ∷ [])) (
        run-flags threshold n (seen ++ x ∷ []) es
        ∙ rw (append_assoc seen (x ∷ []) (flags threshold es)) refl)

  check-flags :
      (threshold : Float) (n : ℕ) (es : List Float) (e : Float)
      → (check Float is_above (run (init Float is_above threshold n) es) e).1 ≡ (
          (length (keep_last n (es ++ e ∷ [])) == n)
          && all (λ flag. flag) (flags threshold (keep_last n (es ++ e ∷ []))))
  unfolding check init push keep_last
  check-flags threshold n es e =
      let last = keep_last n (es ++ e ∷ []) in
      let kept : keep_last n (keep_last n (flags threshold es) ++ is_above e threshold ∷ [])
          ≡ flags threshold last =
        keep_last-append n (flags threshold es) (is_above e threshold ∷ [])
        ∙ ap (keep_last n) (sym (map-append (λ x. is_above x threshold) es (e ∷ [])))
        ∙ flags-keep_last n threshold (es ++ e ∷ []) in
      rw (run-flags threshold n [] es, kept, length-flags threshold last) refl

  all_above :
      (threshold : Float) (es : List Float)
      → (all (λ flag. flag) (flags threshold es) ≡ true) ↔ All (λ e. is_above e threshold ≡ true) es
  all_above threshold [] = (λ _. tt, λ _. refl)
  all_above threshold (e ∷ es) =
      let rest = all_above threshold es in
      (λ h. (ground arith, rest.0 (ground arith)), λ h. ground (arith, rest.1 h.1, h.0))

  -- The windows since the debouncer was made or reset, the last one at the end, end with
  -- `persistence_windows` ones that are all above the threshold.
  pub record Persists (threshold : Float) (n : ℕ) (es : List Float) : Type 0 where
    pub before : List Float
    pub after : List Float
    pub split : es ≡ before ++ after
    pub many : length after ≡ n
    pub above : All (λ e. is_above e threshold ≡ true) after

  -- A check confirms an anomaly exactly when the windows since the debouncer was made, this one
  -- included, end with `persistence_windows` ones that are all above the threshold.
  pub check-Persists :
      (threshold : Float) (n : ℕ) (es : List Float) (e : Float)
      → ((check Float is_above (run (init Float is_above threshold n) es) e).1 ≡ true)
        ↔ Persists threshold n (es ++ e ∷ [])
  check-Persists threshold n es e =
      let all_seen = es ++ e ∷ [] in
      let told = check-flags threshold n es e in
      (
        λ h.
            let both = rw told at h in
            let (before, split) = keep_last-split n all_seen in
            record {
              before = before;
              after = keep_last n all_seen;
              split = split;
              many = (nat_beq_iff (length (keep_last n all_seen)) n).0 (ground arith);
              above = (all_above threshold (keep_last n all_seen)).0 (ground arith);
            },
        λ p.
            let kept : keep_last n all_seen ≡ p.after =
              ap (keep_last n) p.split ∙ keep_last-suffix n p.before p.after p.many in
            told
            ∙ rw (kept, p.many, (all_above threshold p.after).1 p.above)
                (ground (arith, nat_beq_iff n n)),
      )
