-- ===== src/Flink/Zscore/Once.antt =====
-- Which event a window judges.
use distrosense.Base.{
  ℕ, ◌-◌, ◌*◌, ◌≤◌, ◌<◌, ◌≡◌, Bool, true, false, some, List, [], ◌∷◌, length, All, ltb,
  if◌then◌else◌, ok, arith, Bool-cases, inl, inr, subst, sym,
}
use distrosense.Flink.Zscore.{
  Numbers, Event, ZScoreTrigger, Candidate, latest, judge, evaluate, evaluate_window,
  slide_interval,
}

module _ (n : Numbers) where
  later-le :
      (best e : Event n)
      → (best.timestamp ≤ (if ltb best.timestamp e.timestamp then e else best).timestamp)
        × (e.timestamp ≤ (if ltb best.timestamp e.timestamp then e else best).timestamp)
  later-le best e = elim (Bool-cases (ltb best.timestamp e.timestamp)) [
    | inl h ↦ rw h (ground arith)
    | inr h ↦ rw h (ground arith)
  ]

  latest-greatest :
      (best : Event n) (events : List (Event n))
      → (best.timestamp ≤ (latest n best events).timestamp)
        × All (λ e. e.timestamp ≤ (latest n best events).timestamp) events
  unfolding latest
  latest-greatest best [] = (omega arith, tt)
  latest-greatest best (e ∷ events) =
      let (h, rest) = latest-greatest (if ltb best.timestamp e.timestamp then e else best) events in
      (omega (arith, h, later-le best e), (omega (arith, h, later-le best e), rest))

  All-if : (P : Event n → Type 0) (b : Bool) (x y : Event n) → P x → P y → P (if b then x else y)
  All-if P true x y p q = p
  All-if P false x y p q = q

  All-latest :
      (P : Event n → Type 0) (best : Event n) (events : List (Event n))
      → P best
      → All P events
      → P (latest n best events)
  unfolding latest
  All-latest P best [] p h = p
  All-latest P best (e ∷ events) p h =
      All-latest P (if ltb best.timestamp e.timestamp then e else best) events
        (All-if P (ltb best.timestamp e.timestamp) e best h.0 p) h.1

  -- The candidate's event has what all events have, is among the latest, and is new.
  pub record IsJudged (t : ZScoreTrigger n) (events : List (Event n)) (new_from_ms : ℕ)
      (c : Candidate n) : Type 1 where
    pub enough : t.min_events ≤ length events
    pub among : (P : Event n → Type 0) → All P events → P c.event
    pub last : All (λ e. e.timestamp ≤ c.event.timestamp) events
    pub recent : new_from_ms ≤ c.event.timestamp

  event-judge :
      (t : ZScoreTrigger n) (events : List (Event n)) (e : Event n) (c : Candidate n)
      → judge n t events e ≡ some c
      → c.event ≡ e
  unfolding judge
  event-judge t events e c h = ground arith

  -- An anomaly is found only in a window of enough events, for one of its events that none of the
  -- others is later than, and that is not from before the slide.
  pub evaluate-IsJudged :
      (t : ZScoreTrigger n) (events : List (Event n)) (new_from_ms : ℕ) (c : Candidate n)
      → evaluate n t events new_from_ms ≡ ok (some c)
      → IsJudged t events new_from_ms c
  unfolding evaluate
  evaluate-IsJudged t [] new_from_ms c h = ground arith
  evaluate-IsJudged t (e ∷ events) new_from_ms c h =
      let all = e ∷ events in
      let top = latest n e events in
      let found : judge n t all top ≡ some c = ground arith in
      let same : c.event ≡ top = event-judge t all top c found in
      let (h₀, rest) = latest-greatest e events in
      record {
        enough = ground arith;
        among = λ P p. subst P (sym same) (All-latest P e events p.0 p.1);
        last = subst (λ x. All (λ y. y.timestamp ≤ x.timestamp) all) (sym same) (h₀, rest);
        recent = subst (λ x. new_from_ms ≤ x.timestamp) (sym same) (ground arith);
      }

  -- Windows end at multiples of the slide and hold events from before their end. If two windows find
  -- an anomaly for the same instant of their service, they are the same window: no event is judged
  -- an anomaly twice.
  pub evaluate_window-once :
      (t : ZScoreTrigger n) (j k : ℕ) (events others : List (Event n)) (c d : Candidate n)
      → All (λ e. e.timestamp < j * slide_interval) events
      → All (λ e. e.timestamp < k * slide_interval) others
      → evaluate_window n t events (j * slide_interval) ≡ ok (some c)
      → evaluate_window n t others (k * slide_interval) ≡ ok (some d)
      → c.event.timestamp ≡ d.event.timestamp
      → j ≡ k
  evaluate_window-once t j k events others c d before_j before_k found_c found_d same =
      let p = evaluate-IsJudged t events (j * slide_interval - slide_interval) c found_c in
      let q = evaluate-IsJudged t others (k * slide_interval - slide_interval) d found_d in
      let under_j : c.event.timestamp < j * slide_interval = p.among _ before_j in
      let under_k : d.event.timestamp < k * slide_interval = q.among _ before_k in
      omega (arith, under_j, under_k, p.recent, q.recent, same)
