-- ===== src/Orchestrator/Filter/Cooldown.antt =====
-- What the cooldown promises over a whole run of the filter.
use distrosense.Base.{
  ℕ, ◌+◌, ◌≤◌, ◌<◌, ◌≡◌, refl, String, false, Option, none, some, List, [], ◌∷◌, arith, elem,
  Bool-cases, Option-cases, option_eq, string_eq, option_beq_iff, inl, inr, ◌⊎◌, if◌then◌else◌,
  ◌==◌,
}
use distrosense.Base.Dict.{get, get-put}
use distrosense.Orchestrator.Incident.{Incident, get_opt}
use distrosense.Orchestrator.Filter.{
  IncidentFilter, Verdict, act, init, severity_of, is_stale, is_cooling, judge, remember, check,
}

-- An incident that was acted on, with the clock's reading.
pub record Action : Type 0 where
  pub root : Option String
  pub time : ℕ
  pub severity : ℕ

-- The latest action on a root cause, of a history whose head is the latest.
abbrev pub latest : List Action → Option String → Option (ℕ × ℕ)
latest [] r = none
latest (a ∷ h) r = if a.root == r then some (a.time, a.severity) else latest h r

-- Between an action and the one before it on the same root cause lies the cooldown, or the severity
-- rose.
abbrev pub Apart : ℕ → Action → Option (ℕ × ℕ) → Type 0
Apart cooldown a none = Unit
Apart cooldown a (some (time, severity)) = (time + cooldown ≤ a.time) ⊎ (severity < a.severity)

abbrev pub Spaced : ℕ → List Action → Type 0
Spaced cooldown [] = Unit
Spaced cooldown (a ∷ h) = Apart cooldown a (latest h a.root) × Spaced cooldown h

-- The history that a check leaves.
note : Verdict → ℕ → Incident → List Action → List Action
note act now i h =
    (record { root = get_opt i.root_cause_service; time = now; severity = severity_of i }) ∷ h
note _ now i h = h

pub history : IncidentFilter → List Action → List (ℕ × Incident) → List Action
history f h [] = h
history f h ((now, i) ∷ rest) = history (check f now i).0 (note (check f now i).1 now i h) rest

pub record Tracks (cooldown : ℕ) (f : IncidentFilter) (h : List Action) : Type 0 where
  pub period : f.cooldown ≡ cooldown
  pub last_is : (r : Option String) → get f.last r ≡ latest h r
  pub spaced : Spaced cooldown h

Apart-not_cooling :
    (f : IncidentFilter) (now : ℕ) (i : Incident)
    → is_cooling f now i ≡ false
    → Apart f.cooldown
        (record { root = get_opt i.root_cause_service; time = now; severity = severity_of i })
        (get f.last (get_opt i.root_cause_service))
unfolding is_cooling
Apart-not_cooling f now i h = elim (Option-cases (get f.last (get_opt i.root_cause_service))) [
  | inl e ↦ rw e tt
  | inr (p, e) ↦ rw e (ground arith)
]

Tracks-judge :
    (cooldown : ℕ) (f : IncidentFilter) (h : List Action) (now : ℕ) (i : Incident)
    → Tracks cooldown f h
    → Tracks cooldown (judge f now i).0 (note (judge f now i).1 now i h)
unfolding judge note
Tracks-judge cooldown f h now i t = elim (Bool-cases (is_stale f now i)) [
  | inl old ↦ rw old t
  | inr fresh ↦ elim (Bool-cases (is_cooling f now i)) [
    | inl hot ↦ rw (fresh, hot) t
    | inr free ↦
        rw (fresh, free)
          (record {
            period = t.period;
            last_is = λ r. ground (
              arith,
              t.last_is r,
              get-put f.last (get_opt i.root_cause_service) r (now, severity_of i),
            );
            spaced = (
              rw (← t.period, ← t.last_is (get_opt i.root_cause_service))
                  (Apart-not_cooling f now i free),
              t.spaced,
            );
          })
  ]
]

Tracks-check :
    (cooldown : ℕ) (f : IncidentFilter) (h : List Action) (now : ℕ) (i : Incident)
    → Tracks cooldown f h
    → Tracks cooldown (check f now i).0 (note (check f now i).1 now i h)
unfolding check note remember
Tracks-check cooldown f h now i t = elim (Bool-cases (elem (get_opt i.incident_id) f.seen)) [
  | inl old ↦ rw old t
  | inr new ↦ rw new (
      Tracks-judge cooldown (remember f (get_opt i.incident_id)) h now i
        (record { period = t.period; last_is = t.last_is; spaced = t.spaced }))
]

history-Spaced :
    (cooldown : ℕ) (f : IncidentFilter) (h : List Action) (events : List (ℕ × Incident))
    → Tracks cooldown f h
    → Spaced cooldown (history f h events)
unfolding history
history-Spaced cooldown f h [] t = t.spaced
history-Spaced cooldown f h ((now, i) ∷ rest) t =
    history-Spaced cooldown (check f now i).0 (note (check f now i).1 now i h) rest
      (Tracks-check cooldown f h now i t)

-- Over every run of a new filter, whatever the clock reads: of two successive actions on one root
-- cause the later comes at least the cooldown after the earlier, or has a higher severity.
pub run-Spaced :
    (cooldown max_age max_seen : ℕ) (events : List (ℕ × Incident))
    → Spaced cooldown (history (init cooldown max_age max_seen) [] events)
unfolding init get
run-Spaced cooldown max_age max_seen events =
    history-Spaced cooldown (init cooldown max_age max_seen) [] events
      (record { period = refl; last_is = λ r. refl; spaced = tt })

-- An incident with a new id that is not stale and whose severity is above that of the last action
-- on its root cause is acted on, and becomes the last action on that root cause.
pub check-escalation :
    (f : IncidentFilter) (now acted_at severity : ℕ) (i : Incident)
    → elem (get_opt i.incident_id) f.seen ≡ false
    → is_stale f now i ≡ false
    → get f.last (get_opt i.root_cause_service) ≡ some (acted_at, severity)
    → severity < severity_of i
    → ((check f now i).1 ≡ act)
      × (get (check f now i).0.last (get_opt i.root_cause_service) ≡ some (now, severity_of i))
unfolding check judge remember is_stale is_cooling
check-escalation f now acted_at severity i new fresh last higher = ground (
  arith,
  get-put f.last (get_opt i.root_cause_service) (get_opt i.root_cause_service) (now, severity_of i),
  option_beq_iff (get_opt i.root_cause_service) (get_opt i.root_cause_service),
)
