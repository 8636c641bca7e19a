-- ===== src/Orchestrator/Filter.antt =====
-- orchestrator/incident_filter.py: `check` decides whether an incident is acted on. The clock's
-- reading is an argument. `_seen` is the list of its keys, oldest first; an id that is missing or
-- null is the key None.
pub mod Seen
pub mod Cooldown
use distrosense.Base.{
  ℕ, ◌+◌, String, Bool, true, false, Option, none, some, List, [], ◌∷◌, ◌++◌, ltb, ◌&&◌, leb,
  if◌then◌else◌, length, elem, option_eq, string_eq,
}
use distrosense.Base.Dict.{Dict, get, put}
use distrosense.Orchestrator.Incident.{Incident, get_opt, get_or_default}

pub record IncidentFilter : Type 0 where
  pub cooldown : ℕ
  pub max_age : ℕ
  pub max_seen : ℕ
  pub seen : List (Option String)
  -- root cause -> (acted_at, severity)
  pub last : Dict (Option String) (ℕ × ℕ)

-- the four results (should_act, reason)
pub data Verdict : Type 0 where
  act duplicate stale cooling : Verdict

unfoldable pub init : ℕ → ℕ → ℕ → IncidentFilter
init cooldown max_age max_seen = record {
  cooldown = cooldown;
  max_age = max_age;
  max_seen = max_seen;
  seen = [];
  last = [];
}

-- while len(self._seen) > self._max_seen: self._seen.popitem(last=False)
unfoldable pub evict : ℕ → List (Option String) → List (Option String)
evict max_seen [] = []
evict max_seen (x ∷ xs) = if ltb max_seen (length (x ∷ xs)) then evict max_seen xs else x ∷ xs

unfoldable pub is_stale : IncidentFilter → ℕ → Incident → Bool
is_stale f now i = elim (get_opt i.closed_at) [
  | none ↦ false
  | some closed_at ↦ ltb (closed_at + f.max_age) now
]

abbrev pub severity_of : Incident → ℕ
severity_of i = get_or_default i.severity 0

unfoldable pub is_cooling : IncidentFilter → ℕ → Incident → Bool
is_cooling f now i = elim (get f.last (get_opt i.root_cause_service)) [
  | none ↦ false
  | some (acted_at, last_severity) ↦
      ltb now (acted_at + f.cooldown) && leb (severity_of i) last_severity
]

-- the checks behind the duplicate test
unfoldable pub judge : IncidentFilter → ℕ → Incident → IncidentFilter × Verdict
judge f now i =
    if is_stale f now i
    then (f, stale)
    else if is_cooling f now i
    then (f, cooling)
    else (record f { last = put f.last (get_opt i.root_cause_service) (now, severity_of i) }, act)

-- self._seen[incident_id] = None, and the loop that bounds the dictionary
unfoldable pub remember : IncidentFilter → Option String → IncidentFilter
unfolding evict
remember f id = record f { seen = evict f.max_seen (f.seen ++ id ∷ []) }

unfoldable pub check : IncidentFilter → ℕ → Incident → IncidentFilter × Verdict
check f now i =
    let id = get_opt i.incident_id in
    if elem id f.seen then (f, duplicate) else judge (remember f id) now i

-- One filter over a sequence of deliveries, each with the clock's reading.
unfoldable pub run : IncidentFilter → List (ℕ × Incident) → IncidentFilter
run f [] = f
run f ((now, i) ∷ rest) = run (check f now i).0 rest
