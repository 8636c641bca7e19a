-- ===== src/Simulator/Cascade.antt =====
-- simulator/services/cascade_map.py. Python's random module is the parameter `Random`. The loop of
-- the traversal recurses on fuel.
pub mod Built
pub mod Weight
pub mod Affected
use distrosense.Base.{
  ℕ, zero, suc, ◌+◌, ◌-◌, min, String, Bool, true, false, not, ◌||◌, Option, none, some, List, [],
  ◌∷◌, ◌++◌, length, map, select, elem, Result, ok, raised, ◌>>=◌, if◌then◌else◌, ltb, string_eq,
  ◌==◌,
}
use distrosense.Base.Dict.{Dict, get, put}

-- `randint r a b` and `sample r xs k`, which raises ValueError if k exceeds the length
pub record Random : Type 1 where
  pub R : Type 0
  pub randint : R → ℕ → ℕ → R × ℕ
  pub sample : R → List String → ℕ → R × Result (List String)

abbrev pub CascadeMap : Type 0
CascadeMap = Dict String (List String)

-- cascade_map.get(service, [])
unfoldable pub dependents_of : CascadeMap → String → List String
dependents_of cascade_map service = elim (get cascade_map service) [ none ↦ [] | some d ↦ d ]

-- the number of dependents in the map: every entry of the queue but the first stands for one
unfoldable pub edges : CascadeMap → ℕ
edges [] = 0
edges ((service, dependents) ∷ rest) = length dependents + edges rest

module _ (g : Random) where
  open g use {R, randint, sample}

  abbrev pub others : String → List String → List String
  others service service_ids = select (λ s. not (s == service)) service_ids

  -- what is drawn for one service
  unfoldable pub draw : R → List String → String → R × Result (List String)
  draw r service_ids service =
      let (after, num_dependents) = randint r 1 3 in
      sample after (others service service_ids) (min num_dependents (length service_ids - 1))

  abbrev pub store : CascadeMap → String → Result (List String) → Result CascadeMap
  store built service raised = raised
  store built service (ok dependents) = ok (put built service dependents)

  -- the loop over the services that are left
  unfoldable pub build : R → List String → List String → CascadeMap → Result CascadeMap
  unfolding draw
  build r service_ids [] built = ok built
  build r service_ids (service ∷ rest) built =
      let (after, drawn) = draw r service_ids service in
      store built service drawn >>= λ more. build after service_ids rest more

  unfoldable pub build_cascade_map : R → List String → Result CascadeMap
  unfolding build
  build_cascade_map r service_ids = build r service_ids service_ids []

module _ (root_service_id : String) (cascade_map : CascadeMap) (max_depth : ℕ) where
  -- what a service that is taken from the queue adds to `affected`
  abbrev pub affect : String → List String → List String
  affect current affected =
      if current == root_service_id then affected else affected ++ current ∷ []

  -- what it adds to the queue
  abbrev pub downstream : String → ℕ → List String → List (String × ℕ)
  downstream current depth visited =
      map (λ d. (d, suc depth))
        (select (λ d. not (elem d visited)) (dependents_of cascade_map current))

  -- the entry is passed over
  abbrev pub is_skipped : String → ℕ → List String → Bool
  is_skipped current depth visited = elem current visited || ltb max_depth depth

  -- none where the fuel is used up
  unfoldable pub traverse : ℕ → List (String × ℕ) → List String → List String → Option (List String)
  traverse fuel [] visited affected = some affected
  traverse zero (entry ∷ queue) visited affected = none
  traverse (suc fuel) ((current, depth) ∷ queue) visited affected =
      let skipped = traverse fuel queue visited affected in
      let taken =
        traverse fuel (queue ++ downstream current depth (current ∷ visited)) (current ∷ visited)
          (affect current affected) in
      if is_skipped current depth visited then skipped else taken

  unfoldable pub get_affected_services : Option (List String)
  unfolding traverse edges
  get_affected_services = traverse (suc (edges cascade_map)) ((root_service_id, 0) ∷ []) [] []
