-- ===== src/Correlation/Search.antt =====
-- The breadth-first search of `IncidentClusterer._connected_clusters`. The graph database is not
-- part of the program: `get_related_services` is a parameter. `_related_cache` only saves calls of
-- it, since the topology is static. A set is read in the order of the list that stands for it.
pub mod Ends
pub mod Correct
use distrosense.Base.{
  ℕ, zero, suc, String, Bool, true, false, not, ◌&&◌, List, [], ◌∷◌, ◌++◌, elem, string_eq, length,
  if◌then◌else◌,
}
use distrosense.Base.Dict.{Dict, has, put, keys}
use distrosense.Correlation.Cluster.{Cluster, set_add}

-- owner[sid] = key, for one cluster
unfoldable pub own : Dict String ℕ → ℕ → List String → Dict String ℕ
own owner key [] = owner
own owner key (sid ∷ sids) = own (put owner sid key) key sids

-- {sid: c for c in eligible for sid in c.service_ids}
unfoldable pub owners : Dict String ℕ → List Cluster → Dict String ℕ
unfolding own
owners owner [] = owner
owners owner (c ∷ eligible) = owners (own owner c.key c.service_ids) eligible

pub record Frontier : Type 0 where
  pub visited : List String
  pub frontier : List String

module _ (get_related_services : String → List String) (owner : Dict String ℕ) where
  -- `_related`
  unfoldable pub related : String → List String
  unfolding set_add
  related service = set_add (get_related_services service) service

  -- the `if` in the inner loop
  unfoldable pub offer : Frontier → String → Frontier
  offer s neighbour =
      if has owner neighbour && not (elem neighbour s.visited)
      then record { visited = s.visited ++ neighbour ∷ []; frontier = s.frontier ++ neighbour ∷ [] }
      else s

  -- for neighbour in ...
  unfoldable pub offer_all : Frontier → List String → Frontier
  unfolding offer
  offer_all s [] = s
  offer_all s (n ∷ ns) = offer_all (offer s n) ns

  -- while frontier: the fuel bounds the rounds
  unfoldable pub search : ℕ → Frontier → Frontier
  unfolding offer_all related
  search zero s = s
  search (suc fuel) s = elim s.frontier [
    | [] ↦ s
    | service ∷ rest ↦ search fuel (offer_all (record s { frontier = rest }) (related service))
  ]

  unfoldable pub start : String → Frontier
  start service_id = record { visited = service_id ∷ []; frontier = service_id ∷ [] }

  -- Every service is queued at most once, and it is the first one or owned.
  unfoldable pub component : String → Frontier
  unfolding search start
  component service_id = search (suc (length (keys owner))) (start service_id)
