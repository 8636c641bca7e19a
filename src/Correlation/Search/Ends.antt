-- ===== src/Correlation/Search/Ends.antt =====
-- The fuel of the search of `_connected_clusters` in correlation/clustering/incident_clusterer.py.
use distrosense.Base.{
  ℕ, zero, suc, ◌+◌, ◌≤◌, ◌≡◌, ap, String, true, false, List, [], ◌∷◌, ◌++◌, arith, elem,
  elem-append, string_eq, length, length-append, List-cases, inl, inr, if◌then◌else◌,
}
use distrosense.Base.Dict.{Dict, has, keys, get}
use distrosense.Correlation.Search.{Frontier, related, offer, offer_all, search, start, component}

-- The owned keys that were not visited yet.
abbrev pub unvisited : List String → List String → ℕ
unvisited visited [] = 0
unvisited visited (k ∷ ks) = (if elem k visited then 0 else 1) + unvisited visited ks

unvisited-append :
    (visited : List String) (n : String) (ks : List String)
    → unvisited (visited ++ n ∷ []) ks ≤ unvisited visited ks
unvisited-append visited n [] = omega arith
unvisited-append visited n (k ∷ ks) =
    ground (arith, unvisited-append visited n ks, elem-append k visited (n ∷ []))

-- visiting a key makes one fewer
unvisited-visit :
    (visited : List String) (n : String) (ks : List String)
    → elem n ks ≡ true
    → elem n visited ≡ false
    → suc (unvisited (visited ++ n ∷ []) ks) ≤ unvisited visited ks
unvisited-visit visited n [] h e = cc
unvisited-visit visited n (k ∷ ks) h e = ground (
  arith,
  unvisited-visit visited n ks,
  unvisited-append visited n ks,
  elem-append k visited (n ∷ []),
  string_eq.beq_iff n k,
  string_eq.beq_iff k n,
)

elem-keys : (owner : Dict String ℕ) (n : String) → has owner n ≡ true → elem n (keys owner) ≡ true
unfolding get
elem-keys [] n h = cc
elem-keys ((k, v) ∷ owner) n h =
    ground (arith, elem-keys owner n, string_eq.beq_iff n k, string_eq.beq_iff k n)

module _ (get_related_services : String → List String) (owner : Dict String ℕ) where
  abbrev rel : String → List String
  rel = related get_related_services owner

  abbrev work : Frontier → ℕ
  work s = unvisited s.visited (keys owner) + length s.frontier

  work-offer : (s : Frontier) (n : String) → work (offer get_related_services owner s n) ≤ work s
  unfolding offer
  work-offer s n = ground (
    arith,
    unvisited-visit s.visited n (keys owner),
    elem-keys owner n,
    length-append s.frontier (n ∷ []),
  )

  work-offer_all :
      (s : Frontier) (ns : List String) → work (offer_all get_related_services owner s ns) ≤ work s
  unfolding offer_all
  work-offer_all s [] = omega arith
  work-offer_all s (n ∷ ns) =
      omega (arith, work-offer s n, work-offer_all (offer get_related_services owner s n) ns)

  search-ends :
      (fuel : ℕ) (s : Frontier)
      → work s ≤ fuel
      → (search get_related_services owner fuel s).frontier ≡ []
  unfolding search
  search-ends zero s h = elim (List-cases s.frontier) [
    | inl e ↦ e
    | inr (x, r, e) ↦ absurd (omega (arith, ap length e))
  ]
  search-ends (suc fuel) s h = elim (List-cases s.frontier) [
    | inl e ↦ rw (e, search) e
    | inr (x, r, e) ↦
        rw (e, search)
          (search-ends fuel
            (offer_all get_related_services owner (record s { frontier = r }) (rel x))
            (omega (arith, work-offer_all (record s { frontier = r }) (rel x), ap length e)))
  ]

  unvisited-le : (visited ks : List String) → unvisited visited ks ≤ length ks
  unvisited-le visited [] = omega arith
  unvisited-le visited (k ∷ ks) = ground (arith, unvisited-le visited ks)

  -- The search ends by its own test, with no service left to visit, whatever the graph and whatever
  -- the first service: the fuel, one more than the owned services, is enough.
  pub component-ends : (first : String) → (component get_related_services owner first).frontier ≡ []
  unfolding component
  component-ends first =
      search-ends (suc (length (keys owner))) (start get_related_services owner first)
        (unfold start in omega (arith, unvisited-le (first ∷ []) (keys owner)))
